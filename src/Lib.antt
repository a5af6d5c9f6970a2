-- ===== src/Lib.antt =====
-- MultiThreadLog, an asynchronous logging library for programs of several threads.
--
-- A program writes `LOG_INFO << ...`, which makes a `Logger`: it puts the time, the number of the thread and the
-- level into a `LogStream`, the program puts its own text, and the destructor adds the place in the source and
-- hands the line to the output function, by choice `AsyncLogging::append`, the front end, which
-- collects lines in large buffers. One logging thread, `AsyncLogging::threadFunc`, takes the buffers over
-- and writes them to a `LogFile`, which starts a new file when the current one is too large or the day
-- has changed, and writes through an `AppendFile`. `Date` converts between dates and Julian day numbers,
-- and `TimeZone` between seconds and the times of a zone. `ThreadPool` is a queue of
-- tasks for worker threads. `MutexLock`, `Condition`, `CountDownLatch` and `Thread` wrap the threads of the
-- system; `ReadSmallFile` and the functions of ProcessInfo read what the system tells of the process.
--
-- Which file models what:
--   LogStream, LogStream.FixedBuffer, LogStream.Convert: log/LogStream.h and log/LogStream.cc. An array of
--     `char` is a list of bytes, a pointer into it an offset; a pointer that the code is given is the list
--     of the bytes readable from it on. `none` is undefined behaviour or a failed assertion. A number is
--     taken apart on fuel, 20 rounds for decimal and 16 for hexadecimal digits: enough for 64 bits.
--   AsyncLogging: log/AsyncLogging.h and log/AsyncLogging.cc. `append` is `AsyncLogging::append`, `exchange`
--     the section of `threadFunc` under the lock, `process` the rest of the loop's body. AsyncLogging.Steps
--     lets them interleave: what stands under the lock is one step, a wait may end at any time. The size
--     of a buffer is a parameter. A call of the `LogFile` is an entry of a list,
--     and AsyncLogging.Pipeline has the model of LogFile carry them out. AsyncLogging.Statements puts
--     the statements of Logging in front.
--   LogFile: log/LogFile.h and log/LogFile.cc. A call takes a `Moment`, the answers of the clock and of
--     `fwrite` during it. Replaced files are kept in a list, so that what the files hold together can be said.
--   FileUtil.AppendFile: `AppendFile` of log/FileUtil.h and log/FileUtil.cc. The loop of `append` runs on
--     the list of the answers of `fwrite` and `ferror`; `none` means that they ran out.
--   Date: log/Date.h and log/Date.cc. Date.March has the arithmetic of years that begin with March,
--     Date.Calendar the Gregorian calendar.
--   TimeZone, TimeZone.Zone, TimeZone.Zone.Reading: log/TimeZone.h and log/TimeZone.cc: the conversions to
--     and from UTC, the search of a zone's transitions, and the reading of a zone file, whose exceptions are
--     values. `gmtime_r` and `timegm` are parameters.
--   Timestamp: log/Timestamp.h and log/Timestamp.cc, seconds that are a `double` through the record Common.Double
--     of its operations, with the laws that are documented for whole numbers.
--   ThreadPool: log/ThreadPool.h and log/ThreadPool.cc: `run_locked` and `take_locked` are `run` and `take` with
--     the lock held, and a step relation lets callers and workers interleave, the workers that sleep in `take` included.
--     ThreadPool.Waking counts the threads in the waits of both conditions, before and after having been notified. ThreadPool.Stopping is about the joining in `stop`.
--   Logging: log/Logging.h and log/Logging.cc. Logging.Level has the levels and the global variables,
--     Logging.Source `SourceFile`, Logging.Impl `Impl` with `formatTime`; `make_logger` and `destroy_logger` are the
--     constructors and the destructor of `Logger`, `log_statement` a whole statement. Memory behind a single character,
--     which `operator<<(char)` reads, is a parameter.
--   CurrentThread, Thread: log/CurrentThread.h, log/CurrentThread.cc, log/Thread.h and log/Thread.cc. What a thread keeps about
--     itself is a record; the calls of a `Thread` object and the steps of its thread interleave. CurrentThread.StackTrace is
--     `stackTrace`, of the frames that the system describes.
--   Exception: log/Exception.h and log/Exception.cc, and the `catch` clauses of Thread.cc and ThreadPool.cc.
--   Mutex, CountDownLatch: log/Mutex.h, log/Condition.h, log/CountDownLatch.h and log/CountDownLatch.cc, as steps of
--     threads. In Mutex the holder is assigned in a step of its own; elsewhere what stands under a lock is one step.
--     Mutex.Deadline is the time up to which `waitForSeconds` of log/Condition.cc waits.
--   FileUtil.ReadSmallFile: `ReadSmallFile` and `readFile` of log/FileUtil.h and log/FileUtil.cc. The loop runs on fuel, one
--     more than the bytes asked for: each round reads at least one byte or is the last.
--   Atomic, Singleton, ThreadLocal: log/Atomic.h, log/Singleton.h, log/ThreadLocal.h and log/ThreadLocalSingleton.h. An object is
--     a number; a call of a builtin, of `pthread_once` or of a key of the system is one step.
--   StringPiece: log/StringPiece.h. A pointer is the list of the bytes that can be read from it on.
--   ProcessInfo: log/ProcessInfo.h and log/ProcessInfo.cc. A directory is the list of its names; ProcessInfo.CpuTime has
--     the times of the processor.
--   Types: log/Types.h.
--   Common: tests on numbers, lists over native numbers, integers with the division of C++, and the texts
--     that `snprintf` prints.
--
-- `int`, `size_t` and `off_t` are unbounded here: the lengths of buffers and the day numbers stay far
-- within their types, and the sizes of files would have to exceed 2^63. In LogFile `time_t` is a
-- natural number, since its clock does not stand before the epoch.
--
-- Not modelled: what only declares (log/copyable.h, log/noncopyable.h); allocation failures; and the memory model below the lock.

pub mod AsyncLogging
pub mod Atomic
pub mod Common
pub mod CountDownLatch
pub mod CurrentThread
pub mod Date
pub mod Exception
pub mod FileUtil
pub mod LogFile
pub mod LogStream
pub mod Logging
pub mod Mutex
pub mod ProcessInfo
pub mod Singleton
pub mod StringPiece
pub mod Thread
pub mod ThreadLocal
pub mod ThreadPool
pub mod TimeZone
pub mod Timestamp
pub mod Types
