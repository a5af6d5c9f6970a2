-- ===== src/FileUtil.antt =====
-- The classes of FileUtil.h and FileUtil.cc.
pub mod AppendFile
pub mod ReadSmallFile
