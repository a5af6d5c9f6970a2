-- ===== src/TimeZone/Zone/Reading.antt =====
-- `File` and `readTimeZoneFile` of TimeZone.cc. An exception leaves what was put into the data before it.
pub mod Kept
pub mod Format
pub mod Parts
pub mod Written
mod Examples
use multi_thread_log.Common.{
  ℕ, zero, suc, ◌+◌, ◌-◌, ◌*◌, ◌^◌, ◌≡◌, Bool, true, false, Option, none, some, List, [], ◌∷◌, ◌++◌,
  ◌==◌, ltb, leb, not, ◌&&◌, if◌then◌else◌, length, take, drop, codes,
}
use multi_thread_log.Common.Lists.{get_elem?}
use multi_thread_log.Common.Int.{ℤ, pos, pos_part, sub_ℕ, ◌+ℤ◌, ltb_ℤ}
use multi_thread_log.TimeZone.Zone.{Transition, Localtime, Data, TimeZone}

-- A part of the reading: it goes on with the bytes and the data that are left, or throws a `logic_error`,
-- or is undefined behaviour.
pub data Outcome (A : Type 0) : Type 0 where
  undefined : Outcome A
  throws : Data → Outcome A
  returns : A → List ℕ → Data → Outcome A

abbrev pub Reader : Type 0 → Type 0
Reader A = List ℕ → Data → Outcome A

abbrev pub then_read : {A B : Type 0} → Outcome A → (A → Reader B) → Outcome B
then_read undefined k = undefined
then_read (throws d) k = throws d
then_read (returns x bytes d) k = k x bytes d

infixl 15 ◌>>=◌
abbrev pub ◌>>=◌ : {A B : Type 0} → Reader A → (A → Reader B) → Reader B
r >>= k = λ bytes d. then_read (r bytes d) k

abbrev pub give : {A : Type 0} → A → Reader A
give x = λ bytes d. returns x bytes d

-- `readBytes`, for a length that is not negative.
unfoldable pub read_bytes : ℕ → Reader (List ℕ)
read_bytes n =
    λ bytes d. if leb n (length bytes) then returns (take n bytes) (drop n bytes) d else throws d

abbrev pub throw : {A : Type 0} → Reader A
throw = λ bytes d. throws d

-- `be32toh` of four bytes, as an `int32_t`.
unfoldable pub int32_of : List ℕ → ℤ
int32_of [] = pos 0
int32_of (a ∷ bytes) =
    let u = from_big_endian a bytes in if ltb u (2 ^ 31) then pos u else sub_ℕ u (2 ^ 32)
  where
    from_big_endian : ℕ → List ℕ → ℕ
    from_big_endian acc [] = acc
    from_big_endian acc (b ∷ bs) = from_big_endian (acc * 256 + b) bs

-- `readInt32`
unfoldable pub read_int32 : Reader ℤ
unfolding read_bytes int32_of
read_int32 = do x ← read_bytes 4; give (int32_of x)

-- `readUInt8`
unfoldable pub read_uint8 : Reader ℕ
read_uint8 = λ bytes d. elim bytes [ [] ↦ throws d | x ∷ rest ↦ returns x rest d ]

-- A loop that reads `n` times.
unfoldable pub times : {A : Type 0} → ℕ → Reader A → Reader (List A)
times zero r = give []
times (suc n) r = do x ← r; xs ← times n r; give (x ∷ xs)

-- `data->localtimes.push_back` of one type, and `data->transitions.push_back` of one transition.
unfoldable pub read_localtime : Reader Unit
unfolding read_int32 read_uint8
read_localtime = do
  gmtoff ← read_int32
  isdst ← read_uint8
  abbrind ← read_uint8
  λ bytes d. returns tt bytes (record d {
    localtimes =
        d.localtimes
        ++ record { gmt_offset = gmtoff; is_dst = not (isdst == 0); arrb_idx = abbrind } ∷ [];
  })

-- `data->localtimes[localIdx]` is not checked.
unfoldable pub push_with : ℤ → ℕ → Option Localtime → Reader Unit
push_with t i none = λ bytes d. undefined
push_with t i (some l) = λ bytes d. returns tt bytes (record d {
  transitions =
      d.transitions
      ++ record { gmttime = t; localtime = t +ℤ l.gmt_offset; localtime_idx = i } ∷ [];
})

unfoldable pub push_transition : ℤ → ℕ → Reader Unit
unfolding push_with
push_transition t i = λ bytes d. push_with t i (get_elem? d.localtimes i) bytes d

unfoldable pub push_transitions : List ℤ → List ℕ → Reader Unit
unfolding push_transition
push_transitions [] idxs = give tt
push_transitions (t ∷ ts) [] = λ bytes d. undefined
push_transitions (t ∷ ts) (i ∷ idxs) = do pushed ← push_transition t i; push_transitions ts idxs

-- `char buf[n]` wants a length that is not negative.
unfoldable pub read_abbreviation : ℤ → Reader Unit
unfolding read_bytes
read_abbreviation n =
    if ltb_ℤ n (pos 0)
    then (λ bytes d. undefined)
    else (read_bytes (pos_part n) >>= λ names bytes d.
        returns tt bytes (record d { abbreviation = names }))

-- What follows the counts; `reserve` of a negative number throws a `length_error`, a `logic_error`.
unfoldable pub read_body : ℤ → ℤ → ℤ → Reader Unit
unfolding read_int32 read_uint8 times read_localtime push_transitions read_abbreviation
read_body timecnt typecnt charcnt = do
  trans ← if ltb_ℤ timecnt (pos 0) then throw else times (pos_part timecnt) read_int32
  localtimes ← times (pos_part timecnt) read_uint8
  types ← times (pos_part typecnt) read_localtime
  pushed ← push_transitions trans localtimes
  read_abbreviation charcnt

-- `head != "TZif"`, for the four bytes that were read.
unfoldable pub is_magic : List ℕ → Bool
is_magic (a ∷ b ∷ c ∷ d ∷ []) = (a == b'T') && ((b == b'Z') && ((c == b'i') && (d == b'f')))
is_magic _ = false

-- The body of the `try`.
unfoldable pub read_zone : Reader Unit
unfolding read_bytes read_int32 read_body is_magic
read_zone = do
  head ← read_bytes 4
  version ← if is_magic head then read_bytes 1 else throw
  unused ← read_bytes 15
  isgmtcnt ← read_int32
  isstdcnt ← read_int32
  leapcnt ← read_int32
  timecnt ← read_int32
  typecnt ← read_int32
  charcnt ← read_int32
  read_body timecnt typecnt charcnt

-- The `catch`.
unfoldable pub caught : Outcome Unit → Option (Data × Bool)
caught undefined = none
caught (throws d) = some (d, true)
caught (returns u rest d) = some (d, true)

-- `readTimeZoneFile`: `none` for the file is one that cannot be opened. The result is `true` in every case.
unfoldable pub read_time_zone_file : Option (List ℕ) → Data → Option (Data × Bool)
unfolding read_zone caught
read_time_zone_file none d = some (d, true)
read_time_zone_file (some bytes) d = caught (read_zone bytes d)

-- `data_` is reset if the reading fails.
unfoldable pub keep_or_reset : Option (Data × Bool) → Option TimeZone
keep_or_reset none = none
keep_or_reset (some (d, success)) = some (if success then some d else none)

abbrev pub no_data : Data
no_data = record { transitions = []; localtimes = []; abbreviation = [] }

-- `TimeZone(const char*)`
unfoldable pub make_from_file : Option (List ℕ) → Option TimeZone
unfolding read_time_zone_file keep_or_reset
make_from_file file = keep_or_reset (read_time_zone_file file no_data)
