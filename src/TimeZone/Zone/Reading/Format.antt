-- ===== src/TimeZone/Zone/Reading/Format.antt =====
-- The bytes of a zone file, as they are documented.
use multi_thread_log.Common.{
  ℕ, ◌-◌, ◌/◌, ◌%◌, ◌≤◌, ◌<◌, ◌≡◌, Bool, true, false, List, [], ◌∷◌, ◌++◌, length, codes,
}
use multi_thread_log.Common.Int.{ℤ, pos, negsuc, pos_part, neg_part}
use multi_thread_log.TimeZone.Zone.{Transition, Localtime, Data}
use multi_thread_log.TimeZone.Zone.Reading.Kept.{IsData}

-- A number of four bytes, the highest first, and of two's complement.
abbrev pub big_endian : ℕ → List ℕ
big_endian u = u / 16777216 ∷ u / 65536 % 256 ∷ u / 256 % 256 ∷ u % 256 ∷ []

abbrev pub write_int32 : ℤ → List ℕ
write_int32 (pos n) = big_endian n
write_int32 (negsuc n) = big_endian (4294967295 - n)

abbrev pub IsInt32 : ℤ → Type 0
IsInt32 a = (pos_part a < 2147483648) × (neg_part a ≤ 2147483648)

-- A list, each element by `write`.
abbrev pub write_all {ℓ} : {A : Type ℓ} → (A → List ℕ) → List A → List ℕ
write_all write [] = []
write_all write (x ∷ xs) = write x ++ write_all write xs

abbrev pub All {ℓ} : {A : Type ℓ} → (A → Type 0) → List A → Type 0
All p [] = Unit
All p (x ∷ xs) = p x × All p xs

abbrev pub flag : Bool → ℕ
flag true = 1
flag false = 0

abbrev pub write_localtime : Localtime → List ℕ
write_localtime l = write_int32 l.gmt_offset ++ (flag l.is_dst ∷ l.arrb_idx ∷ [])

-- The transitions are made from their times and the numbers of their local times.
abbrev pub gmttimes : List Transition → List ℤ
gmttimes [] = []
gmttimes (t ∷ ts) = t.gmttime ∷ gmttimes ts

abbrev pub indices : List Transition → List ℕ
indices [] = []
indices (t ∷ ts) = t.localtime_idx ∷ indices ts

-- What is written of a zone's data, behind the counts.
abbrev pub write_body : Data → List ℕ
write_body d =
    write_all write_int32 (gmttimes d.transitions)
    ++ (write_all (λ i. i ∷ []) (indices d.transitions)
        ++ (write_all write_localtime d.localtimes ++ ([] ++ d.abbreviation)))

-- What a file of four-byte numbers can hold.
pub record IsWritable (d : Data) : Type 0 where
  pub resolved : IsData d
  pub times_fit : All IsInt32 (gmttimes d.transitions)
  pub offsets_fit : All (λ l. IsInt32 l.gmt_offset) d.localtimes
  pub transitions_fit : length d.transitions < 2147483648
  pub localtimes_fit : length d.localtimes < 2147483648
  pub abbreviation_fits : length d.abbreviation < 2147483648

-- What stands before the counts of the zone, and is not used: a version, 15 bytes and three other counts.
pub record Preamble : Type 0 where
  pub version : ℕ
  pub unused : List ℕ
  pub isgmtcnt : ℤ
  pub isstdcnt : ℤ
  pub leapcnt : ℤ
  pub length_unused : length unused ≡ 15
  pub gmt_fits : IsInt32 isgmtcnt
  pub std_fits : IsInt32 isstdcnt
  pub leap_fits : IsInt32 leapcnt

abbrev pub write_counts : Data → List ℕ
write_counts d =
    write_int32 (pos (length d.transitions))
    ++ (write_int32 (pos (length d.localtimes))
        ++ (write_int32 (pos (length d.abbreviation)) ++ write_body d))

abbrev pub write_zone : Preamble → Data → List ℕ
write_zone p d =
    codes "TZif"
    ++ ((p.version ∷ [])
        ++ (p.unused
            ++ (write_int32 p.isgmtcnt
                ++ (write_int32 p.isstdcnt ++ (write_int32 p.leapcnt ++ write_counts d)))))
