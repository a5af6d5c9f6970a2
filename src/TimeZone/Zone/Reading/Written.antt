-- ===== src/TimeZone/Zone/Reading/Written.antt =====
-- A zone file, as it is documented, is read back.
use multi_thread_log.Common.{
  ℕ, ◌<◌, ◌≡◌, ap, some, List, [], ◌∷◌, ◌++◌, length, subst, if◌then◌else◌, arith, codes,
}
use multi_thread_log.Common.Int.{ℤ, pos, ltb_ℤ}
use multi_thread_log.TimeZone.Zone.{Data}
use multi_thread_log.TimeZone.Zone.Reading.{
  Reader, ◌>>=◌, throw, read_bytes, read_int32, read_uint8, times, read_localtime, push_transitions,
  read_body, is_magic, read_abbreviation, read_zone, caught, keep_or_reset, no_data,
  read_time_zone_file, make_from_file,
}
use multi_thread_log.TimeZone.Zone.Reading.Format.{
  write_int32, IsInt32, write_all, write_localtime, gmttimes, indices, write_body, IsWritable,
  Preamble, write_counts, write_zone,
}
use multi_thread_log.TimeZone.Zone.Reading.Parts.{
  Reads, Reads-then, Reads-bytes, Reads-int32, Reads-times, units, Reads-localtimes,
  Reads-transitions, length-gmttimes, length-indices, Reads-uint8, All-trivial, Reads-unless,
  Reads-abbreviation,
}

Reads-body :
    (d : Data)
    → IsWritable d
    → Reads
        (read_body
          (pos (length d.transitions))
          (pos (length d.localtimes))
          (pos (length d.abbreviation)))
        (write_body d)
        no_data
        tt
        d
unfolding read_body
Reads-body d w =
    let ts = d.transitions in
    let d1 : Data = record no_data { localtimes = d.localtimes } in
    let d2 : Data = record d1 { transitions = ts } in
    let numbers =
      subst
        (λ n.
          Reads (times n read_int32) (write_all write_int32 (gmttimes ts)) no_data (gmttimes ts)
            no_data)
        (length-gmttimes ts)
        (Reads-times read_int32 write_int32 IsInt32 no_data (λ a h. Reads-int32 a no_data h)
          (gmttimes ts) w.times_fit) in
    let places =
      subst
        (λ n.
          Reads (times n read_uint8) (write_all (λ i. i ∷ []) (indices ts)) no_data (indices ts)
            no_data)
        (length-indices ts)
        (Reads-times read_uint8 (λ i. i ∷ []) (λ i. Unit) no_data (λ i h. Reads-uint8 i no_data)
          (indices ts) (All-trivial (indices ts))) in
    let abbreviation : Unit {0} → Reader (Unit {0}) =
      λ pushed. read_abbreviation (pos (length d.abbreviation)) in
    let pushes : List ℤ → List ℕ → Reader (Unit {0}) =
      λ trans idxs. push_transitions trans idxs >>= abbreviation in
    let types : List ℤ → List ℕ → Reader (Unit {0}) =
      λ trans idxs. times (length d.localtimes) read_localtime >>= λ us. pushes trans idxs in
    let written_types = write_all write_localtime d.localtimes ++ ([] ++ d.abbreviation) in
    Reads-then (if ltb_ℤ (pos (length ts)) (pos 0) then throw else times (length ts) read_int32)
      (λ trans. times (length ts) read_uint8 >>= types trans) (write_all write_int32 (gmttimes ts))
      (write_all (λ i. i ∷ []) (indices ts) ++ written_types) no_data no_data d (gmttimes ts) tt
      (Reads-unless (length ts) throw (times (length ts) read_int32)
        (write_all write_int32 (gmttimes ts)) no_data no_data (gmttimes ts) numbers)
      (Reads-then (times (length ts) read_uint8) (types (gmttimes ts))
        (write_all (λ i. i ∷ []) (indices ts)) written_types no_data no_data d (indices ts) tt
        places
        (Reads-then (times (length d.localtimes) read_localtime)
          (λ us. pushes (gmttimes ts) (indices ts)) (write_all write_localtime d.localtimes)
          ([] ++ d.abbreviation) no_data d1 d (units d.localtimes) tt
          (Reads-localtimes d.localtimes no_data w.offsets_fit)
          (Reads-then (push_transitions (gmttimes ts) (indices ts)) abbreviation [] d.abbreviation
            d1 d2 d tt tt (Reads-transitions ts d1 w.resolved)
            (Reads-abbreviation d.abbreviation d2))))

small-IsInt32 : (n : ℕ) → n < 2147483648 → IsInt32 (pos n)
small-IsInt32 n h = (h, omega arith)

-- Once the magic number has been read.
abbrev read_counts : ℤ → Reader (Unit {0})
read_counts leapcnt = read_int32 >>= λ timecnt.
    read_int32 >>= λ typecnt. read_int32 >>= λ charcnt. read_body timecnt typecnt charcnt

Reads-counts :
    (d : Data) (leapcnt : ℤ)
    → IsWritable d
    → Reads (read_counts leapcnt) (write_counts d) no_data tt d
Reads-counts d leapcnt w =
    let t = pos (length d.transitions) in
    let l = pos (length d.localtimes) in
    let c = pos (length d.abbreviation) in
    Reads-then read_int32 (λ t. read_int32 >>= λ l. read_int32 >>= λ c. read_body t l c)
      (write_int32 t) (write_int32 l ++ (write_int32 c ++ write_body d)) no_data no_data d t tt
      (Reads-int32 t no_data (small-IsInt32 _ w.transitions_fit))
      (Reads-then read_int32 (λ l. read_int32 >>= λ c. read_body t l c) (write_int32 l)
        (write_int32 c ++ write_body d) no_data no_data d l tt
        (Reads-int32 l no_data (small-IsInt32 _ w.localtimes_fit))
        (Reads-then read_int32 (λ c. read_body t l c) (write_int32 c) (write_body d) no_data no_data
          d c tt (Reads-int32 c no_data (small-IsInt32 _ w.abbreviation_fits)) (Reads-body d w)))

abbrev read_others : Reader (Unit {0})
read_others = read_int32 >>= λ g. read_int32 >>= λ s. read_int32 >>= λ leap. read_counts leap

Reads-others :
    (p : Preamble) (d : Data)
    → IsWritable d
    → Reads read_others
        (write_int32 p.isgmtcnt
          ++ (write_int32 p.isstdcnt ++ (write_int32 p.leapcnt ++ write_counts d)))
        no_data
        tt
        d
Reads-others p d w =
    Reads-then read_int32 (λ g. read_int32 >>= λ s. read_int32 >>= λ leap. read_counts leap)
      (write_int32 p.isgmtcnt) (write_int32 p.isstdcnt ++ (write_int32 p.leapcnt ++ write_counts d))
      no_data no_data d p.isgmtcnt tt (Reads-int32 p.isgmtcnt no_data p.gmt_fits)
      (Reads-then read_int32 (λ s. read_int32 >>= λ leap. read_counts leap) (write_int32 p.isstdcnt)
        (write_int32 p.leapcnt ++ write_counts d) no_data no_data d p.isstdcnt tt
        (Reads-int32 p.isstdcnt no_data p.std_fits)
        (Reads-then read_int32 (λ leap. read_counts leap) (write_int32 p.leapcnt) (write_counts d)
          no_data no_data d p.leapcnt tt (Reads-int32 p.leapcnt no_data p.leap_fits)
          (Reads-counts d p.leapcnt w)))

Reads-zone :
    (p : Preamble) (d : Data) → IsWritable d → Reads read_zone (write_zone p d) no_data tt d
unfolding read_zone is_magic
Reads-zone p d w =
    let unused : List ℕ → Reader (Unit {0}) = λ u. read_others in
    let version : List ℕ → Reader (Unit {0}) = λ v. read_bytes 15 >>= unused in
    let magic : List ℕ → Reader (Unit {0}) =
      λ head. (if is_magic head then read_bytes 1 else throw) >>= version in
    let others =
      write_int32 p.isgmtcnt
      ++ (write_int32 p.isstdcnt ++ (write_int32 p.leapcnt ++ write_counts d)) in
    let skipped =
      subst (λ n. Reads (read_bytes n) p.unused no_data p.unused no_data) p.length_unused
        (Reads-bytes p.unused no_data) in
    Reads-then (read_bytes 4) magic (codes "TZif") ((p.version ∷ []) ++ (p.unused ++ others))
      no_data no_data d (codes "TZif") tt (Reads-bytes (codes "TZif") no_data)
      (Reads-then (read_bytes 1) version (p.version ∷ []) (p.unused ++ others) no_data no_data d
        (p.version ∷ []) tt (Reads-bytes (p.version ∷ []) no_data)
        (Reads-then (read_bytes 15) unused p.unused others no_data no_data d p.unused tt skipped
          (Reads-others p d w)))

-- A zone file as it is documented, of any version, with any bytes behind its first block, is read back: the zone made from
-- it has the data that was written, if each transition names one of the local times, and the numbers fit in four bytes.
pub make_from_file-write_zone :
    (p : Preamble) (d : Data) (rest : List ℕ)
    → IsWritable d
    → make_from_file (some (write_zone p d ++ rest)) ≡ some (some d)
unfolding make_from_file read_time_zone_file keep_or_reset caught
make_from_file-write_zone p d rest w = ap (λ o. keep_or_reset (caught o)) (Reads-zone p d w rest)
