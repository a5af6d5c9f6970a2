-- ===== src/TimeZone/Zone/Reading/Examples.antt =====
-- Zone files at concrete bytes.
use multi_thread_log.Common.{ℕ, ◌≡◌, refl, true, false, some, List, [], ◌∷◌, ◌++◌, codes, replicate}
use multi_thread_log.Common.Int.{pos, negsuc, ◌+ℤ◌}
use multi_thread_log.TimeZone.Zone.{Data, valid}
use multi_thread_log.TimeZone.Zone.Reading.{
  make_from_file, read_time_zone_file, read_zone, read_body, is_magic, read_bytes, read_int32,
  int32_of, read_uint8, times, read_localtime, push_transitions, push_transition, push_with,
  read_abbreviation, caught, keep_or_reset,
}
use multi_thread_log.Common.{arith}
use multi_thread_log.TimeZone.Zone.Reading.Format.{Preamble, IsWritable, write_zone}
use multi_thread_log.TimeZone.Zone.Reading.Written.{make_from_file-write_zone}
use multi_thread_log.TimeZone.Zone.Reading.Kept.{make_from_file-IsData, IsData}

abbrev small : ℕ → List ℕ
small n = 0 ∷ 0 ∷ 0 ∷ n ∷ []

-- One transition at -1 to one local time an hour ahead, named in four bytes.
abbrev one_change : List ℕ
one_change =
    codes "TZif"
    ++ (0 ∷ []
        ++ (replicate 15 0
            ++ (small 0
                ++ (small 0
                    ++ (small 0
                        ++ (small 1
                            ++ (small 1
                                ++ (small 4
                                    ++ ((255 ∷ 255 ∷ 255 ∷ 255 ∷ [])
                                        ++ (0 ∷ []
                                            ++ ((0 ∷ 0 ∷ 14 ∷ 16 ∷ 0 ∷ 0 ∷ [])
                                                ++ (codes "CET" ++ 0 ∷ []))))))))))))

abbrev one_hour : Data
one_hour = record {
  transitions = record { gmttime = negsuc 0; localtime = pos 3599; localtime_idx = 0 } ∷ [];
  localtimes = record { gmt_offset = pos 3600; is_dst = false; arrb_idx = 0 } ∷ [];
  abbreviation = codes "CET" ++ 0 ∷ [];
}

reads : make_from_file (some one_change) ≡ some (some one_hour)
unfolding make_from_file read_time_zone_file keep_or_reset caught read_zone read_body is_magic
    read_bytes read_int32 int32_of read_uint8 times read_localtime push_transitions push_transition
    push_with read_abbreviation ◌+ℤ◌
reads = refl

make_from_file-IsData_example :
    (valid (some one_hour) ≡ true) × (d : Data) × (some one_hour ≡ some d) × IsData d
make_from_file-IsData_example = make_from_file-IsData (some one_change) (some one_hour) reads

abbrev some_preamble : Preamble
some_preamble = record {
  version = b'2';
  unused = replicate 15 0;
  isgmtcnt = pos 0;
  isstdcnt = pos 0;
  leapcnt = pos 0;
  length_unused = refl;
  gmt_fits = (omega arith, omega arith);
  std_fits = (omega arith, omega arith);
  leap_fits = (omega arith, omega arith);
}

one_hour-IsWritable : IsWritable one_hour
unfolding ◌+ℤ◌
one_hour-IsWritable = record {
  resolved = ((record { gmt_offset = pos 3600; is_dst = false; arrb_idx = 0 }, refl, refl), tt);
  times_fit = ((omega arith, omega arith), tt);
  offsets_fit = ((omega arith, omega arith), tt);
  transitions_fit = omega arith;
  localtimes_fit = omega arith;
  abbreviation_fits = omega arith;
}

make_from_file-write_zone_example :
    make_from_file (some (write_zone some_preamble one_hour ++ codes "TZif2"))
    ≡ some (some one_hour)
make_from_file-write_zone_example =
    make_from_file-write_zone some_preamble one_hour (codes "TZif2") one_hour-IsWritable
