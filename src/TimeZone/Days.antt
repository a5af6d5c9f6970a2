-- ===== src/TimeZone/Days.antt =====
-- The days since the epoch and the seconds of a day, also before the epoch.
use multi_thread_log.Common.{
  ℕ, suc, dec_le, ◌+◌, ◌-◌, ◌*◌, ◌/◌, ◌%◌, ◌<◌, ◌≡◌, refl, sym, ap, ◌∙◌, true, false, arith,
}
use multi_thread_log.Common.Int.{
  ℤ, pos, negsuc, pos_part, neg_part, ◌+ℤ◌, ◌-ℤ◌, ◌*ℤ◌, quot, rem, int_laws, *ℤ_parts, *ℤ_pos,
  sub_ℕ, +ℤ_cancel, ltb_ℤ,
}
use multi_thread_log.Date.{get_julian_day_number, k_julian_day_of_1970_01_01}
use multi_thread_log.TimeZone.{k_seconds_per_day, split_day}

pub parts_of_negated : (k : ℕ) → (pos_part (sub_ℕ 0 k) ≡ 0) × (neg_part (sub_ℕ 0 k) ≡ k)
parts_of_negated k = ground arith

-- What the split of a time leaves, before the epoch as after it.
pub record Split (t : ℤ) (s : ℤ × ℤ) : Type 0 where
  pub second : ℕ
  pub in_day : second < 86400
  pub second_is : s.0 ≡ pos second
  pub sum : t ≡ s.1 *ℤ pos 86400 +ℤ pos second

pub below_zero : (k : ℕ) → 0 < k → ltb_ℤ (sub_ℕ 0 k) (pos 0) ≡ true
below_zero k h = ground arith

pub not_below : (k : ℕ) → ltb_ℤ (pos k) (pos 0) ≡ false
not_below k = ground arith

pub split_day-Split : (t : ℤ) → Split t (split_day t)
unfolding split_day quot rem
split_day-Split (pos n) = record {
  second = n % 86400;
  in_day = omega arith;
  second_is = rw (not_below (n % 86400)) refl;
  sum = rw (not_below (n % 86400)) (omega (int_laws, *ℤ_parts (pos (n / 86400)) 86400));
}
split_day-Split (negsuc n) = elim (dec_le 1 (suc n % 86400)) [
  | no whole ↦
      let k : suc n % 86400 ≡ 0 = omega arith in
      record {
        second = 0;
        in_day = omega arith;
        second_is = rw k refl;
        sum = rw k (
            omega (
              int_laws,
              *ℤ_parts (sub_ℕ 0 (suc n / 86400)) 86400,
              parts_of_negated (suc n / 86400),
            ));
      }
  | yes part ↦
      let less = below_zero (suc n % 86400) part in
      record {
        second = 86400 - suc n % 86400;
        in_day = omega arith;
        second_is = rw less (omega (int_laws, parts_of_negated (suc n % 86400)));
        sum = rw less (
            omega (
              int_laws,
              *ℤ_parts (sub_ℕ 0 (suc n / 86400) -ℤ pos 1) 86400,
              parts_of_negated (suc n / 86400),
            ));
      }
]

pub epoch : k_julian_day_of_1970_01_01 ≡ pos 2440588
unfolding k_julian_day_of_1970_01_01 get_julian_day_number ◌+ℤ◌ ◌-ℤ◌ ◌*ℤ◌ quot
epoch = refl

-- The seconds from March 1 of -4800 to the epoch.
abbrev pub seconds_before_epoch : ℕ
seconds_before_epoch = 2472632 * k_seconds_per_day

-- The time of second `u` since March 1 of -4800.
abbrev pub time_at : ℕ → ℤ
time_at u = pos u -ℤ pos seconds_before_epoch

pub day_at :
    (u k : ℕ) (d : ℤ)
    → k < 86400
    → time_at u ≡ d *ℤ pos 86400 +ℤ pos k
    → d +ℤ pos 2440588 ≡ pos (u / 86400) -ℤ pos 32044
day_at u k d h e = omega (int_laws, *ℤ_parts d 86400, parts_of_time)
  where
    parts_of_time :
        (pos_part (time_at u) + neg_part (d *ℤ pos 86400 +ℤ pos k)
          ≡ pos_part (d *ℤ pos 86400 +ℤ pos k) + neg_part (time_at u))
    parts_of_time = rw e refl

pub day_back : (d j : ℤ) → d +ℤ pos 2440588 ≡ j → j -ℤ pos 2440588 ≡ d
day_back d j e = ap (λ x. x -ℤ pos 2440588) (sym e) ∙ +ℤ_cancel d (pos 2440588)

pub less_and_more : (x : ℤ) (k : ℕ) → x -ℤ pos k +ℤ pos k ≡ x
less_and_more x k = omega int_laws

-- The hours, minutes and seconds make up the seconds of the day.
pub clock :
    (k : ℕ) → pos (k / 60 / 60) *ℤ pos 3600 +ℤ pos (k / 60 % 60) *ℤ pos 60 +ℤ pos (k % 60) ≡ pos k
clock k = rw (*ℤ_pos (k / 60 / 60) 3600, *ℤ_pos (k / 60 % 60) 60) (omega int_laws)
