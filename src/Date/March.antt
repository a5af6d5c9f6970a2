-- ===== src/Date/March.antt =====
-- The arithmetic of the two conversions, over years that begin with March: year `y` counts from
-- March of -4800, month `m` from 0 for March to 11 for February, and days from 0.
use multi_thread_log.Common.{
  ℕ, ◌+◌, ◌-◌, ◌*◌, ◌/◌, ◌%◌, ◌≤◌, ◌<◌, ◌≡◌, ◌≢◌, refl, sym, ap, ap₂, ◌∙◌, arith, ◌⊎◌, inl, inr,
  dec_lt,
}

-- The first day of month `m` in its year.
abbrev pub month_start : ℕ → ℕ
month_start m = (153 * m + 2) / 5

-- The first day of year `y`.
abbrev pub year_start : ℕ → ℕ
year_start y = y * 365 + y / 4 + y / 400 - y / 100

-- The year ends with February 29.
abbrev pub IsLong : ℕ → Type 0
IsLong y = ((y + 1) % 4 ≡ 0) × (((y + 1) % 100 ≢ 0) ⊎ ((y + 1) % 400 ≡ 0))

-- The parts of day `a`, as `getYearMonthDay` computes them.
abbrev pub century : ℕ → ℕ
century a = (4 * a + 3) / 146097

abbrev pub day_of_century : ℕ → ℕ
day_of_century a = a - century a * 146097 / 4

abbrev pub year_of_century : ℕ → ℕ
year_of_century a = (4 * day_of_century a + 3) / 1461

abbrev pub day_of_year : ℕ → ℕ
day_of_year a = day_of_century a - 1461 * year_of_century a / 4

abbrev pub month_of : ℕ → ℕ
month_of e = (5 * e + 2) / 153

-- A year starts where its century and the years before it in the century put it.
pub year_start-split :
    (b d : ℕ) → d < 100 → year_start (b * 100 + d) ≡ b * 146097 / 4 + 1461 * d / 4
year_start-split b d h = omega arith

pub century-start : (b c : ℕ) → c < 36524 + (b + 1) / 4 - b / 4 → century (b * 146097 / 4 + c) ≡ b
century-start b c h = omega arith

pub year-start : (d e : ℕ) → e < 365 + (d + 1) / 4 - d / 4 → (4 * (1461 * d / 4 + e) + 3) / 1461 ≡ d
year-start d e h = omega arith

pub day_of_century-lt : (a : ℕ) → (century a * 146097 / 4 ≤ a) × (day_of_century a < 36525)
day_of_century-lt a = omega arith

pub day_of_year-lt :
    (a : ℕ)
    → (1461 * year_of_century a / 4 ≤ day_of_century a)
      × (day_of_year a < 366)
      × (year_of_century a < 100)
day_of_year-lt a = omega arith

pub month-start :
    (m d : ℕ) → m < 12 → d < month_start (m + 1) - month_start m → month_of (month_start m + d) ≡ m
month-start m d h k = omega arith

pub month_of-lt : (e : ℕ) → e < 366 → (month_start (month_of e) ≤ e) × (month_of e < 12)
month_of-lt e h = omega arith

day_of_century-lt_century : (a : ℕ) → day_of_century a < 36524 + (century a + 1) / 4 - century a / 4
day_of_century-lt_century a = omega arith

IsLong-of_parts :
    (b c d : ℕ)
    → d < 100
    → d ≡ (4 * c + 3) / 1461
    → c ≡ 1461 * d / 4 + 365
    → c < 36524 + (b + 1) / 4 - b / 4
    → IsLong (b * 100 + d)
IsLong-of_parts b c d h e f lt = elim (dec_lt d 99) [
  | yes under ↦ (omega arith, inl (omega arith))
  | no last ↦ (omega arith, inr (omega arith))
]

-- Day 365 of a year is there only if the year is long.
pub day_of_year-IsLong :
    (a : ℕ) → day_of_year a ≡ 365 → IsLong (century a * 100 + year_of_century a)
day_of_year-IsLong a h =
    IsLong-of_parts (century a) (day_of_century a) (year_of_century a) (day_of_year-lt a).2 refl
      (omega (arith, day_of_year-lt a)) (day_of_century-lt_century a)

room_in_year :
    (y e : ℕ) → e < 366 → ((e ≡ 365) → IsLong y) → e < 365 + (y % 100 + 1) / 4 - y % 100 / 4
room_in_year y e h long = elim (dec_lt e 365) [
  | yes short ↦ omega arith
  | no last ↦ omega (arith, (long (omega arith)).0)
]

room_in_century :
    (y e : ℕ)
    → e < 366
    → ((e ≡ 365) → IsLong y)
    → 1461 * (y % 100) / 4 + e < 36524 + (y / 100 + 1) / 4 - y / 100 / 4
room_in_century y e h long = elim (dec_lt e 365) [
  | yes short ↦ omega arith
  | no last ↦ omega (arith, long (omega arith))
]

-- The parts of a day that is given by century, year and day of the year.
parts_of :
    (a b d e : ℕ)
    → a ≡ b * 146097 / 4 + (1461 * d / 4 + e)
    → e < 365 + (d + 1) / 4 - d / 4
    → 1461 * d / 4 + e < 36524 + (b + 1) / 4 - b / 4
    → (century a ≡ b) × (year_of_century a ≡ d) × (day_of_year a ≡ e)
parts_of a b d e h in_year in_century = (cen, yc, dy)
  where
    cen : century a ≡ b
    cen = ap century h ∙ century-start b (1461 * d / 4 + e) in_century

    dc : day_of_century a ≡ 1461 * d / 4 + e
    dc = ap (λ (x : ℕ). a - x * 146097 / 4) cen ∙ omega arith

    yc : year_of_century a ≡ d
    yc = ap (λ (x : ℕ). (4 * x + 3) / 1461) dc ∙ year-start d e in_year

    dy : day_of_year a ≡ e
    dy = ap₂ (λ (x z : ℕ). x - 1461 * z / 4) dc yc ∙ omega arith

-- A day put together from its parts is taken apart into them.
pub parts-back :
    (y e : ℕ)
    → e < 366
    → ((e ≡ 365) → IsLong y)
    → (century (year_start y + e) * 100 + year_of_century (year_start y + e) ≡ y)
      × (day_of_year (year_start y + e) ≡ e)
parts-back y e h long =
    let p =
      parts_of (year_start y + e) (y / 100) (y % 100) e
        (omega (arith, year_start-split (y / 100) (y % 100) (omega arith), ap year_start split))
        (room_in_year y e h long) (room_in_century y e h long) in
    (ap₂ (λ (x z : ℕ). x * 100 + z) p.0 p.1 ∙ sym split, p.2)
  where
    split : y ≡ y / 100 * 100 + y % 100
    split = omega arith

-- The parts of a day make up the day.
pub parts-sum : (a : ℕ) → year_start (century a * 100 + year_of_century a) + day_of_year a ≡ a
parts-sum a =
    omega (
      arith,
      year_start-split (century a) (year_of_century a),
      day_of_century-lt a,
      day_of_year-lt a,
    )
