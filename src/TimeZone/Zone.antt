-- ===== src/TimeZone/Zone.antt =====
-- The data of a time zone in TimeZone.cc, the search in it, and the local times. `gmtime_r` and `timegm` are
-- parameters. `none` is undefined behaviour, or a failed assertion.
pub mod InForce
pub mod Reading
pub mod Fixed
pub mod RoundTrip
use multi_thread_log.Common.{
  ℕ, ◌+◌, ◌-◌, ◌≡◌, Bool, true, false, Option, none, some, List, [], ◌∷◌, not, ◌&&◌, if◌then◌else◌,
  ◌>>=◌, length, drop, leb, ◌==◌,
}
use multi_thread_log.Common.Lists.{get_elem?}
use multi_thread_log.Common.Int.{ℤ, pos, ◌+ℤ◌, ◌-ℤ◌, ltb_ℤ, eqb_ℤ}
use multi_thread_log.TimeZone.{Tm}

pub record Transition : Type 0 where
  pub gmttime : ℤ
  pub localtime : ℤ
  pub localtime_idx : ℕ

-- `Comp`, with its `compareGmt`.
abbrev pub comp : Bool → Transition → Transition → Bool
comp gmt lhs rhs = if gmt then ltb_ℤ lhs.gmttime rhs.gmttime else ltb_ℤ lhs.localtime rhs.localtime

abbrev pub equal : Bool → Transition → Transition → Bool
equal gmt lhs rhs = if gmt then eqb_ℤ lhs.gmttime rhs.gmttime else eqb_ℤ lhs.localtime rhs.localtime

pub record Localtime : Type 0 where
  pub gmt_offset : ℤ
  pub is_dst : Bool
  pub arrb_idx : ℕ

-- `TimeZone::Data`
pub record Data : Type 0 where
  pub transitions : List Transition
  pub localtimes : List Localtime
  pub abbreviation : List ℕ

-- `std::lower_bound`: the first position that is not before `sentry`, or the end.
unfoldable pub lower_bound : Bool → List Transition → Transition → ℕ
lower_bound gmt [] sentry = 0
lower_bound gmt (t ∷ ts) sentry = if comp gmt t sentry then lower_bound gmt ts sentry + 1 else 0

-- What `findLocaltime` makes of the position `i` that it found, and of the transition there.
unfoldable pub settle_at :
    Bool → List Transition → Transition → ℕ → Option Transition → Option Transition
settle_at gmt ts sentry i none = get_elem? ts (length ts - 1)
settle_at gmt ts sentry i (some t) =
    if equal gmt sentry t then some t else if i == 0 then none else get_elem? ts (i - 1)

-- The transition that it settles on, where the first one is not after `sentry`.
unfoldable pub settle : Bool → List Transition → Transition → Option Transition
unfolding settle_at
settle gmt ts sentry =
    settle_at gmt ts sentry (lower_bound gmt ts sentry) (get_elem? ts (lower_bound gmt ts sentry))

unfoldable pub find_localtime : Data → Transition → Bool → Option Localtime
unfolding settle
find_localtime zone_data sentry gmt = elim zone_data.transitions [
  | [] ↦ get_elem? zone_data.localtimes 0
  | first ∷ _ ↦
      if comp gmt sentry first
      then get_elem? zone_data.localtimes 0
      else (settle gmt zone_data.transitions sentry >>= λ t.
          get_elem? zone_data.localtimes t.localtime_idx)
]

-- `TimeZone`: the null pointer is `none`.
abbrev pub TimeZone : Type 0
TimeZone = Option Data

unfoldable pub valid : TimeZone → Bool
valid none = false
valid (some d) = true

-- `TimeZone(int, const char*)`
unfoldable pub make_fixed : ℤ → List ℕ → TimeZone
make_fixed east_utc name = some (record {
  transitions = [];
  localtimes = record { gmt_offset = east_utc; is_dst = false; arrb_idx = 0 } ∷ [];
  abbreviation = name;
})

unfoldable pub to_local_time : (ℤ → Tm) → TimeZone → ℤ → Option Tm
unfolding find_localtime
to_local_time gmtime zone seconds = do
  zone_data ← zone
  local ←
      find_localtime zone_data (record { gmttime = seconds; localtime = pos 0; localtime_idx = 0 })
        true
  if leb local.arrb_idx (length zone_data.abbreviation)
      then some (record (gmtime (seconds +ℤ local.gmt_offset)) {
        tm_isdst = local.is_dst;
        tm_gmtoff = local.gmt_offset;
        tm_zone = drop local.arrb_idx zone_data.abbreviation;
      })
      else none

unfoldable pub from_local_time : (ℤ → Tm) → (Tm → ℤ) → TimeZone → Tm → Option ℤ
unfolding find_localtime to_local_time
from_local_time gmtime timegm zone local_tm = do
  zone_data ← zone
  let seconds = timegm local_tm
  local ←
      find_localtime zone_data (record { gmttime = pos 0; localtime = seconds; localtime_idx = 0 })
        false
  shifted ←
      if local_tm.tm_isdst
      then (to_local_time gmtime zone (seconds -ℤ local.gmt_offset) >>= λ try_tm. some (
          not try_tm.tm_isdst
          && (eqb_ℤ try_tm.tm_hour local_tm.tm_hour && eqb_ℤ try_tm.tm_min local_tm.tm_min)))
      else some false
  some ((if shifted then seconds -ℤ pos 3600 else seconds) -ℤ local.gmt_offset)
