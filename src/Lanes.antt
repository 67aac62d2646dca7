-- ===== src/Lanes.antt =====
-- libexec/scheduler_lanes.py: which waiting jobs may go ahead of the heavy ones (`lane`).
pub mod Small
use memcap.Prelude.{
  ℕ, ◌*◌, Bool, true, false, not, ◌&&◌, ◌||◌, Option, none, some, ltb, leb, ◌==◌, if◌then◌else◌,
}
use memcap.Values.{Field, missing, invalid, num}
use memcap.Registry.{Job, is_resource}
use memcap.Admission.{gib}

pub data Lane : Type 0 where
  heavy small : Lane

-- `job.get(key) == version`
abbrev pub is_version : ℕ → Option ℕ → Bool
is_version v none = false
is_version v (some w) = w == v

-- `type(count) is int and count >= 3`, where a missing count is 0
abbrev pub at_least_three : Field → Bool
at_least_three missing = false
at_least_three invalid = false
at_least_three (num n) = leb 3 n

-- The test of one memory figure: four times the figure, scaled by `quarters`, within a GiB.
abbrev pub fits_quarters : ℕ → ℕ → Bool
fits_quarters quarters n = leb (n * quarters) (gib * 4)

-- A figure that is missing stands for `default`; one that is no nonnegative integer is heavy.
abbrev pub figure_fits : ℕ → ℕ → Field → Bool
figure_fits quarters default missing = fits_quarters quarters default
figure_fits quarters default invalid = false
figure_fits quarters default (num n) = fits_quarters quarters n

-- `lane(job)`
unfoldable pub lane : Job → Lane
lane j =
    if is_version 1 j.demand_version
      || not (is_version 1 j.lane_version)
      || is_resource j.resource
      || not j.small_candidate
      || not j.elastic
      || not (j.estimate_source == 3)
    then heavy
    else if not (at_least_three j.estimate_complete_runs)
    then heavy
    else if j.memory_kb == 0
    then heavy
    else if not (fits_quarters 4 j.memory_kb)
    then heavy
    else if not (figure_fits 4 j.memory_kb j.reservation_kb)
    then heavy
    else if not (figure_fits 5 0 j.observed_peak_kb)
    then heavy
    else small

abbrev pub is_heavy : Lane → Bool
is_heavy heavy = true
is_heavy small = false

-- `lane_code(job)`
unfoldable pub lane_code : Job → ℕ
lane_code j = if is_heavy (lane j) then 2 else 1
