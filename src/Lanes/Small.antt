-- ===== src/Lanes/Small.antt =====
-- Which jobs `lane` of libexec/scheduler_lanes.py calls small.
use memcap.Prelude.{◌*◌, ◌≤◌, ◌<◌, true, false, ◌≡◌, ◌↔◌, arith}
use memcap.Values.{amount, field_or, number}
use memcap.Registry.{Job, is_resource}
use memcap.Admission.{gib}
use memcap.Lanes.{lane, small, is_version}

-- A small job has complete evidence that it is small.
pub record IsSmall (j : Job) : Type 0 where
  pub old_demand : is_version 1 j.demand_version ≡ false
  pub new_lane : is_version 1 j.lane_version ≡ true
  pub finite : is_resource j.resource ≡ false
  pub candidate : j.small_candidate ≡ true
  pub automatic : j.elastic ≡ true
  pub exact : j.estimate_source ≡ 3
  pub runs : 3 ≤ amount j.estimate_complete_runs
  pub positive : 0 < j.memory_kb
  pub request : j.memory_kb ≤ gib
  pub reserved : number (field_or j.memory_kb j.reservation_kb) ≡ true
  pub reservation : amount (field_or j.memory_kb j.reservation_kb) ≤ gib
  pub measured : number (field_or 0 j.observed_peak_kb) ≡ true
  pub peak : 5 * amount (field_or 0 j.observed_peak_kb) ≤ 4 * gib

IsSmall-of-lane : (j : Job) → lane j ≡ small → IsSmall j
unfolding lane amount field_or number
IsSmall-of-lane j h = ground arith

lane-of-IsSmall : (j : Job) → IsSmall j → lane j ≡ small
unfolding lane amount field_or number
lane-of-IsSmall j h = ground arith

-- `lane` says `small` exactly of a finite automatic job of the lane protocol whose exact profile has
-- three complete runs, whose request and reservation fit a GiB, and whose observed peak fits a GiB
-- with a margin of a quarter.
pub lane-small_iff : (j : Job) → (lane j ≡ small) ↔ IsSmall j
lane-small_iff j = (IsSmall-of-lane j, lane-of-IsSmall j)
