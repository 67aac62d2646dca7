-- ===== src/Registry.antt =====
-- The records of the queue registry (`jobs.json`) that libexec/scheduler.py keeps, as `locked`
-- validates them, with the optional fields that the modelled code reads.
use memcap.Prelude.{ℕ, String, Bool, true, false, not, Option, none, some, List, str_eq, Dict}
use memcap.Values.{Field}
use memcap.Observation.{Observation}
use memcap.CompilerProfiles.{Profile}

pub data Status : Type 0 where
  waiting running : Status

-- The observation lease of an orphaned job: `job["recovery"]` of libexec/orphan_recovery.py.
pub record Lease : Type 0 where
  pub at : ℕ
  pub since : ℕ
  pub clear_since : ℕ
  pub members : Dict ℕ String
  pub commands : Dict ℕ String

-- Times are milliseconds and memory is KiB. A field that the code reads by `job.get(key, default)`
-- is an `Option` or a `Field` where the default depends on the place that reads it.
pub record Job : Type 0 where
  pub id : String
  pub owner : ℕ
  pub owner_start : String
  pub group : ℕ
  pub members : Dict ℕ String
  pub footprint_members : Option (Dict ℕ String)
  pub status : Status
  pub resource : String
  pub cwd : String
  pub session_key : String
  pub memory_kb : ℕ
  pub workers : Option ℕ
  pub reservation_kb : Field
  pub admission_peak_kb : Option ℕ
  pub observed_peak_kb : Field
  pub measured_kb : ℕ
  pub measurement_complete : Bool
  pub reservation_window : List (ℕ × ℕ)
  pub reservation_window_since : Option ℕ
  pub reservation_source : ℕ
  pub started : Option ℕ
  pub enqueued : Option ℕ
  pub elastic : Bool
  pub orphaned : Bool
  pub recovery_active : Bool
  pub small_candidate : Bool
  pub estimate_source : ℕ
  pub estimate_complete_runs : Field
  pub estimate_key : String
  pub demand_version : Option ℕ
  pub lane_version : Option ℕ
  pub fairness_version : Option ℕ
  pub cancel : Bool
  pub agent_owner : Option ℕ
  pub agent_start : Option String
  pub pinned : Bool
  pub claims : Dict ℕ String
  pub recovery : Option Lease
  pub observation_exclusions : Dict ℕ String
  pub start_monotonic : Option ℕ
  pub last_observation : Option ℕ
  pub learning_protocol : Option ℕ
  pub learning_incomplete : Bool
  pub learning_detached_samples : ℕ
  pub learning_fault_samples : ℕ
  pub learning_missing_samples : ℕ
  pub sample_count : ℕ
  pub learned_peak_kb : ℕ
  pub learning_prior_kb : Option ℕ
  pub measured_at : Option ℕ
  pub estimate_family_key : String
  pub owned_observation : Option Observation
  pub compiler_profile : Option Profile

-- `job["status"] == "running"`
unfoldable pub is_running : Job → Bool
is_running j = elim j.status [ waiting ↦ false | running ↦ true ]

-- The truth value of the text `job["resource"]`.
unfoldable pub is_resource : String → Bool
is_resource r = not (str_eq r "")

-- `footprint_members` of libexec/workload_members.py
unfoldable pub footprint_members : Job → Dict ℕ String
footprint_members j = elim j.footprint_members [ none ↦ j.members | some d ↦ d ]
