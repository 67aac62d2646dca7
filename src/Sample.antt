-- ===== src/Sample.antt =====
-- A host memory sample, as `sample_host` of libexec/scheduler.py publishes it.
use memcap.Prelude.{ℕ, String, Bool, Option, List, Dict}
use memcap.Values.{Field}

-- `fault`, `pressure`, `tracked_pids` and `footprints` are `none` where the sample has no such key.
pub record Sample : Type 0 where
  pub monotonic : Field
  pub boot_id : Option String
  pub busy : Bool
  pub fault : Option Bool
  pub pressure : Option ℕ
  pub tracked_kb : Field
  pub cap_kb : Field
  pub available_kb : Field
  pub tracked_pids : Option (List ℕ)
  pub footprints : Option (Dict ℕ Field)
  pub swap_out_kbps : Field
