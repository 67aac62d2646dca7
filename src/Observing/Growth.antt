-- ===== src/Observing/Growth.antt =====
-- What `Scheduler.observe` and `Scheduler.observe_owned` of libexec/scheduler.py learn at once from a
-- peak that has grown.
use memcap.Prelude.{
  ℕ, String, false, ◌||◌, Option, none, some, List, [], ◌∷◌, ◌++◌, if◌then◌else◌, last_n, Dict,
  lookup, remove, string_eq, nat_eq, str_eq,
}
use memcap.Registry.{Job}
use memcap.Estimates.{Row, record_run}
use memcap.CompilerProfiles.{record_profile}
use memcap.CompilerProfiles.{History as Profiles}

-- What the registry has learned: `data["estimates"]` and `data["compiler_profiles"]`.
pub record Learned : Type 0 where
  pub estimates : Dict String Row
  pub compiler_profiles : Profiles

-- `{key, family} - {""}`. Python leaves the order of a set open; this is the order of the text.
unfoldable pub learned_keys : Job → List String
learned_keys j =
    let family =
      if str_eq j.estimate_family_key "" || str_eq j.estimate_family_key j.estimate_key
      then []
      else j.estimate_family_key ∷ [] in
    if str_eq j.estimate_key "" then family else j.estimate_key ∷ family

-- `job.get("learning_prior_kb", job["memory_kb"])`
abbrev pub prior_of : Job → ℕ
prior_of j = elim j.learning_prior_kb [ none ↦ j.memory_kb | some kb ↦ kb ]

-- `history.pop(key, {"estimate_kb": ...})`
abbrev pub row_or_prior : ℕ → Option Row → Row
row_or_prior prior none = record { estimate_kb = some prior; peaks_kb = []; complete_runs = 0 }
row_or_prior prior (some row) = row

-- The loop over the keys.
unfoldable pub learn_estimates : List String → ℕ → ℕ → Dict String Row → Dict String Row
learn_estimates [] prior measured history = history
learn_estimates (k ∷ ks) prior measured history = learn_estimates ks prior measured (
    remove k history ++ (k, record_run (row_or_prior prior (lookup k history)) measured false) ∷ [])

-- A peak that the job has now, in the estimates, of which the last 256 stay, and the profiles.
unfoldable pub learn : Job → ℕ → ℕ → Learned → Learned
unfolding learned_keys learn_estimates
learn j measured wall l = record {
  estimates = last_n 256 (learn_estimates (learned_keys j) (prior_of j) measured l.estimates);
  compiler_profiles = record_profile l.compiler_profiles j.compiler_profile measured false wall;
}
