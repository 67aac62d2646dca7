-- ===== src/Throughput.antt =====
-- libexec/throughput.py: requests of waiting jobs that change, and waits without progress.
pub mod Stalled
use memcap.Prelude.{
  ℕ, ◌-◌, ◌*◌, ◌/◌, ◌+◌, min, max, String, Bool, true, false, not, ◌&&◌, ◌||◌, Option, none, some,
  List, [], ◌∷◌, if◌then◌else◌, any, leb, ltb, str_eq,
}
use memcap.Values.{Field, missing, invalid, num}
use memcap.Registry.{Job, is_running, is_resource}
use memcap.Admission.{Decision, Detail, Reason, sampling, headroom}

abbrev pub is_sampling : Reason → Bool
is_sampling sampling = true
is_sampling other = false

abbrev pub is_headroom : Reason → Bool
is_headroom headroom = true
is_headroom other = false

-- `admission_retry_delay(poll, admission)`, in milliseconds; the reason is `none` before the first
-- decision.
unfoldable pub admission_retry_delay : ℕ → Option Reason → ℕ
admission_retry_delay poll none = poll
admission_retry_delay poll (some r) = if is_sampling r then min poll 500 else poll

-- `fixed_learning_scope(argv, resource)`; `base` is `Path(word).name`.
unfoldable pub fixed_learning_scope : (String → String) → List String → Bool → Bool
fixed_learning_scope base [] resource = false
fixed_learning_scope base (w ∷ []) resource = not resource && str_eq (base w) "tsc"
fixed_learning_scope base (w ∷ v ∷ rest) resource =
    not resource && (str_eq (base w) "tsc" || str_eq (base w) "go" && str_eq v "build")

-- The row of the estimates that belongs to exactly the new request.
pub record Exact : Type 0 where
  pub complete_runs : Field
  pub peaks_kb : List ℕ

-- `max(exact["peaks_kb"])`
unfoldable pub largest : List ℕ → ℕ
largest [] = 0
largest (x ∷ xs) = max x (largest xs)

abbrev pub has_three : Field → Bool
has_three missing = false
has_three invalid = false
has_three (num n) = leb 3 n

-- The evidence that may lower a waiting request.
unfoldable pub may_lower : Job → String → ℕ → Exact → Bool
unfolding largest
may_lower j key updated exact =
    j.elastic
    && not (str_eq key j.estimate_key)
    && has_three exact.complete_runs
    && (elim exact.peaks_kb [ [] ↦ false | x ∷ xs ↦ leb (largest (x ∷ xs) * 5) (updated * 4) ])

-- `pending_request(job, key, updated, exact)`
unfoldable pub pending_request : Job → String → ℕ → Exact → ℕ
unfolding may_lower
pending_request j key updated exact =
    if may_lower j key updated exact then updated else max j.memory_kb updated

-- `job["capacity_progress"]`
pub record Progress : Type 0 where
  pub since : ℕ
  pub last : ℕ
  pub max_available_kb : ℕ
  pub decision : Option Detail
  pub stalled : Bool

abbrev pub available_of : Option Detail → ℕ
available_of none = 0
available_of (some d) = d.available_kb

-- A finite managed job runs and can drain.
abbrev pub has_finite : List Job → Bool
has_finite jobs = any (λ r. is_running r && not (is_resource r.resource)) jobs

-- The start of the interval and the most that was available in it, before this decision.
unfoldable pub interval : Option Progress → ℕ → ℕ × ℕ
interval none now = (now, 0)
interval (some p) now = if ltb 90000 (now - p.last) then (now, 0) else (p.since, p.max_available_kb)

-- `capacity_progress(job, jobs, decision, now)`: what the job keeps, which is also the result.
unfoldable pub capacity_progress : Option Progress → List Job → Decision → ℕ → Option Progress
unfolding interval
capacity_progress state jobs d now =
    if is_sampling d.reason
    then state
    else if has_finite jobs || not (is_headroom d.reason)
    then none
    else let (since, most) = interval state now in
      some (record {
        since = since;
        last = now;
        max_available_kb = max most (available_of d.detail);
        decision = d.detail;
        stalled = leb 120000 (now - since);
      })
