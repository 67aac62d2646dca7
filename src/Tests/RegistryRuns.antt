-- ===== src/Tests/RegistryRuns.antt =====
-- Concrete refreshes and observations of the registry, and what is counted.
use memcap.Prelude.{
  ◌*◌, ℕ, ◌+◌, ◌-◌, ◌≤◌, ◌<◌, ◌≡◌, ◌⊎◌, refl, arith, max, String, Bool, true, false, Option, none,
  some, List, [], ◌∷◌, All, has, nat_eq,
}
use memcap.Values.{num, amount}
use memcap.Registry.{Job, running}
use memcap.Processes.{Row, Table, Try, ok, raised}
use memcap.Admission.{adaptive}
use memcap.Reservation.{established}
use memcap.Observation.{ObservedSample}
use memcap.Refresh.{refresh}
use memcap.Refresh.Attribution.{owners_of, children, assignment}
use memcap.Refresh.Attribution.Exclusive.{holders}
use memcap.Refresh.Kept.{has_id, is_alive, refresh-kept}
use memcap.Refresh.Attribution.Closed.{assignment_closed}
use memcap.Observing.{Data, observe, observe_job, observe_owned}
use memcap.Observing.Growth.{Learned}
use memcap.Observing.Once.{observe_again}
use memcap.Observing.Raised.{observe_owned_incomplete}
use memcap.Observing.Persisted.{IsCovered, observe_job-IsCovered}
use memcap.Metrics.{Clock, Cached, ℤ, negsuc, completion_fields, newer_cached_sample, phase_fields}
use memcap.Metrics.Blocked.{blocked, account_all, account_all-blocked}
use memcap.Metrics.Handoff.{IsHandoff, newer_cached_sample-IsHandoff}
use memcap.Tests.Fixtures.{healthy, runner, process, steady}

-- Process 61 runs the job of supervisor 60, and 63 runs another one below it.
abbrev nested_rows : Table
nested_rows =
    (60, process 1 60 "Mon 1" "memcap")
    ∷ (61, process 60 61 "Mon 2" "make")
    ∷ (62, process 61 62 "Mon 3" "cc")
    ∷ (63, process 62 63 "Mon 4" "make")
    ∷ (64, process 63 64 "Mon 5" "cc")
    ∷ []

abbrev inner : Job
inner = record runner { id = "cccc"; owner = 59; group = 63; members = (63, "Mon 4") ∷ [] }

attributed :
    assignment 501 nested_rows (runner ∷ inner ∷ []) ≡ (61, 0) ∷ (63, 1) ∷ (62, 0) ∷ (64, 1) ∷ []
unfolding assignment memcap.Registry.footprint_members memcap.Prelude.lookup memcap.Prelude.elem
    memcap.Prelude.keep has memcap.Prelude.put
attributed = refl

abbrev jobs_of : Try (List Job) → List Job
jobs_of (ok jobs) = jobs
jobs_of raised = []

abbrev refreshed_jobs : List Job
refreshed_jobs = jobs_of (refresh 501 nested_rows 9000 (runner ∷ inner ∷ []))

refreshed : refresh 501 nested_rows 9000 (runner ∷ inner ∷ []) ≡ ok refreshed_jobs
unfolding refresh memcap.Prelude.lookup memcap.Prelude.keep memcap.Recovery.recovered
    memcap.Recovery.check_group memcap.Processes.descendants memcap.Prelude.all memcap.Prelude.elem
    memcap.Registry.footprint_members
refreshed = refl

refresh-kept_example :
    All
      (λ j. is_alive 501 nested_rows j ≡ true → has_id j.id refreshed_jobs ≡ true)
      (runner ∷ inner ∷ [])
    × ((p : ℕ) → holders p refreshed_jobs ≤ 1)
refresh-kept_example =
    refresh-kept 501 nested_rows 9000 (runner ∷ inner ∷ []) refreshed_jobs refreshed

assignment_closed_example :
    All
      (λ c. has c (assignment 501 nested_rows (runner ∷ inner ∷ [])) ≡ true)
      (children 501 (owners_of (runner ∷ inner ∷ [])) nested_rows 61)
unfolding has assignment memcap.Registry.footprint_members memcap.Prelude.lookup memcap.Prelude.elem
    memcap.Prelude.keep memcap.Prelude.put
assignment_closed_example = assignment_closed 501 nested_rows (runner ∷ inner ∷ []) 61 refl

abbrev nothing_learned : Learned
nothing_learned = record { estimates = []; compiler_profiles = [] }

abbrev data_before : Data
data_before = record {
  jobs = runner ∷ [];
  controller = steady;
  policy = adaptive;
  learned = nothing_learned;
}

observe_again_example :
    (let after = (observe adaptive (some healthy) 101000 101000 data_before).1 in
      ((observe adaptive (some healthy) 102000 102000 after).1.jobs ≡ after.jobs)
      × ((observe adaptive (some healthy) 102000 102000 after).1.learned ≡ after.learned))
observe_again_example =
    observe_again adaptive healthy 100000 101000 101000 102000 102000 data_before refl

observe_job-IsCovered_example :
    IsCovered "k" 1048576
      (observe_job true healthy 100000 101000 101000 runner nothing_learned).1.estimates
unfolding memcap.Registry.is_running memcap.Registry.footprint_members
    memcap.Admission.Advance.faulty memcap.Queue.Waiters.measured_now memcap.Prelude.sum_of amount
    memcap.Prelude.get_or
observe_job-IsCovered_example =
    observe_job-IsCovered true healthy 100000 101000 101000 runner nothing_learned refl refl refl
      (omega arith)

-- A sample that did not read the process twice.
abbrev partial : ObservedSample
partial = record {
  complete = false;
  peak_kb = 4194304;
  identities = (61, "Mon 2") ∷ [];
  footprints = [];
  at = 100000;
  usage_identities = [];
  missing = 1;
  fault = 0;
  duration_ms = 5;
  reasons = [];
  births = [];
}

observe_owned_incomplete_example :
    (max (established runner) 4194304
      ≤ amount (observe_owned true partial 101000 101000 runner nothing_learned).0.reservation_kb)
    × ((observe_owned true partial 101000 101000 runner nothing_learned).0.measured_kb ≡ 0)
unfolding memcap.Observation.reconcile memcap.Observation.tally memcap.Registry.footprint_members
    memcap.Prelude.lookup
observe_owned_incomplete_example =
    observe_owned_incomplete true partial 101000 101000 runner nothing_learned refl

abbrev waiting_clock : Clock
waiting_clock = record { blocker_clock = some ("slots", 1000); blocked_ms = none }

account_all-blocked_example :
    (blocked (account_all waiting_clock (("paging", 1500) ∷ ("slots", 4000) ∷ [])) * 1000
      ≤ blocked waiting_clock * 1000 + (4000 - 1000))
    × (blocked waiting_clock * 1000 + (4000 - 1000)
        ≤ blocked (account_all waiting_clock (("paging", 1500) ∷ ("slots", 4000) ∷ [])) * 1000
          + 999 * 2)
unfolding memcap.Metrics.is_blocker memcap.Metrics.Blocked.IsOrdered
    memcap.Metrics.Blocked.last_time
account_all-blocked_example =
    account_all-blocked waiting_clock "slots" 1000 (("paging", 1500) ∷ ("slots", 4000) ∷ []) refl
      refl (refl, omega arith, (refl, omega arith, tt))

abbrev published : Cached
published = record { key = some "s"; sample = record healthy { monotonic = num 100500 } }

newer_cached_sample-IsHandoff_example :
    (newer_cached_sample (ok published) "s" healthy 101000 ≡ healthy)
    ⊎ ((c : Cached) × (ok published ≡ ok c)
        × (newer_cached_sample (ok published) "s" healthy 101000 ≡ c.sample)
        × IsHandoff c "s" healthy 101000)
newer_cached_sample-IsHandoff_example =
    newer_cached_sample-IsHandoff (ok published) "s" healthy 101000
