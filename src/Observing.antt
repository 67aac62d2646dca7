-- ===== src/Observing.antt =====
-- `Scheduler.observe` and `Scheduler.observe_owned` of libexec/scheduler.py: what a sample changes in
-- the registry. The events for the analytics are output and left out.
pub mod Growth
pub mod Once
pub mod Raised
pub mod Persisted
mod Rows
use memcap.Prelude.{
  ℕ, ◌+◌, max, String, Bool, true, false, not, ◌&&◌, ◌||◌, Option, none, some, List, [], ◌∷◌,
  if◌then◌else◌, ltb, ◌==◌, map, Dict, lookup, string_eq, nat_eq, str_eq,
}
use memcap.Values.{missing, num, field_or, amount}
use memcap.Registry.{Job, is_running, footprint_members}
use memcap.Sample.{Sample}
use memcap.Admission.{Mode, is_adaptive}
use memcap.Admission.Advance.{Controller, advance, faulty}
use memcap.Estimates.{Row}
use memcap.Observing.Growth.{Learned, learn}
use memcap.Reservation.{reservation, is_complete, nonempty}
use memcap.Queue.Waiters.{measured_now}
use memcap.Observation.{ObservedSample, Observation, reconcile}

-- `data`, less the turns of the sessions (Queue/Turns).
pub record Data : Type 0 where
  pub jobs : List Job
  pub controller : Controller
  pub policy : Mode
  pub learned : Learned

-- `job.get("last_observation", job.get("start_monotonic", 0))`
abbrev pub last_seen : Job → ℕ
last_seen j = elim j.last_observation [
  | some t ↦ t
  | none ↦ elim j.start_monotonic [ none ↦ 0 | some t ↦ t ]
]

-- `job.get("learning_protocol") == 2`
abbrev pub is_protocol_2 : Job → Bool
is_protocol_2 j = elim j.learning_protocol [ none ↦ false | some n ↦ n == 2 ]

-- The measurement and the reservation that follows it.
unfoldable pub reserved : Bool → Sample → ℕ → ℕ → ℕ → Job → Job
reserved adaptive s measured mono wall j =
    let complete = not (faulty s.fault) && is_complete j s in
    let seen = record j {
      measurement_complete = complete;
      measured_kb = if complete then measured else j.measured_kb;
      measured_at = if complete then some wall else j.measured_at;
    } in
    let (job, reserve) = reservation seen s measured adaptive mono wall in
    record job { reservation_kb = num reserve }

-- The foreground group is gone and work remains: nothing lower is learned from it.
unfoldable pub detached : Job → Job
detached j =
    if not (nonempty j.members) && not (is_protocol_2 j)
    then record j {
      learning_incomplete = true;
      learning_detached_samples = j.learning_detached_samples + 1;
    }
    else j

-- `if not sample.get("fault")`: the lifetime peak, and growth that is learned at once.
unfoldable pub grown : Sample → ℕ → ℕ → Job → Learned → Job × Learned
unfolding learn
grown s measured wall j l =
    let peaked = record j {
      observed_peak_kb = num (max (amount (field_or 0 j.observed_peak_kb)) measured);
    } in
    if faulty s.fault
    then (j, l)
    else if not (str_eq j.estimate_key "") && ltb j.learned_peak_kb measured
    then (record peaked { learned_peak_kb = measured }, learn peaked measured wall l)
    else (peaked, l)

-- The counts at the end of the loop.
unfoldable pub counted : Sample → Job → Job
counted s j =
    let fails = faulty s.fault || not (is_complete j s) in
    let noted =
      if faulty s.fault
      then record j { learning_fault_samples = j.learning_fault_samples + 1 }
      else record j { learning_missing_samples = j.learning_missing_samples + 1 } in
    if is_protocol_2 j
    then (if fails then noted else j)
    else if fails
    then record noted { learning_incomplete = true }
    else record j { sample_count = j.sample_count + 1 }

-- The loop over one job: a running one with processes, and a sample newer than its last. `stamp` is
-- the time of the sample.
unfoldable pub observe_job : Bool → Sample → ℕ → ℕ → ℕ → Job → Learned → Job × Learned
observe_job adaptive s stamp mono wall j l =
    let measured = measured_now s j in
    let seen = record j { last_observation = some stamp } in
    let (job, learned) =
      grown s measured wall (detached (reserved adaptive s measured mono wall seen)) l in
    if is_running j && nonempty (footprint_members j) && ltb (last_seen j) stamp
    then (counted s job, learned)
    else (j, l)

-- The first loop.
unfoldable pub observe_jobs : Bool → Sample → ℕ → ℕ → ℕ → List Job → Learned → List Job × Learned
unfolding observe_job
observe_jobs adaptive s stamp mono wall [] l = ([], l)
observe_jobs adaptive s stamp mono wall (j ∷ jobs) l =
    let (job, learned) = observe_job adaptive s stamp mono wall j l in
    let (rest, after) = observe_jobs adaptive s stamp mono wall jobs learned in (job ∷ rest, after)

-- The estimate of a row, with 0 for a missing one.
abbrev pub estimate_or_0 : Row → ℕ
estimate_or_0 row = elim row.estimate_kb [ none ↦ 0 | some kb ↦ kb ]

unfoldable pub raise_to : ℕ → Row → Job → Job
raise_to source row j =
    if ltb j.memory_kb (estimate_or_0 row)
    then record j {
      memory_kb = estimate_or_0 row;
      estimate_source = source;
      estimate_complete_runs = num row.complete_runs;
    }
    else j

-- The second loop, over one job: an automatic waiter follows a higher estimate.
unfoldable pub raise_waiter : Dict String Row → Job → Job
unfolding raise_to
raise_waiter history j =
    if is_running j || not j.elastic then j else (elim (lookup j.estimate_key history) [
      | some row ↦ raise_to 3 row j
      | none ↦ elim (lookup j.estimate_family_key history) [
        | some row ↦ raise_to 4 row j
        | none ↦ j
      ]
    ])

-- `observe(data, sample)`: the controller of the scheduler, and the data.
unfoldable pub observe : Mode → Option Sample → ℕ → ℕ → Data → Controller × Data
unfolding observe_jobs raise_waiter
observe mode none mono wall d = (record d.controller { now = num mono }, d)
observe mode (some s) mono wall d =
    let controller = advance d.controller s mono in
    let stamp = amount (field_or mono s.monotonic) in
    let (jobs, learned) = observe_jobs (is_adaptive mode) s stamp mono wall d.jobs d.learned in
    if s.busy then (record d.controller { now = num mono }, d) else (
      controller,
      record {
        jobs = if is_adaptive mode then map (raise_waiter learned.estimates) jobs else jobs;
        controller = controller;
        policy = mode;
        learned = learned;
      },
    )

-- `{'began': job.get('start_monotonic', sample['at'])}`
abbrev pub fresh_observation : ℕ → Observation
fresh_observation began = record {
  began = some began;
  last = none;
  pending = [];
  pending_seen = 0;
  pending_resolved = 0;
  incomplete = false;
  reasons = [];
  samples = 0;
  peak_kb = 0;
  missing = 0;
  faults = 0;
  probe_ms = 0;
  usage_identities = [];
  complete = false;
}

abbrev pub observation_of : Job → ℕ → Observation
observation_of j at = elim j.owned_observation [
  | some o ↦ o
  | none ↦ fresh_observation (elim j.start_monotonic [ none ↦ at | some t ↦ t ])
]

-- `dict(footprints=..., monotonic=sample['at'], fault=not complete)`
abbrev pub footprint_sample : ObservedSample → Bool → Sample
footprint_sample x complete = record {
  monotonic = num x.at;
  boot_id = none;
  busy = false;
  fault = some (not complete);
  pressure = none;
  tracked_kb = missing;
  cap_kb = missing;
  available_kb = missing;
  tracked_pids = none;
  footprints = some (map (λ e. (e.0, num e.1)) x.footprints);
  swap_out_kbps = missing;
}

-- The job with the new observation.
unfoldable pub with_observation : ℕ → ObservedSample → Job → Job
with_observation wall x j =
    let (state, complete) = reconcile (observation_of j x.at) x (footprint_members j) in
    record j {
      owned_observation = some state;
      observed_peak_kb = num (max (amount (field_or 0 j.observed_peak_kb)) x.peak_kb);
      measurement_complete = complete;
      measured_kb = if complete then x.peak_kb else j.measured_kb;
      measured_at = if complete then some wall else j.measured_at;
    }

-- `observe_owned(data, job, sample)`: the job, and what was learned.
unfoldable pub observe_owned : Bool → ObservedSample → ℕ → ℕ → Job → Learned → Job × Learned
unfolding with_observation
observe_owned adaptive x mono wall j l =
    let seen = with_observation wall x j in
    let (job, reserve) =
      reservation seen (footprint_sample x seen.measurement_complete) x.peak_kb adaptive mono
        wall in
    let after = record job { reservation_kb = num (max x.peak_kb reserve) } in
    if ltb (amount (field_or 0 j.observed_peak_kb)) x.peak_kb
    then (after, learn after x.peak_kb wall l)
    else (after, l)
