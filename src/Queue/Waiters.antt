-- ===== src/Queue/Waiters.antt =====
-- `Scheduler.admissible` and `Scheduler.next_waiter` of libexec/scheduler.py.
pub mod Choice
pub mod Fitting
pub mod Sorting
pub mod Turnwise
pub mod Chosen
use memcap.Prelude.{
  ℕ, ◌+◌, ◌-◌, ◌*◌, ◌/◌, ◌%◌, String, Bool, true, false, not, ◌&&◌, ◌||◌, Option, none, some, List,
  [], ◌∷◌, ◌++◌, map, ltb, leb, ◌==◌, if◌then◌else◌, keep, any, all, sum_of, length, Dict, lookup,
  get_or, put, keys, string_eq, nat_eq, str_eq,
}
use memcap.Values.{Field, num, amount}
use memcap.Registry.{Job, is_running, is_resource, footprint_members}
use memcap.Sample.{Sample}
use memcap.Admission.{
  Decision, Policy, Candidate, Mode, is_adaptive, second, time_or, decide, footprint,
}
use memcap.Admission.Advance.{Controller, faulty}
use memcap.Lanes.{Lane, lane, is_heavy, is_version}
use memcap.Reservation.{reservation, is_complete, footprints_of}
use memcap.Queue.{Settings, session_bucket}

-- What `admissible` reads beside the jobs: the settings, the controller, the sample and the clocks
-- (`mono` is `time.monotonic()` and `wall` is `time.time()`).
pub record Moment : Type 0 where
  pub settings : Settings
  pub controller : Controller
  pub sample : Sample
  pub mono : ℕ
  pub wall : ℕ

-- `sum(sample.get("footprints", {}).get(p, 0) for p in footprint_members(job))`
unfoldable pub measured_now : Sample → Job → ℕ
measured_now s j =
    sum_of (λ p. amount (get_or (num 0) p (footprints_of s.footprints)))
      (keys (footprint_members j))

-- The loop of `admissible` over one job: a running job gets a fresh reservation.
unfoldable pub refresh_reservation : Moment → Job → Job
unfolding measured_now
refresh_reservation m j =
    if is_running j
    then (let measured = measured_now m.sample j in
        let (job, reserve) =
          reservation j m.sample measured (is_adaptive m.settings.policy) m.mono m.wall in
        let reserved = record job { reservation_kb = num reserve } in
        if not (faulty m.sample.fault) && is_complete j m.sample
        then record reserved { measured_kb = measured; measured_at = some m.wall }
        else reserved)
    else j

abbrev pub policy_of : Settings → Policy
policy_of t = record {
  mode = t.policy;
  max_jobs = t.max_jobs;
  headroom_kb = t.headroom_kb;
  allowed_pressure = t.allowed_pressure;
}

-- `admissible(jobs, memory, resource, sample)`: the updated jobs and the decision.
unfoldable pub admissible : Moment → List Job → ℕ → String → List Job × Decision
unfolding refresh_reservation
admissible m jobs memory resource =
    let refreshed = map (refresh_reservation m) jobs in
    (
      refreshed,
      decide (policy_of m.settings) m.sample m.controller refreshed
          (record { memory_kb = num memory; resource = resource }),
    )

abbrev pub is_waiting : Job → Bool
is_waiting j = not (is_running j)

-- The loop that fills `fitting`, in the order of the waiters.
unfoldable pub fit_all :
    Moment → List Job → List Job → Dict String Bool → List Job × Dict String Bool
unfolding admissible
fit_all m jobs [] fitting = (jobs, fitting)
fit_all m jobs (w ∷ ws) fitting =
    let (jobs', decision) = admissible m jobs w.memory_kb w.resource in
    fit_all m jobs' ws (put w.id decision.allow fitting)

-- A sort key: the number of turns or of active jobs first.
abbrev pub Key : Type 0
Key = ℕ × ℕ

abbrev pub key_leb : Key → Key → Bool
key_leb (a, b) (c, d) = ltb a c || a == c && leb b d

-- `waiting.sort(key=...)`, which is stable
module _ (key : Job → Key) where
  unfoldable pub insert_by : Job → List Job → List Job
  insert_by w [] = w ∷ []
  insert_by w (v ∷ vs) =
      let rest = insert_by w vs in if key_leb (key w) (key v) then w ∷ v ∷ vs else v ∷ rest

  unfoldable pub sort_by : List Job → List Job
  unfolding insert_by
  sort_by [] = []
  sort_by (w ∷ ws) = insert_by w (sort_by ws)

abbrev pub Turns : Type 0
Turns = Dict String ℕ

-- `turns.get(self.session_bucket(j), 0)`
unfoldable pub turn_of : Turns → Job → ℕ
turn_of turns j = get_or 0 (session_bucket j) turns

-- The first order of the waiters: turns, then time of arrival.
abbrev pub arrival_key : Turns → ℕ → Job → Key
arrival_key turns now j = (turn_of turns j, time_or now j.enqueued)

-- `active.get(self.session_bucket(job), 0)`: the finite jobs that the session runs.
unfoldable pub active_of : List Job → Job → ℕ
active_of jobs j = length (
    keep
      (λ r.
        is_running r
        && not (is_resource r.resource)
        && str_eq (session_bucket r) (session_bucket j))
      jobs)

-- The order of the fair rotation: active finite jobs of the session, then its turns.
abbrev pub rotation_key : List Job → Turns → Job → Key
rotation_key jobs turns j = (active_of jobs j, turn_of turns j)

abbrev pub small_burst : ℕ
small_burst = 3

-- `self.lane(j) == "heavy"`
abbrev pub is_heavy_job : Job → Bool
is_heavy_job j = is_heavy (lane j)

-- Whether an aged heavy waiter that does not fit holds back all new admissions.
unfoldable pub holds_back : Mode → List Job → ℕ → (Job → Bool) → Job → Bool
holds_back policy jobs now fits j =
    let age = now - time_or now j.enqueued in
    leb (60 * second) age
    && not (fits j)
    && (not (is_adaptive policy) || ltb (age % (30 * second)) (6 * second))
    && any (λ r. is_running r && not (is_resource r.resource)) jobs

-- The waiters in the order in which they are tried.
unfoldable pub try_order : List Job → Turns → ℕ → List Job → List Job
try_order jobs turns streak waiting =
    let heavy = keep is_heavy_job waiting in
    let small = keep (λ j. not (is_heavy_job j)) waiting in
    let lanes = if leb small_burst streak then heavy ++ small else small ++ heavy in
    let ordered = if any (λ j. not (is_version 1 j.lane_version)) waiting then waiting else lanes in
    if all (λ j. is_version 2 j.fairness_version) waiting
    then sort_by (rotation_key jobs turns) ordered
    else ordered

-- `for job in ...: if test: return job["id"]`
unfoldable pub first_id : (Job → Bool) → List Job → Option String
first_id test [] = none
first_id test (j ∷ js) = if test j then some j.id else first_id test js

abbrev pub or_else {ℓ} : {A : Type ℓ} → Option A → Option A → Option A
or_else none o = o
or_else (some a) o = some a

-- The two loops of `next_waiter`, after `fitting` is known.
unfoldable pub choose : Mode → List Job → Turns → ℕ → ℕ → (Job → Bool) → List Job → Option String
choose policy jobs turns now streak fits waiting =
    or_else (first_id (holds_back policy jobs now fits) (keep is_heavy_job waiting))
      (first_id fits (try_order jobs turns streak waiting))

-- The waiters, sorted by turns and arrival.
unfoldable pub waiters : List Job → Turns → ℕ → List Job
waiters jobs turns now = sort_by (arrival_key turns now) (keep is_waiting jobs)

-- `next_waiter(jobs, resource, sample, turns, now, lane_streak)`: the updated jobs and the choice.
unfoldable pub next_waiter : Moment → List Job → Turns → Field → List Job × Option String
next_waiter m jobs turns streak =
    let waiting = waiters jobs turns m.wall in
    let (jobs', fitting) = fit_all m jobs waiting [] in
    (
      jobs',
      choose m.settings.policy jobs' turns m.wall (amount streak) (λ j. get_or false j.id fitting)
          waiting,
    )
