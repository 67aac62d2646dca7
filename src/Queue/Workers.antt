-- ===== src/Queue/Workers.antt =====
-- `Scheduler.allocation` of libexec/scheduler.py: how many workers a job that starts may use.
pub mod Bounds
use memcap.Prelude.{
  ℕ, ◌+◌, ◌-◌, ◌*◌, ◌/◌, min, max, String, Bool, true, false, not, ◌&&◌, Option, none, some, List,
  [], ◌∷◌, map, if◌then◌else◌, keep, sum_of,
}
use memcap.Values.{Field, missing, invalid, num, field_or, amount}
use memcap.Registry.{Job, is_running, is_resource}
use memcap.Sample.{Sample}
use memcap.Admission.{gib, is_adaptive}
use memcap.Admission.Advance.{faulty}
use memcap.Queue.{Settings, session_bucket, distinct}

abbrev pub workers_or : ℕ → Option ℕ → ℕ
workers_or d none = d
workers_or d (some w) = w

-- The workers that running finite jobs occupy.
unfoldable pub occupied : Settings → List Job → ℕ
occupied t jobs =
    sum_of (λ j. workers_or t.workers j.workers)
      (keep (λ j. is_running j && not (is_resource j.resource)) jobs)

-- What a running job has reserved and is not measured to use.
unfoldable pub unused_reservation : Job → ℕ
unused_reservation j =
    amount (field_or j.memory_kb j.reservation_kb)
    - (if j.measurement_complete then j.measured_kb else 0)

-- `max(1, (os.cpu_count() or 2) - 2)`
abbrev pub cpu_pool : Settings → ℕ
cpu_pool t = max 1 (t.cpus - 2)

-- The share of the processors.
unfoldable pub cpu_share : Settings → List Job → ℕ
unfolding occupied
cpu_share t jobs =
    let contenders = max 1 (distinct (map session_bucket jobs)) in
    max 1 (min (min t.workers (cpu_pool t / contenders)) (cpu_pool t - occupied t jobs))

-- The margin that starting keeps free: `min(self.headroom_kb, GIB // 2)`.
abbrev pub margin : Settings → ℕ
margin t = min t.headroom_kb (gib / 2)

-- The memory that is neither margin nor unused reservation.
unfoldable pub spare : Settings → List Job → ℕ → ℕ
unfolding unused_reservation
spare t jobs available_kb =
    available_kb - margin t - sum_of unused_reservation (keep is_running jobs)

-- A usable total of a sample: `available` of a sample that is neither faulty nor busy.
unfoldable pub usable_available : Option Sample → Option ℕ
usable_available none = none
usable_available (some s) =
    if faulty s.fault
    then none
    else if s.busy
    then none
    else elim s.available_kb [ missing ↦ none | invalid ↦ none | num n ↦ some n ]

-- `allocation(jobs, sample)`
unfoldable pub allocation : Settings → List Job → Option Sample → ℕ
unfolding cpu_share spare usable_available
allocation t jobs s =
    if is_adaptive t.policy
    then (elim (usable_available s) [
      | none ↦ cpu_share t jobs
      | some available_kb ↦ min (cpu_share t jobs) (max 1 (spare t jobs available_kb / gib))
    ])
    else t.workers
