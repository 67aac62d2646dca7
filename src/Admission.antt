-- ===== src/Admission.antt =====
-- libexec/admission.py: the admission decision (`decide`). The controller is Admission/Advance.
pub mod Advance
pub mod Charge
pub mod Allowed
pub mod Budget
pub mod Recovery
use memcap.Prelude.{
  ℕ, ◌+◌, ◌-◌, ◌*◌, ◌/◌, min, max, String, Bool, true, false, not, ◌&&◌, Option, none, some, List,
  [], ◌∷◌, ltb, leb, if◌then◌else◌, keep, all, sum_of, length, elem, Dict, lookup, nat_eq, keys,
}
use memcap.Values.{Field, missing, invalid, num, number, field_or, amount}
use memcap.Registry.{Job, is_running, is_resource, footprint_members}
use memcap.Sample.{Sample}
use memcap.Admission.Advance.{Controller}

pub data Mode : Type 0 where
  strict adaptive other : Mode

pub record Policy : Type 0 where
  pub mode : Mode
  pub max_jobs : ℕ
  pub headroom_kb : ℕ
  pub allowed_pressure : List ℕ

pub record Candidate : Type 0 where
  pub memory_kb : Field
  pub resource : String

pub data Reason : Type 0 where
  available budget headroom slots pressure_or_measurement measurement : Reason
  sampling paging stabilizing startup : Reason

-- What `result.update` adds before the physical headroom is compared.
pub record Detail : Type 0 where
  pub outstanding_kb : ℕ
  pub available_kb : ℕ
  pub request_kb : ℕ
  pub headroom_kb : ℕ
  pub headroom_deficit_kb : ℕ

pub record Decision : Type 0 where
  pub allow : Bool
  pub reason : Reason
  pub reservation_kb : ℕ
  pub startup_credit : ℕ
  pub sampling_reason : ℕ
  pub detail : Option Detail

-- `deny(reason)`
abbrev pub deny : Reason → Decision
deny r = record {
  allow = false;
  reason = r;
  reservation_kb = 0;
  startup_credit = 0;
  sampling_reason = 0;
  detail = none;
}

-- A step of `decide` goes on with a value, or returns a decision. An exception that the code
-- catches returns `deny("measurement")`.
pub data Step {ℓ} (A : Type ℓ) : Type ℓ where
  pass : A → Step A
  stop : Decision → Step A

infixl 5 ◌>>=◌ ◌>>◌
abbrev pub ◌>>=◌ {ℓ κ} : {A : Type ℓ} {B : Type κ} → Step A → (A → Step B) → Step B
pass a >>= f = f a
stop d >>= f = stop d

abbrev pub ◌>>◌ {ℓ} : {B : Type ℓ} → Step (Unit {0}) → Step B → Step B
m >> k = m >>= λ _. k

-- `if test: return deny(reason)`
abbrev pub refuse_if : Bool → Decision → Step (Unit {0})
refuse_if true d = stop d
refuse_if false d = pass tt

-- `d[key]`, whose KeyError is caught as a failed measurement
abbrev pub present {ℓ} : {A : Type ℓ} → Option A → Step A
present none = stop (deny measurement)
present (some a) = pass a

-- A number of a sample that has been through `number`.
abbrev pub measured_number : Field → Step ℕ
measured_number missing = stop (deny measurement)
measured_number invalid = stop (deny measurement)
measured_number (num n) = pass n

-- `sample["footprints"].get(p, 0)`. A sample without footprints has no number for a member, which
-- is a KeyError in the code: both are a failed measurement.
unfoldable pub footprint : Option (Dict ℕ Field) → ℕ → Field
footprint none p = missing
footprint (some d) p = elim (lookup p d) [ none ↦ num 0 | some v ↦ v ]

-- `sum(values)` over the footprints of the members `ps`
unfoldable pub measured_of : Option (Dict ℕ Field) → List ℕ → ℕ
unfolding footprint
measured_of d ps = sum_of (λ p. amount (footprint d p)) ps

-- `sum(... for p in footprint_members(job) if p in counted)`
unfoldable pub counted_of : Option (Dict ℕ Field) → List ℕ → List ℕ → ℕ
unfolding measured_of
counted_of d counted ps = measured_of d (keep (λ p. elem p counted) ps)

-- The loop over the running jobs: the charged footprint and the unused reservations.
unfoldable pub charge_jobs : Option (Dict ℕ Field) → List ℕ → List Job → ℕ → ℕ → Step (ℕ × ℕ)
unfolding measured_of counted_of footprint number field_or amount
charge_jobs d counted [] accounted outstanding = pass (accounted, outstanding)
charge_jobs d counted (j ∷ js) accounted outstanding =
    let members = keys (footprint_members j) in
    let measured = measured_of d members in
    let held = field_or j.memory_kb j.reservation_kb in
    let reserve = max (amount held) measured in
    let rest =
      charge_jobs d counted js (accounted + (reserve - counted_of d counted members))
        (outstanding + (reserve - measured)) in
    if all (λ p. number (footprint d p)) members
    then (if number held then rest else stop (deny measurement))
    else stop (deny measurement)

abbrev pub gib : ℕ
gib = 1048576

abbrev pub second : ℕ
second = 1000

-- `controller.get(key, default)`
abbrev pub time_or : ℕ → Option ℕ → ℕ
time_or d none = d
time_or d (some t) = t

-- The branch of adaptive mode: the guards on freshness, paging, recovery and startup.
unfoldable pub adaptive_guards : Policy → Sample → Controller → Step ℕ
adaptive_guards p s c = do
  now ← measured_number c.now
  stamp ← measured_number s.monotonic
  refuse_if (ltb now stamp) (deny measurement)
  refuse_if (ltb (2 * second) (now - stamp)) (record (deny sampling) { sampling_reason = 2 })
  refuse_if (ltb now (time_or 0 c.cooldown_until)) (deny paging)
  refuse_if (ltb (now - time_or now c.healthy_since) (2 * second)) (deny stabilizing)
  refuse_if (ltb (now - time_or 0 c.last_start) (2 * second)) (deny startup)
  pass (min p.headroom_kb (gib / 2))

-- The headroom that the mode asks for.
unfoldable pub mode_headroom : Policy → Sample → Controller → ℕ → ℕ → ℕ → Step ℕ
unfolding adaptive_guards
mode_headroom p s c accounted memory cap = elim p.mode [
  | strict ↦ do refuse_if (ltb cap (accounted + memory)) (deny budget); pass p.headroom_kb
  | adaptive ↦ adaptive_guards p s c
  | other ↦ stop (deny pressure_or_measurement)
]

abbrev pub is_other : Mode → Bool
is_other other = true
is_other strict = false
is_other adaptive = false

abbrev pub is_adaptive : Mode → Bool
is_adaptive other = false
is_adaptive strict = false
is_adaptive adaptive = true

-- `mode not in (...) or type(memory) is not int or memory <= 0 or sample["fault"] or
-- sample["pressure"] not in policy["allowed_pressure"]`, and the request, which is there.
unfoldable pub request : Policy → Sample → Candidate → Step ℕ
request p s k = do
  refuse_if (is_other p.mode) (deny pressure_or_measurement)
  memory ← (elim k.memory_kb [
    | missing ↦ stop (deny measurement)
    | invalid ↦ stop (deny pressure_or_measurement)
    | num n ↦ pass n
  ])
  refuse_if (leb memory 0) (deny pressure_or_measurement)
  fault ← present s.fault
  refuse_if fault (deny pressure_or_measurement)
  pressure ← present s.pressure
  refuse_if (not (elem pressure p.allowed_pressure)) (deny pressure_or_measurement)
  pass memory

-- The finite jobs that run.
unfoldable pub finite_running : List Job → ℕ
finite_running js = length (keep (λ j. not (is_resource j.resource)) (keep is_running js))

-- The last comparison, and the two results that carry the details.
unfoldable pub compare_headroom : Mode → ℕ → ℕ → ℕ → ℕ → Decision
compare_headroom mode room outstanding memory available_kb =
    let detail : Option Detail = some (record {
      outstanding_kb = outstanding;
      available_kb = available_kb;
      request_kb = memory;
      headroom_kb = room;
      headroom_deficit_kb = room + outstanding + memory - available_kb;
    }) in
    if ltb available_kb (outstanding + memory + room)
    then record (deny headroom) { detail = detail }
    else record {
      allow = true;
      reason = available;
      reservation_kb = memory;
      startup_credit = if is_adaptive mode then 1 else 0;
      sampling_reason = 0;
      detail = detail;
    }

-- `candidate["memory_kb"]` is read first, and only a missing one fails there.
unfoldable pub is_absent : Field → Bool
is_absent missing = true
is_absent invalid = false
is_absent (num n) = false

unfoldable pub decide_steps : Policy → Sample → Controller → List Job → Candidate → Step Decision
unfolding is_absent
decide_steps p s c jobs k = do
  refuse_if (is_absent k.memory_kb) (deny measurement)
  refuse_if s.busy (record (deny sampling) { sampling_reason = 1 })
  memory ← request p s k
  tracked ← measured_number s.tracked_kb
  cap ← measured_number s.cap_kb
  available_kb ← measured_number s.available_kb
  refuse_if (not (is_resource k.resource) && leb p.max_jobs (finite_running jobs)) (deny slots)
  counted ← present s.tracked_pids
  (accounted, outstanding) ← charge_jobs s.footprints counted (keep is_running jobs) tracked 0
  room ← mode_headroom p s c accounted memory cap
  pass (compare_headroom p.mode room outstanding memory available_kb)

abbrev pub outcome : Step Decision → Decision
outcome (pass d) = d
outcome (stop d) = d

-- `decide(policy, sample, controller, jobs, candidate)`
unfoldable pub decide : Policy → Sample → Controller → List Job → Candidate → Decision
unfolding decide_steps
decide p s c jobs k = outcome (decide_steps p s c jobs k)
