-- ===== src/Admission/Allowed.antt =====
-- When `decide` (libexec/admission.py) admits a request: exactly when the conditions below hold.
use memcap.Prelude.{
  ◌↔◌, ◌≢◌, ℕ, ◌+◌, ◌-◌, ◌*◌, ◌/◌, ◌≤◌, ◌<◌, min, true, false, ◌&&◌, ◌≡◌, ◌⊎◌, inl, inr, Option,
  none, some, List, [], arith, keep, all, elem, Bool-cases,
}
use memcap.Values.{number, amount}
use memcap.Registry.{Job, is_running, is_resource}
use memcap.Sample.{Sample}
use memcap.Admission.Advance.{Controller}
use memcap.Admission.Charge.{is_measurable, charge, unused, charge_jobs-pass, charge_jobs_stop}
use memcap.Admission.{
  available, Mode, strict, adaptive, other, Policy, Candidate, gib, second, time_or, finite_running,
  adaptive_guards, mode_headroom, request, compare_headroom, decide,
}

abbrev pub IsPresent {ℓ} : {A : Type ℓ} → Option A → Type 0
IsPresent none = ⊥
IsPresent (some a) = Unit

abbrev pub pids_of : Option (List ℕ) → List ℕ
pids_of none = []
pids_of (some l) = l

abbrev pub PressureAllowed : Policy → Option ℕ → Type 0
PressureAllowed p none = ⊥
PressureAllowed p (some q) = elem q p.allowed_pressure ≡ true

-- Fresh sample, no paging cooldown, two healthy seconds, two seconds since the last start.
pub record Ready (s : Sample) (c : Controller) : Type 0 where
  pub clock : number c.now ≡ true
  pub stamped : number s.monotonic ≡ true
  pub not_ahead : amount s.monotonic ≤ amount c.now
  pub fresh : amount c.now ≤ amount s.monotonic + 2 * second
  pub recovered : time_or 0 c.cooldown_until ≤ amount c.now
  pub healthy : 2 * second ≤ amount c.now - time_or (amount c.now) c.healthy_since
  pub settled : 2 * second ≤ amount c.now - time_or 0 c.last_start

abbrev pub ModeReady : Mode → Sample → Controller → List Job → ℕ → Type 0
ModeReady strict s c active memory =
    amount s.tracked_kb + charge s.footprints (pids_of s.tracked_pids) active + memory
    ≤ amount s.cap_kb
ModeReady adaptive s c active memory = Ready s c
ModeReady other s c active memory = ⊥

abbrev pub room_of : Mode → ℕ → ℕ
room_of strict h = h
room_of adaptive h = min h (gib / 2)
room_of other h = h

pub record Admitted (p : Policy) (s : Sample) (c : Controller) (jobs : List Job) (k : Candidate)
    : Type 0 where
  pub not_busy : s.busy ≡ false
  pub requested : number k.memory_kb ≡ true
  pub positive : 0 < amount k.memory_kb
  pub no_fault : s.fault ≡ some false
  pub pressure : PressureAllowed p s.pressure
  pub totals : (number s.tracked_kb && number s.cap_kb && number s.available_kb) ≡ true
  pub slot : (is_resource k.resource ≡ true) ⊎ (finite_running jobs < p.max_jobs)
  pub pids : IsPresent s.tracked_pids
  pub measurable : all (is_measurable s.footprints) (keep is_running jobs) ≡ true
  pub mode : ModeReady p.mode s c (keep is_running jobs) (amount k.memory_kb)
  pub fits :
      unused s.footprints (keep is_running jobs) + amount k.memory_kb + room_of p.mode p.headroom_kb
      ≤ amount s.available_kb

module _ (p : Policy) (s : Sample) (c : Controller) (jobs : List Job) (k : Candidate) where
  pub Admitted-of-allow : (decide p s c jobs k).allow ≡ true → Admitted p s c jobs k
  unfolding decide request mode_headroom adaptive_guards compare_headroom number amount
  Admitted-of-allow h =
      elim (Bool-cases (all (is_measurable s.footprints) (keep is_running jobs))) [
        | inl ok ↦ ground (
          arith,
          charge_jobs-pass s.footprints (pids_of s.tracked_pids) (keep is_running jobs)
              (amount s.tracked_kb) 0,
        )
        | inr bad ↦ ground (
          arith,
          charge_jobs_stop s.footprints (pids_of s.tracked_pids) (keep is_running jobs)
              (amount s.tracked_kb) 0,
        )
      ]

  pub allow_of_Admitted : Admitted p s c jobs k → (decide p s c jobs k).allow ≡ true
  unfolding decide request mode_headroom adaptive_guards compare_headroom number amount
  allow_of_Admitted h = ground (
    arith,
    h.measurable,
    charge_jobs-pass s.footprints (pids_of s.tracked_pids) (keep is_running jobs)
        (amount s.tracked_kb) 0,
  )

  -- `decide` admits a request exactly when every condition of `Admitted` holds: the sample is
  -- neither busy nor faulty and its totals are numbers, the pressure is allowed, the request is
  -- positive, a slot is free or the request is a resource, every running job can be measured, the
  -- mode's own condition holds (the budget in strict mode, freshness and recovery in adaptive mode)
  -- and the available memory covers the unused reservations, the request and the headroom.
  pub decide-allow_iff : ((decide p s c jobs k).allow ≡ true) ↔ Admitted p s c jobs k
  decide-allow_iff = (Admitted-of-allow, allow_of_Admitted)

  -- The fields of the two results: an admission reserves the request and says so, and any other
  -- decision reserves nothing, gives no startup credit and names another reason than `available`.
  pub decide-fields :
      ((decide p s c jobs k).allow ≡ true)
        × ((decide p s c jobs k).reason ≡ available)
        × ((decide p s c jobs k).reservation_kb ≡ amount k.memory_kb)
      ⊎ ((decide p s c jobs k).allow ≡ false)
        × ((decide p s c jobs k).reason ≢ available)
        × ((decide p s c jobs k).reservation_kb ≡ 0)
        × ((decide p s c jobs k).startup_credit ≡ 0)
  unfolding decide request mode_headroom adaptive_guards compare_headroom amount
  decide-fields = elim (Bool-cases (all (is_measurable s.footprints) (keep is_running jobs))) [
    | inl ok ↦ ground (
      arith,
      charge_jobs-pass s.footprints (pids_of s.tracked_pids) (keep is_running jobs)
          (amount s.tracked_kb) 0,
    )
    | inr bad ↦ ground (
      arith,
      charge_jobs_stop s.footprints (pids_of s.tracked_pids) (keep is_running jobs)
          (amount s.tracked_kb) 0,
    )
  ]
