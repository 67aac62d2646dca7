-- ===== src/Admission/Budget.antt =====
-- What an admission by `decide` (libexec/admission.py) means for the memory of the host.
use memcap.Prelude.{ℕ, ◌+◌, ◌≤◌, true, ◌≡◌, Option, List, [], ◌∷◌, arith, keep, all, sum_of, Dict}
use memcap.Values.{Field, amount}
use memcap.Registry.{Job, is_running}
use memcap.Sample.{Sample}
use memcap.Admission.Advance.{Controller}
use memcap.Admission.Charge.{promised, counted_part, counted_part-le, charge}
use memcap.Admission.Allowed.{Admitted-of-allow, allow_of_Admitted, ModeReady, pids_of}
use memcap.Admission.{Mode, strict, adaptive, other, Policy, Candidate, finite_running, decide}

module _ (d : Option (Dict ℕ Field)) (counted : List ℕ) where
  -- The promises are what is charged and what the host total counts already.
  promised-eq-charge_add_counted :
      (js : List Job)
      → sum_of (promised d) js ≡ charge d counted js + sum_of (counted_part d counted) js
  unfolding sum_of
  promised-eq-charge_add_counted [] = omega arith
  promised-eq-charge_add_counted (j ∷ js) =
      omega (arith, promised-eq-charge_add_counted js, counted_part-le d counted j)

-- In strict mode, where the host total counts at least the tracked footprints of the running jobs,
-- an admission keeps the sum of everything promised to running jobs, the new request included,
-- within the cap.
pub decide_strict_within_cap :
    (p : Policy) (s : Sample) (c : Controller) (jobs : List Job) (k : Candidate)
    → p.mode ≡ strict
    → sum_of (counted_part s.footprints (pids_of s.tracked_pids)) (keep is_running jobs)
      ≤ amount s.tracked_kb
    → (decide p s c jobs k).allow ≡ true
    → sum_of (promised s.footprints) (keep is_running jobs) + amount k.memory_kb ≤ amount s.cap_kb
decide_strict_within_cap p s c jobs k is_strict tracked allowed =
    let a = Admitted-of-allow p s c jobs k allowed in
    let m = rw is_strict at a.mode in
    omega (
      arith,
      m,
      promised-eq-charge_add_counted s.footprints (pids_of s.tracked_pids) (keep is_running jobs),
    )

-- Removing a job can only help.
finite_running-cons-le : (j : Job) (js : List Job) → finite_running js ≤ finite_running (j ∷ js)
unfolding finite_running keep
finite_running-cons-le j js = ground arith

ModeReady-cons :
    (m : Mode) (s : Sample) (c : Controller) (j : Job) (js : List Job) (memory : ℕ)
    → ModeReady m s c (keep is_running (j ∷ js)) memory
    → ModeReady m s c (keep is_running js) memory
unfolding keep sum_of
ModeReady-cons strict s c j js memory h = ground arith
ModeReady-cons adaptive s c j js memory h = h
ModeReady-cons other s c j js memory h = h

-- A request that is admitted beside a job in the registry is admitted without that job, whatever
-- its state: one more job never frees capacity.
pub decide-allow-cons :
    (p : Policy) (s : Sample) (c : Controller) (j : Job) (jobs : List Job) (k : Candidate)
    → (decide p s c (j ∷ jobs) k).allow ≡ true
    → (decide p s c jobs k).allow ≡ true
unfolding keep all sum_of
decide-allow-cons p s c j jobs k allowed =
    let a = Admitted-of-allow p s c (j ∷ jobs) k allowed in
    allow_of_Admitted p s c jobs k record {
      not_busy = a.not_busy;
      requested = a.requested;
      positive = a.positive;
      no_fault = a.no_fault;
      pressure = a.pressure;
      totals = a.totals;
      slot = ground (arith, a.slot, finite_running-cons-le j jobs);
      pids = a.pids;
      measurable = ground (arith, a.measurable);
      mode = ModeReady-cons p.mode s c j jobs (amount k.memory_kb) a.mode;
      fits = ground (arith, a.fits);
    }
