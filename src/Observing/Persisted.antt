-- ===== src/Observing/Persisted.antt =====
-- `Scheduler.observe` of libexec/scheduler.py keeps a grown peak at once in the estimates.
use memcap.Prelude.{
  ℕ, ◌≤◌, ◌<◌, max, String, Bool, true, false, ◌&&◌, ◌||◌, ◌≡◌, ◌⊎◌, inl, inr, refl, ◌∙◌, none,
  some, [], ◌∷◌, ◌++◌, arith, ltb, last_n, Bool-cases, Dict, lookup, lookup-remove, remove,
  string_eq, str_eq, eq_iff,
}
use memcap.Registry.{Job, is_running, footprint_members}
use memcap.Values.{num, amount, field_or}
use memcap.Sample.{Sample}
use mathlib.Core.Path.{subst}
use memcap.Admission.Advance.{faulty}
use memcap.Estimates.{Row, record_run, ceil_quarter_more}
use memcap.Reservation.{reservation, nonempty}
use memcap.Queue.Waiters.{measured_now}
use memcap.Observing.Rows.{lookup-last_n, split_lem}
use memcap.Observing.Growth.{Learned, learned_keys, prior_of, row_or_prior, learn_estimates, learn}
use memcap.Observing.{last_seen, reserved, detached, grown, observe_job, estimate_or_0}

record_run_lem :
    (row : Row) (peak : ℕ) → ceil_quarter_more peak ≤ estimate_or_0 (record_run row peak false)
unfolding record_run
record_run_lem row peak = ground arith

-- The row of the key covers the peak.
abbrev pub IsCovered : String → ℕ → Dict String Row → Type 0
IsCovered k measured history =
    (row : Row) × (lookup k history ≡ some row) × (ceil_quarter_more measured ≤ estimate_or_0 row)

str_eq_flip : (a b : String) → str_eq a b ≡ false → str_eq b a ≡ false
str_eq_flip a b h = ground (arith, h, eq_iff a b, eq_iff b a)

module _ (prior measured : ℕ) where
  -- The row that is written for a key.
  abbrev written : String → Dict String Row → Row
  written k history = record_run (row_or_prior prior (lookup k history)) measured false

  one_key-IsCovered :
      (k : String) (history : Dict String Row)
      → IsCovered k measured (last_n 256 (learn_estimates (k ∷ []) prior measured history))
  unfolding learn_estimates lookup
  one_key-IsCovered k history =
      let r = written k history in
      let found =
        lookup-last_n k (remove k history) ((k, r) ∷ []) (omega arith)
          (ground (arith, lookup-remove k k history, (eq_iff k k).1 refl)) in
      (
        r,
        ground (arith, found, (eq_iff k k).1 refl),
        record_run_lem (row_or_prior prior (lookup k history)) measured,
      )

  two_keys-IsCovered :
      (k f : String) (history : Dict String Row)
      → str_eq f k ≡ false
      → IsCovered k measured (last_n 256 (learn_estimates (k ∷ f ∷ []) prior measured history))
  unfolding learn_estimates lookup
  two_keys-IsCovered k f history other =
      let r = written k history in
      let first = remove k history ++ (k, r) ∷ [] in
      let w = written f first in
      let split : learn_estimates (k ∷ f ∷ []) prior measured history
          ≡ remove f (remove k history) ++ ((k, r) ∷ (f, w) ∷ []) =
        split_lem k f history r w other (str_eq_flip f k other) in
      let gone : lookup k (remove f (remove k history)) ≡ none = ground (
        arith,
        lookup-remove f k (remove k history),
        lookup-remove k k history,
        (eq_iff k k).1 refl,
      ) in
      let found =
        lookup-last_n k (remove f (remove k history)) ((k, r) ∷ (f, w) ∷ []) (omega arith) gone in
      (
        r,
        ground (arith, split, found, (eq_iff k k).1 refl),
        record_run_lem (row_or_prior prior (lookup k history)) measured,
      )

learned_keys_lem :
    (j : Job)
    → str_eq j.estimate_key "" ≡ false
    → (learned_keys j ≡ j.estimate_key ∷ [])
      ⊎ ((learned_keys j ≡ j.estimate_key ∷ j.estimate_family_key ∷ [])
          × (str_eq j.estimate_family_key j.estimate_key ≡ false))
unfolding learned_keys
learned_keys_lem j named =
    elim (Bool-cases
      (str_eq j.estimate_family_key "" || str_eq j.estimate_family_key j.estimate_key)) [
        | inl alone ↦ inl (rw (named, alone) refl)
        | inr both ↦ inr (rw (named, both) refl, ground (arith, both))
      ]

learn_lem :
    (j : Job) (measured wall : ℕ) (l : Learned)
    → (learn j measured wall l).estimates
      ≡ last_n 256 (learn_estimates (learned_keys j) (prior_of j) measured l.estimates)
unfolding learn
learn_lem j measured wall l = refl

-- The peak is in the estimates under the job's key.
learn-IsCovered :
    (j : Job) (measured wall : ℕ) (l : Learned)
    → str_eq j.estimate_key "" ≡ false
    → IsCovered j.estimate_key measured (learn j measured wall l).estimates
learn-IsCovered j measured wall l named = elim (learned_keys_lem j named) [
  | inl one ↦
      rw (learn_lem j measured wall l)
        (rw one (one_key-IsCovered (prior_of j) measured j.estimate_key l.estimates))
  | inr (two, other) ↦ rw (learn_lem j measured wall l) (
      rw two (
        two_keys-IsCovered (prior_of j) measured j.estimate_key j.estimate_family_key l.estimates
          other))
]

-- The job has the same key and the same learned peak.
abbrev SameLearning : Job → Job → Type 0
SameLearning h j = (h.estimate_key ≡ j.estimate_key) × (h.learned_peak_kb ≡ j.learned_peak_kb)

module _ (s : Sample) (measured : ℕ) (adaptive : Bool) (mono wall : ℕ) where
  reservation-estimate_key :
      (j : Job) → (reservation j s measured adaptive mono wall).0.estimate_key ≡ j.estimate_key
  unfolding reservation
  reservation-estimate_key j = ground arith

  reservation-learned_peak_kb :
      (j : Job)
      → (reservation j s measured adaptive mono wall).0.learned_peak_kb ≡ j.learned_peak_kb
  unfolding reservation
  reservation-learned_peak_kb j = ground arith

reserved-SameLearning :
    (adaptive : Bool) (s : Sample) (measured mono wall : ℕ) (j : Job)
    → SameLearning (reserved adaptive s measured mono wall j) j
unfolding reserved
reserved-SameLearning adaptive s measured mono wall j = (
  reservation-estimate_key s measured adaptive mono wall _,
  reservation-learned_peak_kb s measured adaptive mono wall _,
)

detached-SameLearning : (j : Job) → SameLearning (detached j) j
unfolding detached
detached-SameLearning j = (ground arith, ground arith)

grown_lem :
    (s : Sample) (measured wall : ℕ) (j : Job) (l : Learned)
    → faulty s.fault ≡ false
    → str_eq j.estimate_key "" ≡ false
    → j.learned_peak_kb < measured
    → (grown s measured wall j l).1
      ≡ learn
          (record j {
            observed_peak_kb = num (max (amount (field_or 0 j.observed_peak_kb)) measured);
          })
          measured
          wall
          l
unfolding grown
grown_lem s measured wall j l sound named grows =
    let bigger : ltb j.learned_peak_kb measured ≡ true = ground (arith, grows) in
    rw (sound, named, bigger) refl

grown-IsCovered :
    (s : Sample) (measured wall : ℕ) (h j : Job) (l : Learned)
    → SameLearning h j
    → faulty s.fault ≡ false
    → str_eq j.estimate_key "" ≡ false
    → j.learned_peak_kb < measured
    → IsCovered j.estimate_key measured (grown s measured wall h l).1.estimates
grown-IsCovered s measured wall h j l (key, peak) sound named grows =
    let peaked = record h {
      observed_peak_kb = num (max (amount (field_or 0 h.observed_peak_kb)) measured);
    } in
    let named' : str_eq h.estimate_key "" ≡ false = rw key named in
    rw (grown_lem s measured wall h l sound named' (rw peak grows)) (
      subst (λ k. IsCovered k measured (learn peaked measured wall l).estimates) key
        (learn-IsCovered peaked measured wall l named'))

observe_job_lem :
    (adaptive : Bool) (s : Sample) (stamp mono wall : ℕ) (j : Job) (l : Learned)
    → (is_running j && nonempty (footprint_members j) && ltb (last_seen j) stamp) ≡ true
    → let seen = record j { last_observation = some stamp } in
      (observe_job adaptive s stamp mono wall j l).1
      ≡ (grown s
          (measured_now s j)
          wall
          (detached (reserved adaptive s (measured_now s j) mono wall seen))
          l).1
unfolding observe_job
observe_job_lem adaptive s stamp mono wall j l taken = rw taken refl

-- A newer sample without a fault that finds a running job above its learned peak puts that peak
-- into the estimate of the job's key at once, with a quarter more, whatever else the estimates hold.
pub observe_job-IsCovered :
    (adaptive : Bool) (s : Sample) (stamp mono wall : ℕ) (j : Job) (l : Learned)
    → (is_running j && nonempty (footprint_members j) && ltb (last_seen j) stamp) ≡ true
    → faulty s.fault ≡ false
    → str_eq j.estimate_key "" ≡ false
    → j.learned_peak_kb < measured_now s j
    → IsCovered j.estimate_key
        (measured_now s j)
        (observe_job adaptive s stamp mono wall j l).1.estimates
observe_job-IsCovered adaptive s stamp mono wall j l taken sound named grows =
    let measured = measured_now s j in
    let seen = record j { last_observation = some stamp } in
    let held = reserved adaptive s measured mono wall seen in
    let (key, peak) = reserved-SameLearning adaptive s measured mono wall seen in
    let (key', peak') = detached-SameLearning held in
    rw (observe_job_lem adaptive s stamp mono wall j l taken) (
      grown-IsCovered s measured wall (detached held) j l (key' ∙ key, peak' ∙ peak) sound named
        grows)
