-- ===== src/Admission/Charge.antt =====
-- What the loop of `decide` (libexec/admission.py) charges for the running jobs.
use memcap.Prelude.{
  ℕ, ◌+◌, ◌-◌, ◌≤◌, max, Bool, true, false, ◌≡◌, Option, List, [], ◌∷◌, arith, keep, all, sum_of,
  Dict, keys, ◌&&◌,
}
use memcap.Values.{Field, number, field_or, amount}
use memcap.Registry.{Job, footprint_members}
use memcap.Admission.{
  pass, stop, deny, measurement, footprint, measured_of, counted_of, charge_jobs,
}

-- The footprint that is measured for a job, and the part of it that the host total counts already.
abbrev pub measured : Option (Dict ℕ Field) → Job → ℕ
measured d j = measured_of d (keys (footprint_members j))

abbrev pub counted_part : Option (Dict ℕ Field) → List ℕ → Job → ℕ
counted_part d counted j = counted_of d counted (keys (footprint_members j))

-- What a running job is promised: its reservation, or what it uses if that is more.
abbrev pub promised : Option (Dict ℕ Field) → Job → ℕ
promised d j = max (amount (field_or j.memory_kb j.reservation_kb)) (measured d j)

-- Each number that the loop reads for a job is a number.
abbrev pub is_measurable : Option (Dict ℕ Field) → Job → Bool
is_measurable d j =
    all (λ p. number (footprint d p)) (keys (footprint_members j))
    && number (field_or j.memory_kb j.reservation_kb)

sum_of-keep-le : (f : ℕ → ℕ) (p : ℕ → Bool) (xs : List ℕ) → sum_of f (keep p xs) ≤ sum_of f xs
unfolding sum_of keep
sum_of-keep-le f p [] = omega arith
sum_of-keep-le f p (x ∷ xs) = ground (arith, sum_of-keep-le f p xs)

pub counted_part-le :
    (d : Option (Dict ℕ Field)) (counted : List ℕ) (j : Job)
    → counted_part d counted j ≤ measured d j
unfolding counted_of measured_of
counted_part-le d counted j = sum_of-keep-le _ _ _

-- The sums that the loop computes, as an independent description.
abbrev pub charge : Option (Dict ℕ Field) → List ℕ → List Job → ℕ
charge d counted js = sum_of (λ j. promised d j - counted_part d counted j) js

abbrev pub unused : Option (Dict ℕ Field) → List Job → ℕ
unused d js = sum_of (λ j. promised d j - measured d j) js

pub charge_jobs-pass :
    (d : Option (Dict ℕ Field)) (counted : List ℕ) (js : List Job) (a o : ℕ)
    → all (is_measurable d) js ≡ true
    → charge_jobs d counted js a o ≡ pass (a + charge d counted js, o + unused d js)
unfolding charge_jobs all sum_of
charge_jobs-pass d counted [] a o h = ground arith
charge_jobs-pass d counted (j ∷ js) a o h = ground (
  arith,
  charge_jobs-pass d counted js (a + (promised d j - counted_part d counted j))
      (o + (promised d j - measured d j)),
)

pub charge_jobs_stop :
    (d : Option (Dict ℕ Field)) (counted : List ℕ) (js : List Job) (a o : ℕ)
    → all (is_measurable d) js ≡ false
    → charge_jobs d counted js a o ≡ stop (deny measurement)
unfolding charge_jobs all
charge_jobs_stop d counted [] a o h = absurd (ground arith)
charge_jobs_stop d counted (j ∷ js) a o h = ground (
  arith,
  charge_jobs_stop d counted js (a + (promised d j - counted_part d counted j))
      (o + (promised d j - measured d j)),
)
