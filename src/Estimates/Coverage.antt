-- ===== src/Estimates/Coverage.antt =====
-- How many of the recent peaks an estimate of libexec/workload_estimates.py covers.
use memcap.Prelude.{
  ℕ, zero, suc, ◌-◌, ◌*◌, ◌/◌, ◌≤◌, ◌<◌, max, ◌≡◌, ◌≢◌, List, [], ◌∷◌, arith, length, last_n,
  length-drop, ltb, keep,
}
use memcap.Admission.{gib}
use memcap.Estimates.{
  ceil_quarter_more, percentile_index, sorted, at, last_of, reference_peak, estimate,
}
use memcap.Estimates.Sorting.{
  count_above, count_above-sorted, length-sorted, sorted-IsSorted, count_above-at,
}

-- The recent peaks that the estimate does not cover with the margin of a quarter.
abbrev pub uncovered : ℕ → List ℕ → ℕ
uncovered est xs = length (keep (λ x. ltb est (ceil_quarter_more x)) xs)

uncovered-le-count_above :
    (v est : ℕ) (xs : List ℕ) → ceil_quarter_more v ≤ est → uncovered est xs ≤ count_above v xs
unfolding keep
uncovered-le-count_above v est [] h = omega arith
uncovered-le-count_above v est (x ∷ xs) h = ground (arith, uncovered-le-count_above v est xs h)

above_last : (xs : List ℕ) → 0 < length xs → count_above (last_of (sorted xs)) xs ≡ 0
unfolding last_of
above_last xs h = omega (
  arith,
  length-sorted xs,
  count_above-sorted (at (sorted xs) (length (sorted xs) - 1)) xs,
  count_above-at (sorted xs) (length (sorted xs) - 1) (sorted-IsSorted xs)
      (omega (arith, length-sorted xs)),
)

above_percentile :
    (xs : List ℕ)
    → 0 < length xs
    → 20 * count_above (at (sorted xs) (percentile_index (length (sorted xs)))) xs ≤ length xs
above_percentile xs h =
    let i = percentile_index (length (sorted xs)) in
    omega (
      arith,
      length-sorted xs,
      count_above-sorted (at (sorted xs) i) xs,
      count_above-at (sorted xs) i (sorted-IsSorted xs) (omega (arith, length-sorted xs)),
    )

above_reference :
    (peaks : List ℕ) (runs : ℕ)
    → 0 < length (last_n 50 peaks)
    → (20 * count_above (reference_peak peaks runs) (last_n 50 peaks) ≤ length (last_n 50 peaks))
      × (runs < 20 → count_above (reference_peak peaks runs) (last_n 50 peaks) ≡ 0)
unfolding reference_peak
above_reference peaks runs h =
    ground (arith, above_last (last_n 50 peaks) h, above_percentile (last_n 50 peaks) h)

last_n-pos : (x : ℕ) (xs : List ℕ) → 0 < length (last_n 50 (x ∷ xs))
unfolding last_n
last_n-pos x xs = omega (arith, length-drop (length (x ∷ xs) - 50) (x ∷ xs))

estimate_learned :
    (prior p : ℕ) (ps : List ℕ) (r : ℕ)
    → estimate prior (p ∷ ps) (suc r)
      ≡ max (gib / 2) (ceil_quarter_more (reference_peak (p ∷ ps) (suc r)))
unfolding estimate
estimate_learned prior p ps r = ground arith

-- With peaks and at least one complete run, an estimate covers, a quarter above, all but a twentieth
-- of the last fifty peaks; all of them while fewer than twenty complete runs are known; and it is at
-- least half a GiB.
pub estimate_coverage :
    (prior : ℕ) (peaks : List ℕ) (runs : ℕ)
    → peaks ≢ []
    → 0 < runs
    → (20 * uncovered (estimate prior peaks runs) (last_n 50 peaks) ≤ length (last_n 50 peaks))
      × (runs < 20 → uncovered (estimate prior peaks runs) (last_n 50 peaks) ≡ 0)
      × (gib / 2 ≤ estimate prior peaks runs)
estimate_coverage prior [] runs ne pos = absurd (ground arith)
estimate_coverage prior (p ∷ ps) zero ne pos = absurd (omega arith)
estimate_coverage prior (p ∷ ps) (suc r) ne pos =
    let above = above_reference (p ∷ ps) (suc r) (last_n-pos p ps) in
    let below =
      uncovered-le-count_above (reference_peak (p ∷ ps) (suc r)) (estimate prior (p ∷ ps) (suc r))
        (last_n 50 (p ∷ ps)) (omega (arith, estimate_learned prior p ps r)) in
    (
      omega (arith, above.0, below),
      λ few. omega (arith, above.1 few, below),
      omega (arith, estimate_learned prior p ps r),
    )
