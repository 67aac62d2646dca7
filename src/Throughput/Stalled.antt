-- ===== src/Throughput/Stalled.antt =====
-- When libexec/throughput.py lowers a waiting request, and when it calls a wait stalled.
use memcap.Prelude.{
  ℕ, ◌-◌, ◌+◌, ◌*◌, ◌≤◌, max, String, true, false, ◌≡◌, ◌≢◌, ◌⊎◌, inl, inr, Option, none, some,
  List, [], ◌∷◌, arith, All, Bool-cases, str_eq,
}
use memcap.Registry.{Job}
use memcap.Admission.{Decision, Reason, sampling, headroom}
use memcap.Throughput.{
  is_sampling, Exact, Progress, may_lower, largest, pending_request, has_finite, capacity_progress,
  has_three, available_of,
}

largest-All : (xs : List ℕ) (m : ℕ) → largest xs * 5 ≤ m → All (λ x. x * 5 ≤ m) xs
unfolding largest
largest-All [] m h = tt
largest-All (x ∷ xs) m h = (omega arith, largest-All xs m (omega arith))

lowered :
    (j : Job) (key : String) (updated : ℕ) (exact : Exact)
    → may_lower j key updated exact ≡ true
    → (j.elastic ≡ true)
      × (str_eq key j.estimate_key ≡ false)
      × (has_three exact.complete_runs ≡ true)
      × (exact.peaks_kb ≢ [])
      × (largest exact.peaks_kb * 5 ≤ updated * 4)
unfolding may_lower
lowered j key updated exact h = ground arith

-- A waiting request is lowered only to the updated estimate, only for an automatic job whose key has
-- changed, and only on three complete runs whose peaks the estimate all covers with a quarter to
-- spare; otherwise it covers both the old request and the updated estimate.
pub pending_request_lem :
    (j : Job) (key : String) (updated : ℕ) (exact : Exact)
    → (j.memory_kb ≤ pending_request j key updated exact)
        × (updated ≤ pending_request j key updated exact)
      ⊎ (pending_request j key updated exact ≡ updated)
        × (j.elastic ≡ true)
        × (str_eq key j.estimate_key ≡ false)
        × (has_three exact.complete_runs ≡ true)
        × (exact.peaks_kb ≢ [])
        × All (λ x. x * 5 ≤ updated * 4) exact.peaks_kb
unfolding pending_request
pending_request_lem j key updated exact = elim (Bool-cases (may_lower j key updated exact)) [
  | inr keep ↦ inl (ground (arith, keep), ground (arith, keep))
  | inl lower ↦
      let (e, k, r, p, m) = lowered j key updated exact lower in
      inr (ground (arith, lower), e, k, r, p, largest-All exact.peaks_kb (updated * 4) m)
]

sampling_of : (r : Reason) → is_sampling r ≡ true → r ≡ sampling
sampling_of r h = ground arith

-- A decision that calls a wait stalled either was made while the sampler was busy and says what the
-- job kept from before, or was refused for headroom while no finite managed job ran, at most ninety
-- seconds after such a decision before it, in an interval that began two minutes ago or earlier and
-- that goes on; the most that was available in it is still counted.
pub capacity_progress-stalled :
    (state : Option Progress) (jobs : List Job) (d : Decision) (now : ℕ) (p : Progress)
    → capacity_progress state jobs d now ≡ some p
    → p.stalled ≡ true
    → (d.reason ≡ sampling) × (state ≡ some p)
      ⊎ (d.reason ≡ headroom)
        × (has_finite jobs ≡ false)
        × (p.since + 120000 ≤ now)
        × ((old : Progress) × (state ≡ some old)
            × (now - old.last ≤ 90000)
            × (p.since ≡ old.since)
            × (max old.max_available_kb (available_of d.detail) ≡ p.max_available_kb))
unfolding capacity_progress
capacity_progress-stalled none jobs d now p h s = elim (Bool-cases (is_sampling d.reason)) [
  | inl busy ↦ inl (sampling_of d.reason busy, ground (arith, busy))
  | inr other ↦ absurd (ground (arith, other))
]
capacity_progress-stalled (some old) jobs d now p h s = elim (Bool-cases (is_sampling d.reason)) [
  | inl busy ↦ inl (sampling_of d.reason busy, ground (arith, busy))
  | inr other ↦ inr (ground (arith, other))
]
