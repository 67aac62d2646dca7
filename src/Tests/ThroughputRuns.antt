-- ===== src/Tests/ThroughputRuns.antt =====
-- libexec/throughput.py at concrete inputs.
use memcap.Prelude.{
  ℕ, ◌-◌, ◌+◌, ◌*◌, ◌≤◌, max, ◌≡◌, ◌≢◌, ◌⊎◌, refl, true, false, Option, some, List, [], ◌∷◌, arith,
  All, str_eq,
}
use memcap.Values.{num}
use memcap.Admission.{Decision, deny, sampling, headroom}
use memcap.Throughput.{
  Exact, Progress, pending_request, has_three, has_finite, capacity_progress, available_of,
}
use memcap.Throughput.Stalled.{pending_request_lem, capacity_progress-stalled}
use memcap.Tests.Fixtures.{waiter}

abbrev exact : Exact
exact = record { complete_runs = num 3; peaks_kb = 400000 ∷ 300000 ∷ 350000 ∷ [] }

-- The request of a GiB is lowered.
lowers : pending_request waiter "other" 524288 exact ≡ 524288
unfolding pending_request
lowers = refl

pending_request_lem_example :
    (waiter.memory_kb ≤ pending_request waiter "other" 524288 exact)
      × (524288 ≤ pending_request waiter "other" 524288 exact)
    ⊎ (pending_request waiter "other" 524288 exact ≡ 524288)
      × (waiter.elastic ≡ true)
      × (str_eq "other" waiter.estimate_key ≡ false)
      × (has_three exact.complete_runs ≡ true)
      × (exact.peaks_kb ≢ [])
      × All (λ x. x * 5 ≤ 524288 * 4) exact.peaks_kb
pending_request_lem_example = pending_request_lem waiter "other" 524288 exact

abbrev refusal : Decision
refusal = record (deny headroom) {
  detail = some (record {
    outstanding_kb = 0;
    available_kb = 500000;
    request_kb = 1048576;
    headroom_kb = 524288;
    headroom_deficit_kb = 1072864;
  });
}

abbrev before : Progress
before = record {
  since = 10000;
  last = 100000;
  max_available_kb = 400000;
  decision = refusal.detail;
  stalled = false;
}

abbrev after : Progress
after = record before { last = 140000; max_available_kb = 500000; stalled = true }

stalls : capacity_progress (some before) (waiter ∷ []) refusal 140000 ≡ some after
unfolding capacity_progress memcap.Prelude.any memcap.Registry.is_running
stalls = refl

capacity_progress-stalled_example :
    (refusal.reason ≡ sampling) × (some before ≡ some after)
    ⊎ (refusal.reason ≡ headroom)
      × (has_finite (waiter ∷ []) ≡ false)
      × (after.since + 120000 ≤ 140000)
      × ((old : Progress) × (some before ≡ some old)
          × (140000 - old.last ≤ 90000)
          × (after.since ≡ old.since)
          × (max old.max_available_kb (available_of refusal.detail) ≡ after.max_available_kb))
capacity_progress-stalled_example =
    capacity_progress-stalled (some before) (waiter ∷ []) refusal 140000 after stalls refl
