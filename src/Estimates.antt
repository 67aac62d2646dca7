-- ===== src/Estimates.antt =====
-- libexec/workload_estimates.py: predictions of a workload's memory from its measured peaks.
pub mod Learning
mod Sorting
pub mod Coverage
use memcap.Prelude.{
  ℕ, zero, suc, ◌+◌, ◌-◌, ◌*◌, ◌/◌, min, max, Bool, true, false, Option, none, some, List, [], ◌∷◌,
  ◌++◌, ltb, leb, ◌==◌, if◌then◌else◌, length, last_n,
}
use memcap.Admission.{gib}

-- A row of the history: `row.get("estimate_kb", GIB)` reads 1 GiB where the key is missing.
pub record Row : Type 0 where
  pub estimate_kb : Option ℕ
  pub peaks_kb : List ℕ
  pub complete_runs : ℕ

abbrev pub empty_row : Row
empty_row = record { estimate_kb = none; peaks_kb = []; complete_runs = 0 }

-- `math.ceil(peak * 1.25)`
abbrev pub ceil_quarter_more : ℕ → ℕ
ceil_quarter_more peak = (peak * 5 + 3) / 4

-- `math.ceil(prior * 0.9)`
abbrev pub ceil_nine_tenths : ℕ → ℕ
ceil_nine_tenths prior = (prior * 9 + 9) / 10

-- `math.ceil(n * 0.95) - 1`
abbrev pub percentile_index : ℕ → ℕ
percentile_index n = (n * 19 + 19) / 20 - 1

-- `sorted(peaks)`
unfoldable pub insert_sorted : ℕ → List ℕ → List ℕ
insert_sorted x [] = x ∷ []
insert_sorted x (y ∷ ys) = let rest = insert_sorted x ys in if leb x y then x ∷ y ∷ ys else y ∷ rest

unfoldable pub sorted : List ℕ → List ℕ
unfolding insert_sorted
sorted [] = []
sorted (x ∷ xs) = insert_sorted x (sorted xs)

-- `peaks[i]`, of an index within the list
unfoldable pub at : List ℕ → ℕ → ℕ
at [] i = 0
at (x ∷ xs) zero = x
at (x ∷ xs) (suc i) = at xs i

-- `peaks[-1]`
unfoldable pub last_of : List ℕ → ℕ
unfolding at
last_of xs = at xs (length xs - 1)

abbrev pub is_empty {ℓ} : {A : Type ℓ} → List A → Bool
is_empty [] = true
is_empty (x ∷ xs) = false

-- The peak that `estimate` starts from: the largest of the last fifty, or their 95th percentile
-- once twenty complete runs are known.
unfoldable pub reference_peak : List ℕ → ℕ → ℕ
unfolding sorted at last_of last_n
reference_peak peaks complete_runs =
    let recent = sorted (last_n 50 peaks) in
    if ltb complete_runs 20 then last_of recent else at recent (percentile_index (length recent))

-- `estimate(prior_kb, peaks_kb, complete_runs)`. The peaks are nonnegative integers by their type.
unfoldable pub estimate : ℕ → List ℕ → ℕ → ℕ
unfolding reference_peak
estimate prior peaks complete_runs =
    if is_empty peaks
    then prior
    else if complete_runs == 0
    then prior
    else max (gib / 2) (ceil_quarter_more (reference_peak peaks complete_runs))

abbrev pub estimate_or_gib : Row → ℕ
estimate_or_gib r = elim r.estimate_kb [ none ↦ gib | some e ↦ e ]

-- `record(row, peak_kb, complete=...)`, of a peak that is a nonnegative integer
unfoldable pub record_run : Row → ℕ → Bool → Row
unfolding estimate last_n
record_run row peak false = record row {
  estimate_kb = some (max (estimate_or_gib row) (ceil_quarter_more peak));
}
record_run row peak true =
    let peaks = last_n 50 (row.peaks_kb ++ peak ∷ []) in
    let count = min 1000000 (row.complete_runs + 1) in
    let prior = estimate_or_gib row in
    record {
      estimate_kb = some (
          max (max (estimate prior peaks count) (ceil_quarter_more peak)) (ceil_nine_tenths prior));
      peaks_kb = peaks;
      complete_runs = count;
    }
