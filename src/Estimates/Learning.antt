-- ===== src/Estimates/Learning.antt =====
-- What `record` and `estimate` of libexec/workload_estimates.py guarantee of a prediction.
use memcap.Prelude.{
  ℕ, ◌*◌, ◌≤◌, Bool, true, false, ◌≡◌, [], ◌∷◌, ◌++◌, arith, length, length-last_n-le,
}
use memcap.Estimates.{Row, ceil_quarter_more, estimate_or_gib, record_run}

-- A run that was recorded is covered: the new estimate is at least a quarter above its peak, whether
-- the run was complete or not.
pub record_run-covers_peak :
    (row : Row) (peak : ℕ) (complete : Bool)
    → ceil_quarter_more peak ≤ estimate_or_gib (record_run row peak complete)
unfolding record_run
record_run-covers_peak row peak true = omega arith
record_run-covers_peak row peak false = omega arith

-- An incomplete run never lowers the estimate and leaves the peaks and the count of complete runs.
pub record_run_incomplete :
    (row : Row) (peak : ℕ)
    → (estimate_or_gib row ≤ estimate_or_gib (record_run row peak false))
      × ((record_run row peak false).peaks_kb ≡ row.peaks_kb)
      × ((record_run row peak false).complete_runs ≡ row.complete_runs)
unfolding record_run
record_run_incomplete row peak = ground arith

-- A complete run lowers the estimate by a tenth at most.
pub record_run_decay :
    (row : Row) (peak : ℕ)
    → 9 * estimate_or_gib row ≤ 10 * estimate_or_gib (record_run row peak true)
unfolding record_run
record_run_decay row peak = omega arith

-- At most fifty peaks are kept and the count of complete runs stops at a million.
pub record IsBounded (row : Row) : Type 0 where
  pub peaks : length row.peaks_kb ≤ 50
  pub runs : row.complete_runs ≤ 1000000

-- A run that is recorded, complete or not, keeps the history of a bounded row bounded.
pub record_run-IsBounded :
    (row : Row) (peak : ℕ) (complete : Bool)
    → IsBounded row
    → IsBounded (record_run row peak complete)
unfolding record_run
record_run-IsBounded row peak true h =
    omega (arith, length-last_n-le {0} 50 (row.peaks_kb ++ peak ∷ []))
record_run-IsBounded row peak false h = omega (arith, h.peaks, h.runs)
