-- ===== src/Tests/MemoryRuns.antt =====
-- libexec/workload_estimates.py, libexec/scheduler_lanes.py and `Scheduler.reservation` at concrete
-- inputs.
use memcap.Prelude.{
  ℕ, ◌-◌, ◌*◌, ◌/◌, ◌≤◌, ◌<◌, ◌≡◌, refl, true, false, some, [], ◌∷◌, arith, All, length, last_n,
  all, has, nat_eq, string_eq,
}
use memcap.Values.{amount, field_or}
use memcap.Registry.{Job, is_resource, footprint_members}
use memcap.Admission.{gib, second, time_or}
use memcap.Estimates.{Row, estimate}
use memcap.Estimates.Learning.{IsBounded}
use memcap.Estimates.Coverage.{uncovered, estimate_coverage}
use memcap.Lanes.{lane, small}
use memcap.Admission.Advance.{faulty}
use memcap.Reservation.{
  is_uncertain, is_complete, reservation, may_adjust, established, covers_minute, quarter_more,
  is_complete, add_point,
}
use memcap.Reservation.Floors.{reservation_lowered}
use memcap.Reservation.Window.{after, stamp_of, reservation-covers_window}
use memcap.Tests.Fixtures.{waiter, runner, healthy}

abbrev learned : Row
learned = record { estimate_kb = some 1000000; peaks_kb = 700000 ∷ 800000 ∷ []; complete_runs = 2 }

learned-IsBounded : IsBounded learned
learned-IsBounded = record { peaks = omega arith; runs = omega arith }

estimate_coverage_example :
    (20 * uncovered (estimate 0 (700000 ∷ 800000 ∷ []) 2) (last_n 50 (700000 ∷ 800000 ∷ []))
      ≤ length (last_n {A = ℕ} 50 (700000 ∷ 800000 ∷ [])))
    × (2 < 20
        → uncovered (estimate 0 (700000 ∷ 800000 ∷ []) 2) (last_n 50 (700000 ∷ 800000 ∷ [])) ≡ 0)
    × (gib / 2 ≤ estimate 0 (700000 ∷ 800000 ∷ []) 2)
estimate_coverage_example =
    estimate_coverage 0 (700000 ∷ 800000 ∷ []) 2 (λ e. ground (arith, e)) (omega arith)

-- The waiter is a small job.
waiter-small : lane waiter ≡ small
unfolding lane is_resource
waiter-small = refl

-- A job without a supervisor keeps what was established.
abbrev lost : Job
lost = record runner { orphaned = true }

lost_keeps : may_adjust lost healthy ≡ false
unfolding may_adjust
lost_keeps = refl

-- In strict mode a long-running job of 2 GiB that uses one is lowered to a quarter above one.
runner_lowered : (reservation runner healthy 1048576 false 101000 101000).1 < established runner
unfolding reservation footprint_members amount memcap.Admission.Advance.faulty field_or all has
runner_lowered = omega arith

reservation_lowered_example :
    (may_adjust runner healthy ≡ true)
    × ((runner.elastic ≡ true)
        × (is_uncertain runner ≡ false)
        × (faulty healthy.fault ≡ false)
        × (is_complete runner healthy ≡ true))
    × (30 * second ≤ 101000 - time_or 101000 runner.started)
    × (gib / 2 ≤ (reservation runner healthy 1048576 false 101000 101000).1)
reservation_lowered_example =
    reservation_lowered runner healthy 1048576 false 101000 101000 runner_lowered

-- A job observed since 30 s, at a sample taken at 100 s.
abbrev observed : Job
observed = record runner {
  reservation_window = (50000, 1500000) ∷ (99000, 1100000) ∷ [];
  reservation_window_since = some 30000;
}

observed_adjusts : may_adjust observed healthy ≡ true
unfolding may_adjust is_complete all footprint_members has memcap.Admission.Advance.faulty
observed_adjusts = refl

observed_minute :
    covers_minute
      (stamp_of observed healthy 1048576 101000 101000)
      (after observed healthy 1048576 101000 101000).0.reservation_window_since
    ≡ true
unfolding reservation amount field_or footprint_members memcap.Admission.Advance.faulty all has
    add_point
observed_minute = refl

reservation-covers_window_example :
    All
      (λ r. quarter_more r.1 ≤ (after observed healthy 1048576 101000 101000).1)
      (after observed healthy 1048576 101000 101000).0.reservation_window
unfolding amount field_or
reservation-covers_window_example =
    reservation-covers_window observed healthy 1048576 101000 101000 observed_adjusts refl
      observed_minute
