-- ===== src/Reservation/Window.antt =====
-- The observation window of `Scheduler.reservation` (libexec/scheduler.py).
use memcap.Prelude.{
  ℕ, zero, suc, ◌-◌, ◌*◌, ◌≤◌, max, true, ◌≡◌, [], ◌∷◌, arith, All, length, last_n, drop, keep, leb,
  length-last_n-le,
}
use memcap.Values.{field_or, amount, num}
use memcap.Registry.{Job}
use memcap.Sample.{Sample}
use memcap.Admission.{second}
use memcap.Reservation.{
  Window, may_adjust, add_point, trim, window_peak, covers_minute, is_fresh, windowed, settle,
  reservation, quarter_more, peak_or, carried_peak, with_carried, floor_reserve,
}

All-drop : (P : ℕ × ℕ → Type 0) (n : ℕ) (w : Window) → All P w → All P (drop n w)
All-drop P zero w h = h
All-drop P (suc n) [] h = tt
All-drop P (suc n) (r ∷ w) h = All-drop P n w h.1

All-keep : (stamp : ℕ) (w : Window) → All (λ r. stamp ≤ r.0) (keep (λ r. leb stamp r.0) w)
unfolding keep
All-keep stamp [] = tt
All-keep stamp (r ∷ w) = ground (arith, All-keep stamp w)

-- A trimmed window is bounded and recent.
pub trim_bounds :
    (stamp : ℕ) (w : Window)
    → (length (trim stamp w) ≤ 128) × All (λ r. stamp - 60 * second ≤ r.0) (trim stamp w)
unfolding trim last_n
trim_bounds stamp w = (
  length-last_n-le 128 (keep (λ r. leb (stamp - 60 * second) r.0) w),
  All-drop _ _ _ (All-keep (stamp - 60 * second) w),
)

window_peak-covers : (w : Window) (m : ℕ) → window_peak w ≤ m → All (λ r. r.1 ≤ m) w
unfolding window_peak
window_peak-covers [] m h = tt
window_peak-covers (r ∷ w) m h = (omega arith, window_peak-covers w m (omega arith))

All-quarter_more :
    (m bound : ℕ) (w : Window)
    → quarter_more m ≤ bound
    → All (λ r. r.1 ≤ m) w
    → All (λ r. quarter_more r.1 ≤ bound) w
All-quarter_more m bound [] h a = tt
All-quarter_more m bound (r ∷ w) h a = (omega (arith, a.0), All-quarter_more m bound w h a.1)

module _ (j : Job) (s : Sample) (measured mono wall : ℕ) where
  abbrev pub after : Job × ℕ
  after = reservation j s measured true mono wall

  abbrev pub stamp_of : ℕ
  stamp_of = amount (field_or 0 s.monotonic)

  lifetime_peak : ℕ
  lifetime_peak = max measured (amount (field_or 0 j.observed_peak_kb))

  -- The job and the peak that the fresh branch hands to the window.
  started_job : Job
  unfolding lifetime_peak
  started_job = record (with_carried j (carried_peak j measured true)) {
    observed_peak_kb = num lifetime_peak;
  }

  first_peak : ℕ
  unfolding lifetime_peak
  first_peak = peak_or measured lifetime_peak (carried_peak j measured true)

  fresh_branch :
      may_adjust j s ≡ true
      → is_fresh mono stamp_of ≡ true
      → after ≡ (
        (windowed started_job stamp_of first_peak measured).0,
        max
            (settle started_job wall
              (floor_reserve j true)
              (windowed started_job stamp_of first_peak measured).1)
            measured,
      )
  unfolding reservation started_job first_peak
  fresh_branch a f = ground arith

  module _ (job : Job) (peak : ℕ) where
    -- The points before they are trimmed.
    points : Window
    points =
        (add_point job.reservation_window job.reservation_window_since stamp_of peak measured).0

    windowed-window :
        (windowed job stamp_of peak measured).0.reservation_window ≡ trim stamp_of points
    unfolding windowed points
    windowed-window = ground arith

    windowed-peak :
        covers_minute stamp_of (windowed job stamp_of peak measured).0.reservation_window_since
          ≡ true
        → (windowed job stamp_of peak measured).1
          ≡ window_peak (windowed job stamp_of peak measured).0.reservation_window
    unfolding windowed
    windowed-peak h = ground arith

  -- With a fresh and complete measurement in adaptive mode, the window that is kept has at most 128
  -- points, all of the last minute.
  pub reservation-window_bounds :
      may_adjust j s ≡ true
      → is_fresh mono stamp_of ≡ true
      → (length after.0.reservation_window ≤ 128)
        × All (λ r. stamp_of - 60 * second ≤ r.0) after.0.reservation_window
  reservation-window_bounds a f =
      rw (fresh_branch a f, windowed-window started_job first_peak)
        (trim_bounds stamp_of (points started_job first_peak))

  quarter_more-le-settle :
      (job : Job) (reserve peak : ℕ) → quarter_more peak ≤ settle job wall reserve peak
  unfolding settle
  quarter_more-le-settle job reserve peak = ground arith

  -- With a fresh and complete measurement in adaptive mode, once the window covers more than a
  -- minute, the reservation is a quarter above every point that the window keeps.
  pub reservation-covers_window :
      may_adjust j s ≡ true
      → is_fresh mono stamp_of ≡ true
      → covers_minute stamp_of after.0.reservation_window_since ≡ true
      → All (λ r. quarter_more r.1 ≤ after.1) after.0.reservation_window
  reservation-covers_window a f c =
      let branch = fresh_branch a f in let minute = rw branch at c in rw branch (covered minute)
    where
      job : Job
      job = started_job

      covered :
          covers_minute stamp_of
              (windowed job stamp_of first_peak measured).0.reservation_window_since
            ≡ true
          → All
              (λ r.
                quarter_more r.1
                ≤ max
                    (settle job wall
                      (floor_reserve j true)
                      (windowed job stamp_of first_peak measured).1)
                    measured)
              (windowed job stamp_of first_peak measured).0.reservation_window
      covered minute =
          All-quarter_more (windowed job stamp_of first_peak measured).1 _ _
            (omega (
              arith,
              quarter_more-le-settle job (floor_reserve j true)
                  (windowed job stamp_of first_peak measured).1,
            ))
            (window_peak-covers _ _ (omega (arith, windowed-peak job first_peak minute)))
