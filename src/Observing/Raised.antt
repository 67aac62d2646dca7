-- ===== src/Observing/Raised.antt =====
-- `Scheduler.observe_owned` of libexec/scheduler.py never lowers a reservation on incomplete evidence.
use memcap.Prelude.{ℕ, ◌≤◌, max, Bool, false, ◌≡◌, refl, arith}
use memcap.Values.{amount}
use memcap.Registry.{Job, footprint_members}
use memcap.Admission.Advance.{faulty}
use memcap.Reservation.{established, may_adjust, reservation}
use memcap.Reservation.Floors.{reservation_retained}
use memcap.Observation.{ObservedSample, reconcile}
use memcap.Observing.Growth.{Learned}
use memcap.Observing.{observation_of, footprint_sample, with_observation, observe_owned}

module _ (adaptive : Bool) (x : ObservedSample) (mono wall : ℕ) (j : Job) (l : Learned) where
  -- The job after the observation.
  abbrev seen : Job
  seen = with_observation wall x j

  with_observation_lem :
      (reconcile (observation_of j x.at) x (footprint_members j)).1 ≡ false
      → (seen.measurement_complete ≡ false)
        × (seen.measured_kb ≡ j.measured_kb)
        × (established seen ≡ established j)
  unfolding with_observation
  with_observation_lem h = (h, ground (arith, h), refl)

  incomplete_lem : may_adjust seen (footprint_sample x false) ≡ false
  unfolding may_adjust faulty
  incomplete_lem = ground arith

  reservation-measured_kb :
      (h : Job) (s : _)
      → (reservation h s x.peak_kb adaptive mono wall).0.measured_kb ≡ h.measured_kb
  unfolding reservation
  reservation-measured_kb h s = ground arith

  -- An observation that `reconcile` does not call complete only raises the reservation: it stays at
  -- least what was established and at least the observed peak, and the last complete measurement
  -- stays as it was.
  pub observe_owned_incomplete :
      (reconcile (observation_of j x.at) x (footprint_members j)).1 ≡ false
      → (max (established j) x.peak_kb
          ≤ amount (observe_owned adaptive x mono wall j l).0.reservation_kb)
        × ((observe_owned adaptive x mono wall j l).0.measured_kb ≡ j.measured_kb)
  unfolding observe_owned amount
  observe_owned_incomplete h =
      let (missing, same, floor) = with_observation_lem h in
      let s = footprint_sample x seen.measurement_complete in
      let kept =
        reservation_retained seen (footprint_sample x false) x.peak_kb adaptive mono wall
          incomplete_lem in
      let held = reservation-measured_kb seen s in
      (ground (arith, missing, floor, kept.0), ground (arith, same, held))
