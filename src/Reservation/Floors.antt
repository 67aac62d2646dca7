-- ===== src/Reservation/Floors.antt =====
-- What `Scheduler.reservation` (libexec/scheduler.py) never gives up.
use memcap.Prelude.{ℕ, ◌-◌, ◌*◌, ◌/◌, ◌≤◌, ◌<◌, Bool, true, false, not, ◌||◌, ◌≡◌, arith}
use memcap.Registry.{Job}
use memcap.Sample.{Sample}
use memcap.Admission.{gib, second, time_or}
use memcap.Admission.Advance.{faulty}
use memcap.Reservation.{is_complete, established, is_uncertain, may_adjust, reservation}

module _ (j : Job) (s : Sample) (measured : ℕ) (adaptive : Bool) (mono wall : ℕ) where
  -- On every branch the reserve covers what the job is measured to use.
  pub measured-le-reservation : measured ≤ (reservation j s measured adaptive mono wall).1
  unfolding reservation
  measured-le-reservation = ground arith

  -- An explicit request, a job whose supervisor is gone and not recovered, and a sample that is
  -- faulty or incomplete never lower the reservation below what was established; the first two
  -- keep the request too.
  pub reservation_retained :
      may_adjust j s ≡ false
      → (established j ≤ (reservation j s measured adaptive mono wall).1)
        × ((not j.elastic || is_uncertain j) ≡ true
            → j.memory_kb ≤ (reservation j s measured adaptive mono wall).1)
  unfolding reservation
  reservation_retained h = ground arith

  adjustable :
      may_adjust j s ≡ true
      → (j.elastic ≡ true)
        × (is_uncertain j ≡ false)
        × (faulty s.fault ≡ false)
        × (is_complete j s ≡ true)
  unfolding may_adjust
  adjustable h = ground arith

  lowered :
      (reservation j s measured adaptive mono wall).1 < established j
      → (may_adjust j s ≡ true)
        × (30 * second ≤ wall - time_or wall j.started)
        × (gib / 2 ≤ (reservation j s measured adaptive mono wall).1)
  unfolding reservation
  lowered h = ground arith

  -- A reservation is lowered below what was established only for an automatic job that is not
  -- orphaned without a recovery, by a sample without a fault that measures it completely, thirty
  -- seconds after its start, and never below half a GiB.
  pub reservation_lowered :
      (reservation j s measured adaptive mono wall).1 < established j
      → (may_adjust j s ≡ true)
        × ((j.elastic ≡ true)
            × (is_uncertain j ≡ false)
            × (faulty s.fault ≡ false)
            × (is_complete j s ≡ true))
        × (30 * second ≤ wall - time_or wall j.started)
        × (gib / 2 ≤ (reservation j s measured adaptive mono wall).1)
  reservation_lowered h =
      let (adjusts, late, floor) = lowered h in (adjusts, adjustable adjusts, late, floor)
