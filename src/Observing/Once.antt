-- ===== src/Observing/Once.antt =====
-- `Scheduler.observe` of libexec/scheduler.py counts a sample once.
use memcap.Prelude.{
  ℕ, String, Bool, true, false, ◌&&◌, ◌≡◌, inl, inr, refl, ap, some, List, [], ◌∷◌, arith, map, ltb,
  Bool-cases, Dict, string_eq,
}
use memcap.Values.{num, field_or, amount}
use memcap.Registry.{Job, is_running, footprint_members}
use memcap.Sample.{Sample}
use memcap.Admission.{Mode, is_adaptive}
use memcap.Estimates.{Row}
use memcap.Reservation.{reservation, nonempty}
use memcap.Queue.Waiters.{measured_now}
use memcap.Observing.Growth.{Learned}
use memcap.Observing.{
  Data, last_seen, reserved, detached, grown, counted, observe_job, observe_jobs, raise_to,
  raise_waiter, observe,
}

raise_waiter_running :
    (history : Dict String Row) (j : Job) → is_running j ≡ true → raise_waiter history j ≡ j
unfolding raise_waiter
raise_waiter_running history j runs = ground (arith, runs)

raise_waiter_waiting :
    (history : Dict String Row) (j : Job)
    → is_running j ≡ false
    → is_running (raise_waiter history j) ≡ false
unfolding raise_waiter is_running
raise_waiter_waiting history j waits = ground (arith, waits)

module _ (adaptive : Bool) (s : Sample) where
  reservation-last_observation :
      (measured mono wall : ℕ) (j : Job)
      → (reservation j s measured adaptive mono wall).0.last_observation ≡ j.last_observation
  unfolding reservation
  reservation-last_observation measured mono wall j = ground arith

  reserved-last_observation :
      (measured mono wall : ℕ) (j : Job)
      → (reserved adaptive s measured mono wall j).last_observation ≡ j.last_observation
  unfolding reserved
  reserved-last_observation measured mono wall j = reservation-last_observation measured mono wall _

  detached-last_observation : (j : Job) → (detached j).last_observation ≡ j.last_observation
  unfolding detached
  detached-last_observation j = ground arith

  grown-last_observation :
      (measured wall : ℕ) (j : Job) (l : Learned)
      → (grown s measured wall j l).0.last_observation ≡ j.last_observation
  unfolding grown
  grown-last_observation measured wall j l = ground arith

  counted-last_observation : (j : Job) → (counted s j).last_observation ≡ j.last_observation
  unfolding counted
  counted-last_observation j = ground arith

  -- Whether the loop body runs.
  abbrev takes : ℕ → Job → Bool
  takes stamp j = is_running j && nonempty (footprint_members j) && ltb (last_seen j) stamp

  observe_job_skipped :
      (stamp mono wall : ℕ) (j : Job) (l : Learned)
      → takes stamp j ≡ false
      → observe_job adaptive s stamp mono wall j l ≡ (j, l)
  unfolding observe_job
  observe_job_skipped stamp mono wall j l h = ground (arith, h)

  observe_job_taken :
      (stamp mono wall : ℕ) (j : Job) (l : Learned)
      → takes stamp j ≡ true
      → (observe_job adaptive s stamp mono wall j l).0.last_observation ≡ some stamp
  unfolding observe_job
  observe_job_taken stamp mono wall j l h =
      let seen = record j { last_observation = some stamp } in
      let measured = measured_now s j in
      let held = reserved adaptive s measured mono wall seen in
      let job = grown s measured wall (detached held) l in
      ground (
        arith,
        h,
        counted-last_observation job.0,
        grown-last_observation measured wall (detached held) l,
        detached-last_observation held,
        reserved-last_observation measured mono wall seen,
      )

  takes-observe_job :
      (stamp mono wall : ℕ) (j : Job) (l : Learned)
      → takes stamp (observe_job adaptive s stamp mono wall j l).0 ≡ false
  takes-observe_job stamp mono wall j l = elim (Bool-cases (takes stamp j)) [
    | inr skipped ↦ rw (observe_job_skipped stamp mono wall j l skipped) skipped
    | inl taken ↦ ground (arith, observe_job_taken stamp mono wall j l taken)
  ]

  takes-raise_waiter :
      (stamp : ℕ) (history : Dict String Row) (j : Job)
      → takes stamp j ≡ false
      → takes stamp (raise_waiter history j) ≡ false
  takes-raise_waiter stamp history j h = elim (Bool-cases (is_running j)) [
    | inl runs ↦ rw (raise_waiter_running history j runs) h
    | inr waits ↦ ground (arith, raise_waiter_waiting history j waits)
  ]

  -- The second time, no job is taken.
  observe_jobs_again :
      (stamp mono wall : ℕ) (f : Job → Job)
      → ((j : Job) → takes stamp j ≡ false → takes stamp (f j) ≡ false)
      → (jobs : List Job) (l : Learned) (mono' wall' : ℕ) (l' : Learned)
      → observe_jobs adaptive s stamp mono' wall'
          (map f (observe_jobs adaptive s stamp mono wall jobs l).0)
          l'
        ≡ (map f (observe_jobs adaptive s stamp mono wall jobs l).0, l')
  unfolding observe_jobs
  observe_jobs_again stamp mono wall f keeps [] l mono' wall' l' = refl
  observe_jobs_again stamp mono wall f keeps (j ∷ jobs) l mono' wall' l' =
      let one = observe_job adaptive s stamp mono wall j l in
      ground (
        arith,
        observe_job_skipped stamp mono' wall' (f one.0) l'
            (keeps one.0 (takes-observe_job stamp mono wall j l)),
        observe_jobs_again stamp mono wall f keeps jobs one.1 mono' wall' l',
      )

raise_to_again :
    (source : ℕ) (row : Row) (j : Job)
    → raise_to source row (raise_to source row j) ≡ raise_to source row j
unfolding raise_to
raise_to_again source row j = ground arith

raise_waiter_again :
    (history : Dict String Row) (j : Job)
    → raise_waiter history (raise_waiter history j) ≡ raise_waiter history j
unfolding raise_waiter
raise_waiter_again history j = ground arith

map-raise_waiter_again :
    (history : Dict String Row) (jobs : List Job)
    → map (raise_waiter history) (map (raise_waiter history) jobs) ≡ map (raise_waiter history) jobs
map-raise_waiter_again history [] = refl
map-raise_waiter_again history (j ∷ jobs) =
    ground (arith, raise_waiter_again history j, map-raise_waiter_again history jobs)

module _ (s : Sample) (t : ℕ) (free : s.busy ≡ false) (timed : s.monotonic ≡ num t) where
  -- What `observe` does in adaptive mode.
  observe_adaptive :
      (mode : Mode) (mono wall : ℕ) (d : Data)
      → is_adaptive mode ≡ true
      → let seen = observe_jobs true s t mono wall d.jobs d.learned in
        ((observe mode (some s) mono wall d).1.jobs ≡ map (raise_waiter seen.1.estimates) seen.0)
        × ((observe mode (some s) mono wall d).1.learned ≡ seen.1)
  unfolding observe field_or amount
  observe_adaptive mode mono wall d h = rw (free, timed, h) (refl, refl)

  -- And in strict mode.
  observe_strict :
      (mode : Mode) (mono wall : ℕ) (d : Data)
      → is_adaptive mode ≡ false
      → let seen = observe_jobs false s t mono wall d.jobs d.learned in
        ((observe mode (some s) mono wall d).1.jobs ≡ seen.0)
        × ((observe mode (some s) mono wall d).1.learned ≡ seen.1)
  unfolding observe field_or amount
  observe_strict mode mono wall d h = rw (free, timed, h) (refl, refl)

observe_busy :
    (mode : Mode) (s : Sample) (mono wall : ℕ) (d : Data)
    → s.busy ≡ true
    → (observe mode (some s) mono wall d).1 ≡ d
unfolding observe
observe_busy mode s mono wall d busy = ground (arith, busy)

map_id : (jobs : List Job) → map (λ j. j) jobs ≡ jobs
map_id [] = refl
map_id (j ∷ jobs) = ground (arith, map_id jobs)

-- A sample with a time counts once: when `observe` gets the same sample again, at whatever later
-- clocks, every job and all that was learned stay as they are.
pub observe_again :
    (mode : Mode) (s : Sample) (t mono wall mono' wall' : ℕ) (d : Data)
    → s.monotonic ≡ num t
    → let after = (observe mode (some s) mono wall d).1 in
      ((observe mode (some s) mono' wall' after).1.jobs ≡ after.jobs)
      × ((observe mode (some s) mono' wall' after).1.learned ≡ after.learned)
observe_again mode s t mono wall mono' wall' d timed =
    let after = (observe mode (some s) mono wall d).1 in
    elim (Bool-cases s.busy) [
      | inl busy ↦
          let same = observe_busy mode s mono' wall' after busy in
          (ap (λ x. x.jobs) same, ap (λ x. x.learned) same)
      | inr free ↦ elim (Bool-cases (is_adaptive mode)) [
        | inl adapts ↦
            let seen = observe_jobs true s t mono wall d.jobs d.learned in
            let (jobs, learned) = observe_adaptive s t free timed mode mono wall d adapts in
            let (jobs', learned') = observe_adaptive s t free timed mode mono' wall' after adapts in
            let again =
              observe_jobs_again true s t mono wall (raise_waiter seen.1.estimates)
                (λ j h. takes-raise_waiter true s t seen.1.estimates j h) d.jobs d.learned mono'
                wall' after.learned in
            let twice = map-raise_waiter_again seen.1.estimates seen.0 in
            (
              ground (arith, jobs, learned, jobs', learned', again, twice),
              ground (arith, jobs, learned, jobs', learned', again),
            )
        | inr strict ↦
            let seen = observe_jobs false s t mono wall d.jobs d.learned in
            let (jobs, learned) = observe_strict s t free timed mode mono wall d strict in
            let (jobs', learned') = observe_strict s t free timed mode mono' wall' after strict in
            let again =
              observe_jobs_again false s t mono wall (λ j. j) (λ j h. h) d.jobs d.learned mono'
                wall' after.learned in
            (
              ground (arith, jobs, learned, jobs', learned', again, map_id seen.0),
              ground (arith, jobs, learned, jobs', learned', again, map_id seen.0),
            )
      ]
    ]
