-- ===== src/Tests/QueueRuns.antt =====
-- The queue's choices of libexec/scheduler.py at concrete inputs.
use mathlib.Core.List.{Mem, mem-cons_self}
use memcap.Prelude.{
  ℕ, ◌+◌, ◌-◌, ◌*◌, ◌/◌, ◌≤◌, ◌<◌, ◌≡◌, ◌≢◌, ◌⊎◌, refl, Bool, true, false, String, Option, some,
  none, List, [], ◌∷◌, ◌++◌, arith, sum_of, keep, all, any, map, lookup, nat_eq, string_eq, elem,
  put, get_or, has, str_eq, eq_iff,
}
use memcap.Values.{num, amount, field_or}
use memcap.Registry.{Job, is_running, is_resource, footprint_members}
use memcap.Admission.{gib, strict, adaptive, is_adaptive, decide}
use memcap.Lanes.{lane, is_version}
use memcap.Queue.{session_bucket, distinct}
use memcap.Queue.Workers.{allocation, usable_available, unused_reservation, margin}
use memcap.Queue.Workers.Bounds.{allocation_memory}
use memcap.Queue.Waiters.{
  Turns, next_waiter, choose, waiters, holds_back, rotation_key, first_id, is_heavy_job, turn_of,
  try_order, sort_by, fit_all, active_of,
}
use memcap.Queue.Waiters.Choice.{IsHoldingBack}
use memcap.Queue.Waiters.Fitting.{Allowed, Refused}
use memcap.Queue.Waiters.Sorting.{Before}
use memcap.Queue.Waiters.Turnwise.{choose_fair}
use memcap.Queue.Waiters.Chosen.{verdict, left, next_waiter-found, next_waiter-none}
use memcap.Queue.Turns.{History}
use memcap.Queue.Turns.Rotation.{after, record_turn-last}
use memcap.Tests.Fixtures.{waiter, runner, healthy, adaptive_settings, moment}

-- Beside a job with two workers and a GiB to grow, four workers fit.
roomy : 1 < allocation adaptive_settings (runner ∷ []) (some healthy)
unfolding allocation memcap.Admission.Advance.faulty distinct any sum_of keep is_running is_resource
    amount field_or
roomy = omega arith

usable : usable_available (some healthy) ≡ some 8388608
unfolding usable_available memcap.Admission.Advance.faulty
usable = refl

allocation_memory_example :
    allocation adaptive_settings (runner ∷ []) (some healthy) * gib
      + sum_of unused_reservation (keep is_running (runner ∷ []))
      + margin adaptive_settings
    ≤ 8388608
allocation_memory_example =
    allocation_memory adaptive_settings (runner ∷ []) (some healthy) 8388608 refl usable roomy

-- A second session waits beside the first.
abbrev rival : Job
rival = record waiter { id = "cccc"; session_key = "gamma"; enqueued = some 2000 }

abbrev both : List Job
both = waiter ∷ rival ∷ []

abbrev turns : Turns
turns = ("alpha", 3) ∷ ("gamma", 1) ∷ []

-- The session with fewer turns goes first, though it came later.
rival_first : choose adaptive (runner ∷ both) turns 101000 0 (λ j. true) both ≡ some "cccc"
unfolding choose first_id keep lane is_resource try_order all sort_by any active_of is_running
    session_bucket turn_of get_or
rival_first = refl

no_hold :
    first_id (holds_back adaptive (runner ∷ both) 101000 (λ j. true)) (keep is_heavy_job both)
    ≡ none
unfolding first_id keep lane is_resource
no_hold = refl

fair_versions : all (λ j. is_version 2 j.fairness_version) both ≡ true
unfolding all
fair_versions = refl

choose_fair_example :
    (j : Job) × Mem j both
    × (j.id ≡ "cccc")
    × (true ≡ true)
    × ((w : Job) → Mem w both → true ≡ true → Before (rotation_key (runner ∷ both) turns) j w)
choose_fair_example =
    choose_fair adaptive (runner ∷ both) turns 101000 0 (λ j. true) both "cccc" fair_versions
      no_hold rival_first

chosen : (next_waiter moment (runner ∷ both) turns (num 0)).1 ≡ some "cccc"
unfolding next_waiter choose first_id keep waiters sort_by is_running turn_of get_or session_bucket
    lane is_resource try_order all any amount active_of fit_all put lookup holds_back
    memcap.Admission.decide memcap.Admission.Advance.faulty memcap.Admission.adaptive_guards
    memcap.Admission.charge_jobs memcap.Admission.compare_headroom memcap.Admission.counted_of
    memcap.Admission.decide_steps memcap.Admission.finite_running memcap.Admission.footprint
    memcap.Admission.measured_of memcap.Admission.request memcap.Admission.mode_headroom elem sum_of
    has footprint_members field_or memcap.Reservation.reservation memcap.Reservation.add_point
    memcap.Reservation.trim memcap.Prelude.last_n
chosen = refl

next_waiter-found_example :
    (j : Job) × Mem j (runner ∷ both)
    × (is_running j ≡ false)
    × (j.id ≡ "cccc")
    × (Allowed moment (runner ∷ both) (waiters (runner ∷ both) turns moment.wall) "cccc"
        ⊎ Refused moment (runner ∷ both) (waiters (runner ∷ both) turns moment.wall) "cccc"
          × IsHoldingBack adaptive
              (left moment (runner ∷ both) turns (num 0))
              moment.wall
              (verdict moment (runner ∷ both) turns (num 0))
              j)
next_waiter-found_example = next_waiter-found moment (runner ∷ both) turns (num 0) "cccc" chosen

-- Nobody waits for more than the machine has.
abbrev giant : Job
giant = record waiter { memory_kb = 67108864; enqueued = some 100500 }

nobody : (next_waiter moment (giant ∷ []) [] (num 0)).1 ≡ none
unfolding next_waiter choose first_id keep waiters sort_by is_running turn_of get_or session_bucket
    lane is_resource try_order all any amount active_of fit_all put lookup holds_back
    memcap.Admission.decide memcap.Admission.Advance.faulty memcap.Admission.adaptive_guards
    memcap.Admission.charge_jobs memcap.Admission.compare_headroom memcap.Admission.counted_of
    memcap.Admission.decide_steps memcap.Admission.finite_running memcap.Admission.footprint
    memcap.Admission.measured_of memcap.Admission.request memcap.Admission.mode_headroom elem sum_of
    has footprint_members field_or memcap.Reservation.reservation
nobody = refl

giant_waits : is_running giant ≡ false
unfolding is_running
giant_waits = refl

next_waiter-none_example :
    Refused moment (giant ∷ []) (waiters (giant ∷ []) [] moment.wall) giant.id
next_waiter-none_example =
    next_waiter-none moment (giant ∷ []) [] (num 0) nobody giant mem-cons_self giant_waits

abbrev history : History
history = record { jobs = both; small_streak = num 2; session_turns = turns }

-- The two sessions have different buckets.
differ : str_eq (session_bucket rival) (session_bucket waiter) ≡ false
unfolding session_bucket
differ = refl

other_session : session_bucket rival ≢ session_bucket waiter
other_session e =
    absurd (ground (arith, differ, (eq_iff (session_bucket rival) (session_bucket waiter)).1 e))

record_turn-last_example :
    (turn_of (after history waiter) rival < turn_of (after history waiter) waiter)
    × (Mem rival both → turn_of (after history waiter) rival ≡ turn_of turns rival)
record_turn-last_example = record_turn-last history waiter mem-cons_self rival other_session
