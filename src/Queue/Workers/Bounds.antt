-- ===== src/Queue/Workers/Bounds.antt =====
-- The bounds of `Scheduler.allocation` (libexec/scheduler.py).
use memcap.Prelude.{ℕ, ◌+◌, ◌*◌, ◌≤◌, ◌<◌, true, ◌≡◌, Option, some, List, arith, keep, sum_of}
use memcap.Registry.{Job, is_running}
use memcap.Sample.{Sample}
use memcap.Admission.{gib, is_adaptive}
use memcap.Queue.{Settings}
use memcap.Queue.Workers.{
  occupied, unused_reservation, cpu_pool, margin, usable_available, allocation,
}

module _ (t : Settings) (jobs : List Job) (s : Option Sample) where
  -- A job gets at least one worker and, if the setting allows one, never more than the setting.
  pub allocation_range :
      1 ≤ t.workers → (1 ≤ allocation t jobs s) × (allocation t jobs s ≤ t.workers)
  unfolding allocation
  allocation_range h = ground arith

  -- In adaptive mode the running finite jobs and the new one together stay within the processor
  -- pool, unless the new one is given the single worker that every job needs.
  pub allocation_cpu :
      is_adaptive t.policy ≡ true
      → 1 < allocation t jobs s
      → occupied t jobs + allocation t jobs s ≤ cpu_pool t
  unfolding allocation
  allocation_cpu a h = ground arith

  -- In adaptive mode with a usable sample, more than one worker is given only if a GiB for each is
  -- available beyond the margin and all unused reservations.
  pub allocation_memory :
      (available_kb : ℕ)
      → is_adaptive t.policy ≡ true
      → usable_available s ≡ some available_kb
      → 1 < allocation t jobs s
      → allocation t jobs s * gib + sum_of unused_reservation (keep is_running jobs) + margin t
        ≤ available_kb
  unfolding allocation
  allocation_memory available_kb a u h = ground arith
