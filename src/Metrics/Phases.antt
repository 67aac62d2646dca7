-- ===== src/Metrics/Phases.antt =====
-- The three times of a phase (libexec/job_timing.py) agree.
use memcap.Prelude.{ℕ, ◌+◌, ◌≤◌, ◌≡◌, Option, none, some, arith}
use memcap.Metrics.{phase_fields}

-- Where all three times are given, the waking and the sleeping time make up the elapsed one, but for
-- one millisecond that rounding drops and at most ten more for the skew of the clocks.
pub phase_fields-agree :
    (awake_start elapsed_start : Option ℕ) (awake_end : ℕ) (elapsed_end : Option ℕ) (a e s : ℕ)
    → (phase_fields awake_start elapsed_start awake_end elapsed_end).awake_ms ≡ some a
    → (phase_fields awake_start elapsed_start awake_end elapsed_end).elapsed_ms ≡ some e
    → (phase_fields awake_start elapsed_start awake_end elapsed_end).sleep_ms ≡ some s
    → (e ≤ a + s + 1) × (a + s ≤ e + 10)
unfolding phase_fields
phase_fields-agree none elapsed_start awake_end elapsed_end a e s h g k = absurd (ground (arith, h))
phase_fields-agree (some b) none awake_end elapsed_end a e s h g k = absurd (ground (arith, g))
phase_fields-agree (some b) (some c) awake_end none a e s h g k = absurd (ground (arith, g))
phase_fields-agree (some b) (some c) awake_end (some f) a e s h g k = ground (arith, h, g, k)
