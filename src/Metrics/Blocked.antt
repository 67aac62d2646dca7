-- ===== src/Metrics/Blocked.antt =====
-- `account_blocker` of libexec/scheduler_metrics.py counts the time of every wait once.
use memcap.Prelude.{
  ℕ, ◌+◌, ◌-◌, ◌*◌, ◌/◌, ◌≤◌, length, String, true, ◌≡◌, inl, inr, some, List, [], ◌∷◌, arith,
  sum_of, Bool-cases, Dict, lookup, put, string_eq, str_eq,
}
use memcap.Values.{Field, num, amount}
use memcap.Metrics.{Clock, is_blocker, total_of, totals_of, account_blocker}

-- All the time that is attributed.
abbrev pub blocked : Clock → ℕ
blocked c = sum_of (λ e. amount e.1) (totals_of c.blocked_ms)

-- The decisions of a supervisor: reasons with their times.
unfoldable pub account_all : Clock → List (String × ℕ) → Clock
account_all c [] = c
account_all c ((reason, now) ∷ rest) = account_all (account_blocker c reason now) rest

-- The reasons are known and the times do not fall.
unfoldable pub IsOrdered : ℕ → List (String × ℕ) → Type 0
IsOrdered since [] = Unit
IsOrdered since ((reason, now) ∷ rest) =
    (is_blocker reason ≡ true) × (since ≤ now) × IsOrdered now rest

-- The time of the last decision.
unfoldable pub last_time : ℕ → List (String × ℕ) → ℕ
last_time since [] = since
last_time since ((reason, now) ∷ rest) = last_time now rest

sum-put :
    (k : String) (m : ℕ) (d : Dict String Field)
    → sum_of (λ e. amount e.1) (put k (num m) d) + total_of k d ≡ sum_of (λ e. amount e.1) d + m
unfolding put sum_of lookup amount
sum-put k m [] = ground arith
sum-put k m ((j, f) ∷ d) = elim (Bool-cases (str_eq j k)) [
  | inl same ↦ ground (arith, same)
  | inr other ↦ ground (arith, other, sum-put k m d)
]

account_blocker-blocked :
    (c : Clock) (r reason : String) (since now : ℕ)
    → c.blocker_clock ≡ some (r, since)
    → is_blocker r ≡ true
    → since ≤ now
    → blocked (account_blocker c reason now) ≡ blocked c + (now - since) / 1000
unfolding account_blocker
account_blocker-blocked c r reason since now clock known later = ground (
  arith,
  clock,
  known,
  later,
  sum-put r (total_of r (totals_of c.blocked_ms) + (now - since) / 1000) (totals_of c.blocked_ms),
)

account_blocker-clock :
    (c : Clock) (reason : String) (now : ℕ)
    → is_blocker reason ≡ true
    → (account_blocker c reason now).blocker_clock ≡ some (reason, now)
unfolding account_blocker
account_blocker-clock c reason now known = ground (arith, known)

last_time_mono :
    (since : ℕ) (rest : List (String × ℕ)) → IsOrdered since rest → since ≤ last_time since rest
unfolding last_time IsOrdered
last_time_mono since [] o = omega arith
last_time_mono since ((reason, now) ∷ rest) (known, later, ordered) =
    omega (arith, later, last_time_mono now rest ordered)

-- Decisions with known reasons at times that do not fall attribute the time from the first decision
-- to the last: no more than that time, and less than it only by the fraction of a millisecond that
-- each of them drops.
pub account_all-blocked :
    (c : Clock) (r : String) (since : ℕ) (rest : List (String × ℕ))
    → c.blocker_clock ≡ some (r, since)
    → is_blocker r ≡ true
    → IsOrdered since rest
    → (blocked (account_all c rest) * 1000 ≤ blocked c * 1000 + (last_time since rest - since))
      × (blocked c * 1000 + (last_time since rest - since)
          ≤ blocked (account_all c rest) * 1000 + 999 * length rest)
unfolding account_all last_time IsOrdered
account_all-blocked c r since [] clock known ordered = (omega arith, omega arith)
account_all-blocked c r since ((reason, now) ∷ rest) clock known (named, later, ordered) =
    let after = account_blocker c reason now in
    let (above, below) =
      account_all-blocked after reason now rest (account_blocker-clock c reason now named) named
        ordered in
    let one = account_blocker-blocked c r reason since now clock known later in
    let forward = last_time_mono now rest ordered in
    (omega (arith, above, one, forward, later), omega (arith, below, one, forward, later))
