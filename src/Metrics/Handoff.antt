-- ===== src/Metrics/Handoff.antt =====
-- When `newer_cached_sample` of libexec/scheduler_metrics.py replaces the sample that a waiter holds.
use memcap.Prelude.{
  ℕ, ◌+◌, ◌≤◌, ◌<◌, String, true, false, not, ◌||◌, ◌≡◌, ◌⊎◌, inl, inr, refl, arith, Bool-cases,
}
use memcap.Values.{number, amount}
use memcap.Sample.{Sample}
use memcap.Admission.Advance.{faulty}
use memcap.Processes.{Try, ok, raised}
use memcap.Metrics.{Cached, same_key, adopts, newer_cached_sample}

-- The published sample is of the same key, is not from the future and is less than two seconds old,
-- and the held one is no fault unless it reports a busy sampler. It is newer than the held one, unless
-- that reports a busy sampler or has no time.
pub record IsHandoff (c : Cached) (key : String) (held : Sample) (mono : ℕ) : Type 0 where
  pub keyed : same_key c.key key ≡ true
  pub timed : number c.sample.monotonic ≡ true
  pub past : amount c.sample.monotonic ≤ mono
  pub fresh : mono < amount c.sample.monotonic + 2000
  pub sound : (not (faulty held.fault) || held.busy) ≡ true
  pub newer :
      (held.busy ≡ true)
      ⊎ (number held.monotonic ≡ false)
      ⊎ (amount held.monotonic < amount c.sample.monotonic)

adopts-IsHandoff :
    (c : Cached) (key : String) (held : Sample) (mono : ℕ)
    → adopts c key held mono ≡ true
    → IsHandoff c key held mono
unfolding adopts
adopts-IsHandoff c key held mono h = record {
  keyed = ground (arith, h);
  timed = ground (arith, h);
  past = ground (arith, h);
  fresh = ground (arith, h);
  sound = ground (arith, h);
  newer = ground (arith, h);
}

-- The held sample stays, also when the published file cannot be read, unless a published sample
-- replaces it that has the same key and is less than two seconds old. Then the held one was no fault
-- other than a busy sampler; and the published one is newer, unless the held one reported a busy
-- sampler or had no time.
pub newer_cached_sample-IsHandoff :
    (file : Try Cached) (key : String) (held : Sample) (mono : ℕ)
    → (newer_cached_sample file key held mono ≡ held)
      ⊎ ((c : Cached) × (file ≡ ok c)
          × (newer_cached_sample file key held mono ≡ c.sample)
          × IsHandoff c key held mono)
unfolding newer_cached_sample
newer_cached_sample-IsHandoff raised key held mono = inl refl
newer_cached_sample-IsHandoff (ok c) key held mono = elim (Bool-cases (adopts c key held mono)) [
  | inr stays ↦ inl (rw stays refl)
  | inl adopted ↦ inr (c, refl, rw adopted refl, adopts-IsHandoff c key held mono adopted)
]
