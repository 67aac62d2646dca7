-- ===== src/Admission/Recovery.antt =====
-- How the controller of libexec/admission.py and the decision work together at one sample.
pub mod Following
pub mod Runs
use memcap.Prelude.{
  Bool-cases, ◌&&◌, ℕ, ◌+◌, ◌≤◌, ◌<◌, true, false, ◌≡◌, some, List, arith, inl, inr, refl,
}
use memcap.Values.{field_or, num, amount}
use memcap.Registry.{Job}
use memcap.Sample.{Sample}
use memcap.Admission.Advance.{
  Controller, advance, same_boot, not_newer, faulty, is_pressure_2, heavy_paging,
}
use memcap.Admission.Allowed.{Admitted-of-allow, Ready}
use memcap.Admission.{Policy, Candidate, adaptive, decide, time_or}

-- A sample that is not newer than the last one of the same boot changes nothing but the clock.
pub advance_stale :
    (c : Controller) (s : Sample) (now stamp last : ℕ)
    → same_boot s.boot_id c.boot_id ≡ true
    → s.monotonic ≡ num stamp
    → c.last_sample ≡ num last
    → stamp ≤ last
    → advance c s now ≡ record c { now = num now }
unfolding advance
advance_stale c s now stamp last b e l h = ground arith

-- Any other sample becomes the last one, and the recovery state of another boot is forgotten.
pub advance_fresh :
    (c : Controller) (s : Sample) (now stamp last : ℕ)
    → same_boot s.boot_id c.boot_id ≡ true
    → s.monotonic ≡ num stamp
    → c.last_sample ≡ num last
    → last < stamp
    → ((advance c s now).last_sample ≡ num stamp)
      × ((advance c s now).boot_id ≡ c.boot_id)
      × ((advance c s now).last_start ≡ c.last_start)
unfolding advance
advance_fresh c s now stamp last b e l h = ground arith

-- A sample is taken up unless it is no newer than the last of the same boot.
abbrev pub TakenUp : Controller → Sample → ℕ → Type 0
TakenUp c s now =
    (same_boot s.boot_id c.boot_id && not_newer (field_or now s.monotonic) c.last_sample) ≡ false

pub cooldown_of_fault :
    (c : Controller) (s : Sample) (now : ℕ)
    → TakenUp c s now
    → faulty s.fault ≡ true
    → (advance c s now).cooldown_until ≡ some (now + 6000)
unfolding advance
cooldown_of_fault c s now t f = ground arith

pub cooldown_of_paging :
    (c : Controller) (s : Sample) (now since : ℕ)
    → TakenUp c s now
    → same_boot s.boot_id c.boot_id ≡ true
    → c.paging_since ≡ some since
    → since + 10000 ≤ now
    → is_pressure_2 s.pressure ≡ true
    → heavy_paging s.swap_out_kbps ≡ true
    → (advance c s now).cooldown_until ≡ some (now + 6000)
unfolding advance
cooldown_of_paging c s now since t b e h p q = ground arith
