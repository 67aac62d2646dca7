-- ===== src/Admission/Recovery/Following.antt =====
-- What follows a sample: later samples, busy samplers and starts of jobs, as libexec/scheduler.py hands
-- them to the controller of libexec/admission.py, and what of the recovery state they keep.
use memcap.Prelude.{
  ℕ, ◌+◌, ◌≤◌, ap, sym, ◌∙◌, refl, String, Bool-cases, true, false, ◌≡◌, ◌⊎◌, inl, inr, Option,
  none, some, List, [], ◌∷◌, All, arith, eq_iff,
}
use memcap.Values.{num}
use memcap.Sample.{Sample}
use memcap.Admission.Advance.{Controller, advance, same_boot, faulty}
use memcap.Admission.Recovery.{TakenUp}
use memcap.Admission.{time_or}

-- What happens to the controller at a time: a sample is advanced over, a busy sampler only moves
-- the clock, or a finite job is started.
pub data Happening : Type 0 where
  sampled : Sample → ℕ → Happening
  busy : ℕ → Happening
  started : ℕ → Happening

abbrev pub happens : Controller → Happening → Controller
happens c (sampled s now) = advance c s now
happens c (busy now) = record c { now = num now }
happens c (started now) = record c { last_start = some now }

abbrev pub follow : Controller → List Happening → Controller
follow c [] = c
follow c (e ∷ rest) = follow (happens c e) rest

-- The time that the controller's clock shows afterwards: a start does not set it.
abbrev pub clock_after : ℕ → Happening → ℕ
clock_after t (sampled s now) = now
clock_after t (busy now) = now
clock_after t (started now) = t

abbrev pub last_clock : ℕ → List Happening → ℕ
last_clock t [] = t
last_clock t (e ∷ rest) = last_clock (clock_after t e) rest

-- The clock never goes back.
abbrev pub Ordered : ℕ → List Happening → Type 0
Ordered t [] = Unit
Ordered t (e ∷ rest) = (t ≤ clock_after t e) × Ordered (clock_after t e) rest

abbrev pub OfBoot : Option String → Happening → Type 0
OfBoot boot (sampled s now) = same_boot s.boot_id boot ≡ true
OfBoot boot (busy now) = Unit
OfBoot boot (started now) = Unit

same_boot-eq : (a b : Option String) → same_boot a b ≡ true → a ≡ b
unfolding same_boot
same_boot-eq none none h = refl
same_boot-eq none (some b) h = cc
same_boot-eq (some a) none h = cc
same_boot-eq (some a) (some b) h = ap some ((eq_iff a b).0 h)

-- The controller is in boot `boot`, its clock shows `t`, and its cooldown lasts until `u` at least.
pub record IsCooling (boot : Option String) (u t : ℕ) (c : Controller) : Type 0 where
  pub clock : c.now ≡ num t
  pub same : c.boot_id ≡ boot
  pub cooldown : u ≤ time_or 0 c.cooldown_until

-- The clock shows `t`, and the host has not been healthy since before `u`.
pub record IsRecovering (u t : ℕ) (c : Controller) : Type 0 where
  pub clock : c.now ≡ num t
  pub healthy : u ≤ time_or 0 c.healthy_since

pub advance-clock : (c : Controller) (s : Sample) (now : ℕ) → (advance c s now).now ≡ num now
unfolding advance
advance-clock c s now = ground arith

advance-boot :
    (c : Controller) (s : Sample) (now : ℕ)
    → same_boot s.boot_id c.boot_id ≡ true
    → (advance c s now).boot_id ≡ c.boot_id
unfolding advance
advance-boot c s now b = ground arith

advance-boot_new :
    (c : Controller) (s : Sample) (now : ℕ)
    → same_boot s.boot_id c.boot_id ≡ false
    → (advance c s now).boot_id ≡ s.boot_id
unfolding advance
advance-boot_new c s now b = ground arith

pub boot_after : (c : Controller) (s : Sample) (now : ℕ) → (advance c s now).boot_id ≡ s.boot_id
boot_after c s now = elim (Bool-cases (same_boot s.boot_id c.boot_id)) [
  | inl same ↦ advance-boot c s now same ∙ sym (same_boot-eq s.boot_id c.boot_id same)
  | inr new ↦ advance-boot_new c s now new
]

-- A sample of the same boot keeps a cooldown or prolongs it.
advance-cooldown :
    (c : Controller) (s : Sample) (now u : ℕ)
    → same_boot s.boot_id c.boot_id ≡ true
    → u ≤ time_or 0 c.cooldown_until
    → u ≤ now + 6000
    → u ≤ time_or 0 (advance c s now).cooldown_until
unfolding advance
advance-cooldown c s now u b k h = ground arith

-- No sample makes the host healthy for longer than it was.
advance-healthy :
    (c : Controller) (s : Sample) (now u : ℕ)
    → u ≤ time_or 0 c.healthy_since
    → u ≤ now
    → u ≤ time_or 0 (advance c s now).healthy_since
unfolding advance
advance-healthy c s now u k h = ground arith

-- A fault or another boot starts the recovery anew.
pub advance-reset :
    (c : Controller) (s : Sample) (now : ℕ)
    → (same_boot s.boot_id c.boot_id ≡ false) ⊎ (TakenUp c s now × (faulty s.fault ≡ true))
    → time_or 0 (advance c s now).healthy_since ≡ now
unfolding advance
advance-reset c s now h = ground arith

happens-IsCooling :
    (boot : Option String) (u t : ℕ) (c : Controller) (e : Happening)
    → u ≤ t + 6000
    → t ≤ clock_after t e
    → OfBoot boot e
    → IsCooling boot u t c
    → IsCooling boot u (clock_after t e) (happens c e)
happens-IsCooling boot u t c (busy now) b o same k = record {
  clock = refl;
  same = k.same;
  cooldown = k.cooldown;
}
happens-IsCooling boot u t c (started now) b o same k = record {
  clock = k.clock;
  same = k.same;
  cooldown = k.cooldown;
}
happens-IsCooling boot u t c (sampled s now) b o same k =
    let one : same_boot s.boot_id c.boot_id ≡ true = rw k.same same in
    record {
      clock = advance-clock c s now;
      same = advance-boot c s now one ∙ k.same;
      cooldown = advance-cooldown c s now u one k.cooldown (omega arith);
    }

pub follow-IsCooling :
    (boot : Option String) (u t : ℕ) (c : Controller) (es : List Happening)
    → u ≤ t + 6000
    → Ordered t es
    → All (OfBoot boot) es
    → IsCooling boot u t c
    → IsCooling boot u (last_clock t es) (follow c es)
follow-IsCooling boot u t c [] b o same k = k
follow-IsCooling boot u t c (e ∷ es) b (o, os) (same, sames) k =
    follow-IsCooling boot u (clock_after t e) (happens c e) es (omega arith) os sames
      (happens-IsCooling boot u t c e b o same k)

happens-IsRecovering :
    (u t : ℕ) (c : Controller) (e : Happening)
    → u ≤ t
    → t ≤ clock_after t e
    → IsRecovering u t c
    → IsRecovering u (clock_after t e) (happens c e)
happens-IsRecovering u t c (busy now) b o k = record { clock = refl; healthy = k.healthy }
happens-IsRecovering u t c (started now) b o k = record { clock = k.clock; healthy = k.healthy }
happens-IsRecovering u t c (sampled s now) b o k = record {
  clock = advance-clock c s now;
  healthy = advance-healthy c s now u k.healthy (omega arith);
}

pub follow-IsRecovering :
    (u t : ℕ) (c : Controller) (es : List Happening)
    → u ≤ t
    → Ordered t es
    → IsRecovering u t c
    → IsRecovering u (last_clock t es) (follow c es)
follow-IsRecovering u t c [] b o k = k
follow-IsRecovering u t c (e ∷ es) b (o, os) k =
    follow-IsRecovering u (clock_after t e) (happens c e) es (omega arith) os
      (happens-IsRecovering u t c e b o k)
