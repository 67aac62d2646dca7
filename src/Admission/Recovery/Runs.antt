-- ===== src/Admission/Recovery/Runs.antt =====
-- What a fault or a reboot means for every later decision of libexec/admission.py, whatever samples
-- and starts of jobs follow.
use memcap.Prelude.{
  ℕ, ◌+◌, ◌*◌, ◌≤◌, ◌<◌, String, Bool-cases, true, false, ◌≡◌, ◌⊎◌, inl, inr, Option, some, List,
  All, arith,
}
use memcap.Values.{amount}
use memcap.Registry.{Job}
use memcap.Sample.{Sample}
use memcap.Admission.Advance.{Controller, advance, same_boot, faulty, is_pressure_2, heavy_paging}
use memcap.Admission.Allowed.{Admitted-of-allow, Ready}
use memcap.Admission.Recovery.{TakenUp, cooldown_of_fault, cooldown_of_paging}
use memcap.Admission.{Policy, Candidate, adaptive, decide, second}
use memcap.Admission.Recovery.Following.{
  Happening, follow, last_clock, Ordered, OfBoot, IsCooling, IsRecovering, advance-clock,
  boot_after, advance-reset, follow-IsCooling, follow-IsRecovering,
}

cooling_refuses :
    (p : Policy) (c : Controller) (s : Sample) (jobs : List Job) (k : Candidate)
    (boot : Option String) (u t : ℕ)
    → p.mode ≡ adaptive
    → IsCooling boot u t c
    → t < u
    → (decide p s c jobs k).allow ≡ false
unfolding amount
cooling_refuses p c s jobs k boot u t m i h = elim (Bool-cases (decide p s c jobs k).allow) [
  | inl allowed ↦
      let ready : Ready s c = rw m at (Admitted-of-allow p s c jobs k allowed).mode in
      absurd (ground (arith, ready.recovered, i.clock, i.cooldown))
  | inr refused ↦ refused
]

recovering_refuses :
    (p : Policy) (c : Controller) (s : Sample) (jobs : List Job) (k : Candidate) (u t : ℕ)
    → p.mode ≡ adaptive
    → IsRecovering u t c
    → t < u + 2 * second
    → (decide p s c jobs k).allow ≡ false
unfolding amount
recovering_refuses p c s jobs k u t m i h = elim (Bool-cases (decide p s c jobs k).allow) [
  | inl allowed ↦
      let ready : Ready s c = rw m at (Admitted-of-allow p s c jobs k allowed).mode in
      absurd (ground (arith, ready.healthy, i.clock, i.healthy))
  | inr refused ↦ refused
]

-- A cooldown of six seconds that a sample starts refuses for as long, whatever follows in the boot.
cooldown_blocks :
    (p : Policy) (c : Controller) (s s' : Sample) (now : ℕ) (es : List Happening) (jobs : List Job)
    (k : Candidate)
    → p.mode ≡ adaptive
    → (advance c s now).cooldown_until ≡ some (now + 6000)
    → Ordered now es
    → All (OfBoot s.boot_id) es
    → last_clock now es < now + 6000
    → (decide p s' (follow (advance c s now) es) jobs k).allow ≡ false
cooldown_blocks p c s s' now es jobs k m cooldown o same h =
    let cooling : IsCooling s.boot_id (now + 6000) now (advance c s now) = record {
      clock = advance-clock c s now;
      same = boot_after c s now;
      cooldown = rw cooldown (omega arith);
    } in
    cooling_refuses p (follow (advance c s now) es) s' jobs k s.boot_id (now + 6000)
      (last_clock now es) m
      (follow-IsCooling s.boot_id (now + 6000) now (advance c s now) es (omega arith) o same
        cooling)
      h

-- After a faulty sample that is taken up, adaptive mode admits nothing for six seconds: whatever
-- samples of the same boot, busy samplers and starts of jobs follow while the clock does not go
-- back, and whatever sample, jobs and request are then decided on.
pub fault_blocks_admission :
    (p : Policy) (c : Controller) (s s' : Sample) (now : ℕ) (es : List Happening) (jobs : List Job)
    (k : Candidate)
    → p.mode ≡ adaptive
    → TakenUp c s now
    → faulty s.fault ≡ true
    → Ordered now es
    → All (OfBoot s.boot_id) es
    → last_clock now es < now + 6000
    → (decide p s' (follow (advance c s now) es) jobs k).allow ≡ false
fault_blocks_admission p c s s' now es jobs k m t f =
    cooldown_blocks p c s s' now es jobs k m (cooldown_of_fault c s now t f)

-- After a sample that is taken up and that shows heavy paging under pressure 2, where such paging
-- began ten seconds ago or earlier in the same boot, adaptive mode admits nothing for six seconds:
-- whatever samples of that boot, busy samplers and starts of jobs follow while the clock does not go
-- back, and whatever sample, jobs and request are then decided on.
pub paging_blocks_admission :
    (p : Policy) (c : Controller) (s s' : Sample) (now since : ℕ) (es : List Happening)
    (jobs : List Job) (k : Candidate)
    → p.mode ≡ adaptive
    → TakenUp c s now
    → same_boot s.boot_id c.boot_id ≡ true
    → c.paging_since ≡ some since
    → since + 10000 ≤ now
    → is_pressure_2 s.pressure ≡ true
    → heavy_paging s.swap_out_kbps ≡ true
    → Ordered now es
    → All (OfBoot s.boot_id) es
    → last_clock now es < now + 6000
    → (decide p s' (follow (advance c s now) es) jobs k).allow ≡ false
paging_blocks_admission p c s s' now since es jobs k m t b e w pressure heavy =
    cooldown_blocks p c s s' now es jobs k m
      (cooldown_of_paging c s now since t b e w pressure heavy)

-- After a sample of another boot, or a faulty one that is taken up, adaptive mode admits nothing for
-- two seconds: whatever samples of whatever boots, busy samplers and starts of jobs follow while the
-- clock does not go back, and whatever sample, jobs and request are then decided on.
pub reset_blocks_admission :
    (p : Policy) (c : Controller) (s s' : Sample) (now : ℕ) (es : List Happening) (jobs : List Job)
    (k : Candidate)
    → p.mode ≡ adaptive
    → (same_boot s.boot_id c.boot_id ≡ false) ⊎ (TakenUp c s now × (faulty s.fault ≡ true))
    → Ordered now es
    → last_clock now es < now + 2 * second
    → (decide p s' (follow (advance c s now) es) jobs k).allow ≡ false
reset_blocks_admission p c s s' now es jobs k m new o h =
    let recovering : IsRecovering now now (advance c s now) = record {
      clock = advance-clock c s now;
      healthy = rw (advance-reset c s now new) (omega arith);
    } in
    recovering_refuses p (follow (advance c s now) es) s' jobs k now (last_clock now es) m
      (follow-IsRecovering now now (advance c s now) es (omega arith) o recovering) h
