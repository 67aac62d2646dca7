-- ===== src/Queue/Waiters/Turnwise.antt =====
-- The fair rotation of `next_waiter` (libexec/scheduler.py), and the choice for a whole registry.
use mathlib.Core.List.{Mem, mem-cons_self, mem-cons_of_mem, not-mem-nil, eq-or-mem_of_mem-cons}
use mathlib.Core.List.Perm
use mathlib.Core.Logic.Or
use memcap.Prelude.{
  ℕ, String, Bool, true, ◌≡◌, inl, inr, none, some, List, [], ◌∷◌, arith, All, keep, Bool-cases,
  all, string_eq,
}
use memcap.Registry.{Job}
use memcap.Admission.{Mode}
use memcap.Lanes.{is_version}
use memcap.Queue.Waiters.{
  Key, Turns, rotation_key, is_heavy_job, holds_back, try_order, first_id, choose,
}
use memcap.Queue.Waiters.Sorting.{Before, IsOrdered, sort_by-IsOrdered}
use memcap.Queue.Waiters.Choice.{try_order-perm}

module _ (key : Job → Key) (test : Job → Bool) where
  Before-refl : (j : Job) → Before key j j
  Before-refl j = ground arith

  All-Mem : (j w : Job) (js : List Job) → All (Before key j) js → Mem w js → Before key j w
  All-Mem j w [] h m = absurd (not-mem-nil m)
  All-Mem j w (k ∷ js) h m =
      Or.elim (hlevel) (eq-or-mem_of_mem-cons m) (λ e. rw e h.0) (All-Mem j w js h.1)

  -- In an ordered list the first that passes comes before every other that passes.
  first_id-first :
      (js : List Job) (i : String)
      → IsOrdered key js
      → first_id test js ≡ some i
      → (j : Job) × Mem j js
        × (j.id ≡ i)
        × (test j ≡ true)
        × ((w : Job) → Mem w js → test w ≡ true → Before key j w)
  unfolding first_id
  first_id-first [] i o h = cc
  first_id-first (j ∷ js) i o h = elim (Bool-cases (test j)) [
    | inl passed ↦ (
      j,
      mem-cons_self,
      ground arith,
      passed,
      λ w m t.
          Or.elim (hlevel) (eq-or-mem_of_mem-cons m) (λ e. rw e (Before-refl j))
            (All-Mem j w js o.0),
    )
    | inr failed ↦
        let (k, m, e, p, least) = first_id-first js i o.1 (ground arith) in
        (
          k,
          mem-cons_of_mem j m,
          e,
          p,
          λ w n t.
              Or.elim (hlevel) (eq-or-mem_of_mem-cons n) (λ same. absurd (ground arith))
                (λ rest. least w rest t),
        )
  ]

try_order-IsOrdered :
    (jobs : List Job) (turns : Turns) (streak : ℕ) (waiting : List Job)
    → all (λ j. is_version 2 j.fairness_version) waiting ≡ true
    → IsOrdered (rotation_key jobs turns) (try_order jobs turns streak waiting)
unfolding try_order
try_order-IsOrdered jobs turns streak waiting fair =
    rw fair (sort_by-IsOrdered (rotation_key jobs turns) _)

-- Where every waiter follows the rotation and no aged heavy waiter holds the others back, the
-- choice fits and no fitting waiter's session runs fewer finite jobs, or as many with fewer turns.
pub choose_fair :
    (policy : Mode) (jobs : List Job) (turns : Turns) (now streak : ℕ) (fits : Job → Bool)
    (waiting : List Job) (i : String)
    → all (λ j. is_version 2 j.fairness_version) waiting ≡ true
    → first_id (holds_back policy jobs now fits) (keep is_heavy_job waiting) ≡ none
    → choose policy jobs turns now streak fits waiting ≡ some i
    → (j : Job) × Mem j waiting
      × (j.id ≡ i)
      × (fits j ≡ true)
      × ((w : Job) → Mem w waiting → fits w ≡ true → Before (rotation_key jobs turns) j w)
unfolding choose
choose_fair policy jobs turns now streak fits waiting i fair free h =
    let p = try_order-perm jobs turns streak waiting in
    let (j, m, e, f, least) =
      first_id-first (rotation_key jobs turns) fits (try_order jobs turns streak waiting) i ordered
        (ground (arith, free)) in
    (j, Perm.subset p j m, e, f, λ w n t. least w (Perm.subset (Perm.symm p) w n) t)
  where
    ordered : IsOrdered (rotation_key jobs turns) (try_order jobs turns streak waiting)
    ordered = try_order-IsOrdered jobs turns streak waiting fair
