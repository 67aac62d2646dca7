-- ===== src/Queue/Waiters/Choice.antt =====
-- What `next_waiter` (libexec/scheduler.py) can choose.
use mathlib.Core.List.{
  perm_append_comm, Mem, Perm, mem-cons_self, mem-cons_of_mem, not-mem-nil, eq-or-mem_of_mem-cons,
}
use mathlib.Core.List.Perm
use mathlib.Core.Logic.Or
use memcap.Prelude.{
  ℕ, ◌+◌, ◌-◌, ◌*◌, ◌%◌, ◌<◌, ◌≤◌, ◌&&◌, String, Bool, true, false, not, ◌≡◌, ◌⊎◌, inl, inr, Option,
  none, some, Option-cases, List, [], ◌∷◌, ◌++◌, arith, keep, Bool-cases, if◌then◌else◌, leb, any,
  all,
}
use memcap.Registry.{Job, is_running, is_resource}
use memcap.Admission.{Mode, is_adaptive, second, time_or}
use memcap.Lanes.{lane, is_heavy, is_version}
use memcap.Queue.Waiters.{
  sort_by, Turns, rotation_key, is_heavy_job, holds_back, try_order, first_id, choose, small_burst,
}
use memcap.Queue.Waiters.Sorting.{sort_by-perm, keep-perm}

module _ (test : Job → Bool) where
  -- The first job that passes the test.
  pub first_id-found :
      (js : List Job) (i : String)
      → first_id test js ≡ some i
      → (j : Job) × Mem j js × (j.id ≡ i) × (test j ≡ true)
  unfolding first_id
  first_id-found [] i h = cc
  first_id-found (j ∷ js) i h = elim (Bool-cases (test j)) [
    | inl passed ↦ (j, mem-cons_self, ground arith, passed)
    | inr failed ↦
        let (k, m, e, p) = first_id-found js i (ground arith) in (k, mem-cons_of_mem j m, e, p)
  ]

  pub first_id-none :
      (js : List Job) → first_id test js ≡ none → (j : Job) → Mem j js → test j ≡ false
  unfolding first_id
  first_id-none [] h j m = absurd (not-mem-nil m)
  first_id-none (k ∷ js) h j m =
      Or.elim (hlevel) (eq-or-mem_of_mem-cons m) (λ e. rw e (ground arith))
        (first_id-none js (ground arith) j)

keep-Mem : (p : Job → Bool) (js : List Job) (j : Job) → Mem j (keep p js) → Mem j js
unfolding keep
keep-Mem p [] j m = m
keep-Mem p (k ∷ js) j m = elim (Bool-cases (p k)) [
  | inl kept ↦
      Or.elim (hlevel) (eq-or-mem_of_mem-cons (rw kept at m)) (λ e. rw e mem-cons_self)
        (λ rest. mem-cons_of_mem k (keep-Mem p js j rest))
  | inr dropped ↦ mem-cons_of_mem k (keep-Mem p js j (rw dropped at m))
]

keep-true : (p : Job → Bool) (js : List Job) (j : Job) → Mem j (keep p js) → p j ≡ true
unfolding keep
keep-true p [] j m = absurd (not-mem-nil m)
keep-true p (k ∷ js) j m = elim (Bool-cases (p k)) [
  | inl kept ↦
      Or.elim (hlevel) (eq-or-mem_of_mem-cons (rw kept at m)) (λ e. rw e kept)
        (λ rest. keep-true p js j rest)
  | inr dropped ↦ keep-true p js j (rw dropped at m)
]

any-Mem : (p : Job → Bool) (js : List Job) → any p js ≡ true → (j : Job) × Mem j js × (p j ≡ true)
unfolding any
any-Mem p [] h = cc
any-Mem p (k ∷ js) h = elim (Bool-cases (p k)) [
  | inl here ↦ (k, mem-cons_self, here)
  | inr other ↦ let (j, m, y) = any-Mem p js (ground (arith, other)) in (j, mem-cons_of_mem k m, y)
]

-- The order in which the waiters are tried loses none and invents none.
pub try_order-perm :
    (jobs : List Job) (turns : Turns) (streak : ℕ) (waiting : List Job)
    → Perm (try_order jobs turns streak waiting) waiting
unfolding try_order
try_order-perm jobs turns streak waiting =
    let small_last = keep-perm is_heavy_job waiting in
    let small_first =
      Perm.trans
        (perm_append_comm (keep (λ j. not (is_heavy_job j)) waiting) (keep is_heavy_job waiting))
        small_last in
    rotated
      (if any (λ j. not (is_version 1 j.lane_version)) waiting
        then waiting
        else if leb small_burst streak
        then keep is_heavy_job waiting ++ keep (λ j. not (is_heavy_job j)) waiting
        else keep (λ j. not (is_heavy_job j)) waiting ++ keep is_heavy_job waiting)
      (elim (Bool-cases (any (λ j. not (is_version 1 j.lane_version)) waiting)) [
        | inl legacy ↦ rw legacy (Perm.refl waiting)
        | inr laned ↦ elim (Bool-cases (leb small_burst streak)) [
          | inl burst ↦ rw (laned, burst) small_last
          | inr calm ↦ rw (laned, calm) small_first
        ]
      ])
  where
    rotated :
        (ordered : List Job)
        → Perm ordered waiting
        → Perm
            (if all (λ j. is_version 2 j.fairness_version) waiting
              then sort_by (rotation_key jobs turns) ordered
              else ordered)
            waiting
    rotated ordered p = elim (Bool-cases (all (λ j. is_version 2 j.fairness_version) waiting)) [
      | inl fair ↦ rw fair (Perm.trans (sort_by-perm (rotation_key jobs turns) ordered) p)
      | inr legacy ↦ rw legacy p
    ]

-- A heavy waiter that does not fit has waited for a minute, a finite job runs, and in adaptive mode
-- the wait is in the first six of every thirty seconds.
pub record IsHoldingBack (policy : Mode) (jobs : List Job) (now : ℕ) (fits : Job → Bool) (j : Job)
    : Type 0 where
  pub heavy : is_heavy (lane j) ≡ true
  pub unfit : fits j ≡ false
  pub aged : time_or now j.enqueued + 60 * second ≤ now
  pub window :
      (is_adaptive policy ≡ false) ⊎ ((now - time_or now j.enqueued) % (30 * second) < 6 * second)
  pub occupied : (r : Job) × Mem r jobs × (is_running r ≡ true) × (is_resource r.resource ≡ false)

holds_back-IsHoldingBack :
    (policy : Mode) (jobs : List Job) (now : ℕ) (fits : Job → Bool) (j : Job)
    → is_heavy_job j ≡ true
    → holds_back policy jobs now fits j ≡ true
    → IsHoldingBack policy jobs now fits j
unfolding holds_back
holds_back-IsHoldingBack policy jobs now fits j big h =
    let (r, m, runs) =
      any-Mem (λ r. is_running r && not (is_resource r.resource)) jobs (ground arith) in
    record {
      heavy = big;
      unfit = ground arith;
      aged = ground arith;
      window = ground arith;
      occupied = (r, m, ground (arith, runs), ground (arith, runs));
    }

module _ (policy : Mode) (jobs : List Job) (turns : Turns) (now streak : ℕ) (fits : Job → Bool)
    (waiting : List Job) where
  -- What is chosen is a waiter that fits, or an aged heavy waiter that holds back all the others.
  pub choose-found :
      (i : String)
      → choose policy jobs turns now streak fits waiting ≡ some i
      → (j : Job) × Mem j waiting
        × (j.id ≡ i)
        × ((fits j ≡ true) ⊎ IsHoldingBack policy jobs now fits j)
  unfolding choose
  choose-found i h = elim (Option-cases first) [
    | inl nobody ↦
        let (j, m, e, f) =
          first_id-found fits (try_order jobs turns streak waiting) i (ground (arith, nobody)) in
        (j, Perm.subset (try_order-perm jobs turns streak waiting) j m, e, inl f)
    | inr (k, aged) ↦
        let (j, m, e, f) =
          first_id-found (holds_back policy jobs now fits) (keep is_heavy_job waiting) i
            (ground (arith, aged)) in
        (
          j,
          keep-Mem is_heavy_job waiting j m,
          e,
          inr (
              holds_back-IsHoldingBack policy jobs now fits j (keep-true is_heavy_job waiting j m)
                f),
        )
  ]
    where
      first : Option String
      first = first_id (holds_back policy jobs now fits) (keep is_heavy_job waiting)

  -- Nothing is chosen only if no waiter fits.
  pub choose-none :
      choose policy jobs turns now streak fits waiting ≡ none
      → (j : Job) → Mem j waiting
      → fits j ≡ false
  unfolding choose
  choose-none h j m =
      first_id-none fits (try_order jobs turns streak waiting) (ground arith) j
        (Perm.subset (Perm.symm (try_order-perm jobs turns streak waiting)) j m)
