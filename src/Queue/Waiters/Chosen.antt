-- ===== src/Queue/Waiters/Chosen.antt =====
-- `next_waiter` of libexec/scheduler.py over a whole registry.
use mathlib.Core.List.{Mem, mem-cons_self, mem-cons_of_mem, not-mem-nil, eq-or-mem_of_mem-cons}
use mathlib.Core.List.Perm
use mathlib.Core.Logic.Or
use memcap.Prelude.{
  ap, String, Bool, true, false, ◌≡◌, ◌⊎◌, inl, inr, none, some, List, [], ◌∷◌, arith, keep,
  Bool-cases, lookup, get_or, string_eq,
}
use memcap.Values.{Field, amount}
use memcap.Registry.{Job, is_running}
use memcap.Queue.Waiters.{Moment, Turns, arrival_key, is_waiting, waiters, fit_all, next_waiter}
use memcap.Queue.Waiters.Fitting.{Allowed, Refused, fit_all_sound, Refused-Mem}
use memcap.Queue.Waiters.Sorting.{sort_by-perm}
use memcap.Queue.Waiters.Choice.{IsHoldingBack, choose-found, choose-none}

keep_waiting :
    (jobs : List Job) (j : Job) → Mem j (keep is_waiting jobs) → Mem j jobs × (is_running j ≡ false)
unfolding keep
keep_waiting [] j m = absurd (not-mem-nil m)
keep_waiting (k ∷ jobs) j m = elim (Bool-cases (is_running k)) [
  | inl busy ↦
      let (rest, idle) = keep_waiting jobs j (rw busy at m) in (mem-cons_of_mem k rest, idle)
  | inr idle ↦
      Or.elim (hlevel) (eq-or-mem_of_mem-cons (rw idle at m)) (λ e. (rw e mem-cons_self, rw e idle))
        (λ n. let (rest, i) = keep_waiting jobs j n in (mem-cons_of_mem k rest, i))
]

mem-keep_waiting :
    (jobs : List Job) (j : Job) → Mem j jobs → is_running j ≡ false → Mem j (keep is_waiting jobs)
unfolding keep
mem-keep_waiting [] j m idle = absurd (not-mem-nil m)
mem-keep_waiting (k ∷ jobs) j m idle = elim (Bool-cases (is_running k)) [
  | inl busy ↦ rw busy (
      Or.elim (hlevel) (eq-or-mem_of_mem-cons m) (λ e. absurd (ground (arith, ap is_running e)))
        (λ rest. mem-keep_waiting jobs j rest idle))
  | inr free ↦ rw free (
      Or.elim (hlevel) (eq-or-mem_of_mem-cons m) (λ e. rw e mem-cons_self)
        (λ rest. mem-cons_of_mem k (mem-keep_waiting jobs j rest idle)))
]

module _ (m : Moment) (jobs : List Job) (turns : Turns) (streak : Field) where
  -- The verdict that `next_waiter` records for a waiter, and the registry that it leaves.
  abbrev pub verdict : Job → Bool
  verdict j = get_or false j.id (fit_all m jobs (waiters jobs turns m.wall) []).1

  abbrev pub left : List Job
  left = (fit_all m jobs (waiters jobs turns m.wall) []).0

  waiters-Mem : (j : Job) → Mem j (waiters jobs turns m.wall) → Mem j jobs × (is_running j ≡ false)
  unfolding waiters
  waiters-Mem j n =
      keep_waiting jobs j
        (Perm.subset (sort_by-perm (arrival_key turns m.wall) (keep is_waiting jobs)) j n)

  mem-waiters : (j : Job) → Mem j jobs → is_running j ≡ false → Mem j (waiters jobs turns m.wall)
  unfolding waiters
  mem-waiters j n idle =
      Perm.subset (Perm.symm (sort_by-perm (arrival_key turns m.wall) (keep is_waiting jobs))) j
        (mem-keep_waiting jobs j n idle)

  -- What `next_waiter` chooses is a waiting job of the registry. Either a waiter with its
  -- identifier was allowed by `decide` once the reservations had been renewed, or one was refused
  -- and the choice is a heavy waiter that holds all the others back: it has waited for a minute
  -- while a finite job runs, and in adaptive mode its wait is in the first six of a period of
  -- thirty seconds.
  pub next_waiter-found :
      (i : String)
      → (next_waiter m jobs turns streak).1 ≡ some i
      → (j : Job) × Mem j jobs
        × (is_running j ≡ false)
        × (j.id ≡ i)
        × (Allowed m jobs (waiters jobs turns m.wall) i
            ⊎ Refused m jobs (waiters jobs turns m.wall) i
              × IsHoldingBack m.settings.policy left m.wall verdict j)
  unfolding next_waiter
  next_waiter-found i h =
      let (j, n, e, why) =
        choose-found m.settings.policy left turns m.wall (amount streak) verdict
          (waiters jobs turns m.wall) i h in
      let (there, idle) = waiters-Mem j n in (j, there, idle, e, reason j n e why)
    where
      reason :
          (j : Job)
          → Mem j (waiters jobs turns m.wall)
          → j.id ≡ i
          → (verdict j ≡ true) ⊎ IsHoldingBack m.settings.policy left m.wall verdict j
          → Allowed m jobs (waiters jobs turns m.wall) i
            ⊎ Refused m jobs (waiters jobs turns m.wall) i
              × IsHoldingBack m.settings.policy left m.wall verdict j
      reason j n e (inr aged) =
          inr (rw (← e) (Refused-Mem m jobs (waiters jobs turns m.wall) j n aged.unfit), aged)
      reason j n e (inl fits) =
          elim (fit_all_sound m jobs (waiters jobs turns m.wall) [] i (rw e at fits)) [
            | inl there ↦ absurd (nothing there)
            | inr allowed ↦ inl allowed
          ]
        where
          nothing : get_or false i [] ≡ true → ⊥
          nothing h = unfold get_or lookup in cc h

  -- If `next_waiter` chooses nobody, then for every waiting job of the registry a waiter with its
  -- identifier was refused by `decide` once the reservations had been renewed.
  pub next_waiter-none :
      (next_waiter m jobs turns streak).1 ≡ none
      → (j : Job) → Mem j jobs
      → is_running j ≡ false
      → Refused m jobs (waiters jobs turns m.wall) j.id
  unfolding next_waiter
  next_waiter-none h j n idle =
      let there = mem-waiters j n idle in
      Refused-Mem m jobs (waiters jobs turns m.wall) j there (
        choose-none m.settings.policy left turns m.wall (amount streak) verdict
          (waiters jobs turns m.wall) h j there)
