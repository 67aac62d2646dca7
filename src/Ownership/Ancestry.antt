-- ===== src/Ownership/Ancestry.antt =====
-- Which process `Scheduler.nested` (libexec/scheduler.py) takes to run inside a job.
use memcap.Prelude.{
  ℕ, zero, suc, ◌<◌, String, true, false, ◌≡◌, ◌↔◌, inl, inr, some, List, arith, Bool-cases,
  Option-cases, lookup, nat_eq, str_eq,
}
use memcap.Registry.{Job}
use memcap.Processes.{Row, Table}
use memcap.Ownership.{climb, has_member, find_running, nested}

-- `q` is the ancestor of `p` that many steps up.
pub data Reaches (t : Table) : ℕ → ℕ → ℕ → Type 0 where
  here : {p : ℕ} → Reaches t 0 p p
  up : {n p q : ℕ} {r : Row} → lookup p t ≡ some r → Reaches t n r.ppid q → Reaches t (suc n) p q

-- A process of the ancestry is a registered member that still runs.
pub record IsInside (steps : ℕ) (j : Job) (p : ℕ) (t : Table) : Type 0 where
  pub distance : ℕ
  pub near : distance < steps
  pub ancestor : ℕ
  pub chain : Reaches t distance p ancestor
  pub row : Row
  pub runs : lookup ancestor t ≡ some row
  pub registered : has_member j ancestor row.start ≡ true

module _ (j : Job) (t : Table) where
  climb-IsInside : (n p : ℕ) → climb n j p t ≡ true → IsInside n j p t
  unfolding climb
  climb-IsInside zero p h = absurd (ground arith)
  climb-IsInside (suc n) p h = elim (Option-cases (lookup p t)) [
    | inl absent ↦ absurd (ground (arith, absent))
    | inr (r, found) ↦ elim (Bool-cases (has_member j p r.start)) [
      | inl mine ↦ record {
        distance = 0;
        near = omega arith;
        ancestor = p;
        chain = here;
        row = r;
        runs = found;
        registered = mine;
      }
      | inr other ↦
          let i = climb-IsInside n r.ppid (ground (arith, found, other)) in
          record {
            distance = suc i.distance;
            near = omega (arith, i.near);
            ancestor = i.ancestor;
            chain = up found i.chain;
            row = i.row;
            runs = i.runs;
            registered = i.registered;
          }
    ]
  ]

  climb-Reaches :
      {d p q : ℕ} (n : ℕ) (r : Row)
      → Reaches t d p q
      → d < n
      → lookup q t ≡ some r
      → has_member j q r.start ≡ true
      → climb n j p t ≡ true
  unfolding climb
  climb-Reaches zero r c near f h = absurd (omega (arith, near))
  climb-Reaches (suc n) r here near f h = ground (arith, f, h)
  climb-Reaches (suc n) r (up e c) near f h =
      ground (arith, e, climb-Reaches n r c (omega (arith, near)) f h)

  climb_iff : (n p : ℕ) → (climb n j p t ≡ true) ↔ IsInside n j p t
  climb_iff n p =
      (climb-IsInside n p, λ i. climb-Reaches n i.row i.chain i.near i.runs i.registered)

-- A process is nested exactly if it carries a lease, the lease names a running job, and among the
-- process and its ancestors, less than 128 steps up, one is a registered member of that job that
-- still runs with the registered start.
pub nested_iff :
    (token : String) (jobs : List Job) (p : ℕ) (t : Table)
    → (nested token jobs p t ≡ true) ↔ (
        (str_eq token "" ≡ false)
        × ((j : Job) × (find_running token jobs ≡ some j) × IsInside 128 j p t))
unfolding nested
nested_iff token jobs p t = (forth, back)
  where
    forth :
        nested token jobs p t ≡ true
        → (str_eq token "" ≡ false)
          × ((j : Job) × (find_running token jobs ≡ some j) × IsInside 128 j p t)
    forth h = elim (Option-cases (find_running token jobs)) [
      | inl absent ↦ absurd (ground (arith, absent))
      | inr (j, found) ↦
          (ground (arith, found), (j, found, (climb_iff j t 128 p).0 (ground (arith, found))))
    ]

    back :
        (str_eq token "" ≡ false)
          × ((j : Job) × (find_running token jobs ≡ some j) × IsInside 128 j p t)
        → nested token jobs p t ≡ true
    back (named, (j, found, i)) = ground (arith, found, named, (climb_iff j t 128 p).1 i)
