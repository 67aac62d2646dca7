-- ===== src/Refresh/Kept.antt =====
-- `Scheduler.refresh` of libexec/scheduler.py discards no reservation of a live job, and counts no
-- process twice.
use memcap.Prelude.{
  ℕ, ◌+◌, ◌≤◌, String, Bool, true, false, not, ◌&&◌, ◌||◌, ◌≡◌, inl, inr, refl, sym, Option, none,
  some, List, [], ◌∷◌, arith, All, any, Bool-cases, Dict, lookup, nat_eq, str_eq, eq_iff,
}
use mathlib.Core.Path.{subst}
use memcap.Registry.{Job, is_running}
use memcap.Processes.{Table, Try-cases, ok, started_as}
use memcap.Refresh.Attribution.{assignment, give, refresh_footprint_members}
use memcap.Refresh.Attribution.Exclusive.{holders, refresh_footprint_members-IsExclusive}
use memcap.Refresh.{group_members, is_empty, refresh_job, refresh_jobs, refresh}

-- A job with this identifier is there.
abbrev pub has_id : String → List Job → Bool
has_id id jobs = any (λ j. str_eq j.id id) jobs

-- The supervisor runs, or the group of a running job does.
abbrev pub is_alive : ℕ → Table → Job → Bool
is_alive me table j =
    started_as (lookup j.owner table) j.owner_start
    || (is_running j && not (is_empty (group_members me j table)))

give-has_id :
    (id : String) (table : Table) (assigned : Dict ℕ ℕ) (i : ℕ) (jobs : List Job)
    → has_id id (give table assigned i jobs) ≡ has_id id jobs
unfolding give any
give-has_id id table assigned i [] = refl
give-has_id id table assigned i (j ∷ jobs) =
    ground (arith, give-has_id id table assigned i jobs, give-has_id id table assigned (1 + i) jobs)

-- The list with the job that stays.
abbrev with_kept : Option Job → List Job → List Job
with_kept none rest = rest
with_kept (some k) rest = k ∷ rest

module _ (me : ℕ) (table : Table) (now : ℕ) where
  -- What a job that is handled leaves in the registry.
  abbrev IsHandled : Job → Option Job → Type 0
  IsHandled j none = is_alive me table j ≡ false
  IsHandled j (some k) = k.id ≡ j.id

  refresh_job-waiting :
      (j : Job) (kept : Option Job)
      → is_running j ≡ false
      → refresh_job me table now j ≡ ok kept
      → IsHandled j kept
  unfolding refresh_job
  refresh_job-waiting j none waits h = ground (arith, waits, h)
  refresh_job-waiting j (some k) waits h = ground (arith, waits, h)

  refresh_job-running :
      (j : Job) (kept : Option Job)
      → is_running j ≡ true
      → refresh_job me table now j ≡ ok kept
      → IsHandled j kept
  unfolding refresh_job
  refresh_job-running j none runs h = ground (arith, runs, h)
  refresh_job-running j (some k) runs h = ground (arith, runs, h)

  refresh_job-IsHandled :
      (j : Job) (kept : Option Job) → refresh_job me table now j ≡ ok kept → IsHandled j kept
  refresh_job-IsHandled j kept h = elim (Bool-cases (is_running j)) [
    | inl runs ↦ refresh_job-running j kept runs h
    | inr waits ↦ refresh_job-waiting j kept waits h
  ]

  refresh_jobs_cons :
      (j : Job) (jobs live : List Job)
      → refresh_jobs me table now (j ∷ jobs) ≡ ok live
      → (kept : Option Job) × (rest : List Job) × (refresh_job me table now j ≡ ok kept)
        × (refresh_jobs me table now jobs ≡ ok rest)
        × (live ≡ with_kept kept rest)
  unfolding refresh_jobs
  refresh_jobs_cons j jobs live h = elim (Try-cases (refresh_job me table now j)) [
    | inr failed ↦ absurd (ground (arith, h, failed))
    | inl (kept, one) ↦ elim (Try-cases (refresh_jobs me table now jobs)) [
      | inr failed ↦ absurd (ground (arith, h, one, failed))
      | inl (rest, later) ↦ (kept, rest, one, later, ground (arith, h, one, later))
    ]
  ]

  has_id-with_kept :
      (id : String) (kept : Option Job) (rest : List Job)
      → has_id id rest ≡ true
      → has_id id (with_kept kept rest) ≡ true
  unfolding any
  has_id-with_kept id none rest h = h
  has_id-with_kept id (some k) rest h = ground (arith, h)

  has_id-here :
      (j : Job) (kept : Option Job) (rest : List Job)
      → IsHandled j kept
      → is_alive me table j ≡ true
      → has_id j.id (with_kept kept rest) ≡ true
  unfolding any
  has_id-here j none rest gone alive = absurd (ground (arith, gone, alive))
  has_id-here j (some k) rest same alive = ground (arith, eq_iff k.id j.id, same)

  -- The jobs that have to stay are in the list.
  abbrev AllKept : List Job → List Job → Type 0
  AllKept live jobs = All (λ j. is_alive me table j ≡ true → has_id j.id live ≡ true) jobs

  AllKept-with_kept :
      (kept : Option Job) (rest jobs : List Job)
      → AllKept rest jobs
      → AllKept (with_kept kept rest) jobs
  AllKept-with_kept kept rest [] h = tt
  AllKept-with_kept kept rest (j ∷ jobs) h =
      (λ alive. has_id-with_kept j.id kept rest (h.0 alive), AllKept-with_kept kept rest jobs h.1)

  refresh_jobs-AllKept :
      (jobs live : List Job) → refresh_jobs me table now jobs ≡ ok live → AllKept live jobs
  refresh_jobs-AllKept [] live h = tt
  refresh_jobs-AllKept (j ∷ jobs) live h =
      let (kept, rest, one, later, same) = refresh_jobs_cons j jobs live h in
      subst (λ l. AllKept l (j ∷ jobs)) (sym same)
        (
          has_id-here j kept rest (refresh_job-IsHandled j kept one),
          AllKept-with_kept kept rest jobs (refresh_jobs-AllKept jobs rest later),
        )

  AllKept-attributed :
      (live jobs : List Job)
      → AllKept live jobs
      → AllKept (refresh_footprint_members me table live) jobs
  unfolding refresh_footprint_members
  AllKept-attributed live [] h = tt
  AllKept-attributed live (j ∷ jobs) h = (
    λ alive. rw (give-has_id j.id table (assignment me table live) 0 live) (h.0 alive),
    AllKept-attributed live jobs h.1,
  )

  -- Where `refresh` succeeds, every job stays whose supervisor runs, or which runs and has a process
  -- of the user in its group, and no process counts for two running jobs.
  pub refresh-kept :
      (jobs live : List Job)
      → refresh me table now jobs ≡ ok live
      → All (λ j. is_alive me table j ≡ true → has_id j.id live ≡ true) jobs
        × ((p : ℕ) → holders p live ≤ 1)
  unfolding refresh
  refresh-kept jobs live h = elim (Try-cases (refresh_jobs me table now jobs)) [
    | inr failed ↦ absurd (ground (arith, h, failed))
    | inl (stay, found) ↦
        let same : live ≡ refresh_footprint_members me table stay = ground (arith, h, found) in
        subst (λ l. AllKept l jobs × ((p : ℕ) → holders p l ≤ 1)) (sym same)
          (
            AllKept-attributed stay jobs (refresh_jobs-AllKept jobs stay found),
            λ p. refresh_footprint_members-IsExclusive me table stay p,
          )
  ]
