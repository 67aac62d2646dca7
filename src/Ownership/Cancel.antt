-- ===== src/Ownership/Cancel.antt =====
-- What `Scheduler.authorize_cancel` (libexec/scheduler.py) lets be signalled.
use memcap.Prelude.{
  ℕ, String, Bool, true, false, ◌≡◌, ◌≢◌, inl, inr, Option, some, List, [], ◌∷◌, arith, All, keep,
  Bool-cases, Option-cases, lookup, keys, nat_eq, eq_iff,
}
use memcap.Registry.{Job}
use memcap.Processes.{Row, Table, started_as}
use memcap.Proposals.{find_job}
use memcap.Ownership.{is_asked, is_target, authorize_cancel}

-- A registered member that runs unchanged, as the user's process in the job's group.
pub record IsTarget (me : ℕ) (asked : Option ℕ) (j : Job) (table : Table) (e : ℕ × String)
    : Type 0 where
  pub row : Row
  pub found : lookup e.0 table ≡ some row
  pub unchanged : row.start ≡ e.1
  pub grouped : row.group ≡ j.group
  pub own : row.uid ≡ me
  pub wanted : is_asked asked e.0 ≡ true

module _ (me : ℕ) (asked : Option ℕ) (j : Job) (table : Table) where
  target_lem : (e : ℕ × String) → is_target me asked j table e ≡ true → IsTarget me asked j table e
  unfolding is_target
  target_lem (p, start) h = elim (Option-cases (lookup p table)) [
    | inl absent ↦ absurd (ground (arith, absent))
    | inr (r, found) ↦ record {
      row = r;
      found = found;
      unchanged = (eq_iff r.start start).0 (ground (arith, found));
      grouped = ground (arith, found);
      own = ground (arith, found);
      wanted = ground (arith, found);
    }
  ]

  keep-All :
      (ms : List (ℕ × String))
      → All (IsTarget me asked j table) (keep (is_target me asked j table) ms)
  unfolding keep
  keep-All [] = tt
  keep-All (e ∷ ms) = elim (Bool-cases (is_target me asked j table e)) [
    | inl hit ↦ rw hit (target_lem e hit, keep-All ms)
    | inr miss ↦ rw miss (keep-All ms)
  ]

-- Members are signalled only for a cancelled job, by its registered supervisor while that runs and
-- nothing is paused; and they are exactly the asked members that still run unchanged as the user's
-- processes in the job's group.
pub record IsCancellation (me : ℕ) (ident : String) (caller : ℕ) (asked : Option ℕ)
    (jobs : List Job) (table : Table) (pids : List ℕ) : Type 0 where
  pub job : Job
  pub found : find_job ident jobs ≡ some job
  pub cancelled : job.cancel ≡ true
  pub owned : job.owner ≡ caller
  pub supervised : started_as (lookup caller table) job.owner_start ≡ true
  pub exactly : pids ≡ keys (keep (is_target me asked job table) job.members)
  pub targets : All (IsTarget me asked job table) (keep (is_target me asked job table) job.members)

-- What `authorize_cancel` returns, if it is not empty, satisfies `IsCancellation`: the members of a
-- cancelled job that its running registered supervisor asks for, each still the user's unchanged
-- process in the job's group, and all of these; and nothing is paused.
pub authorize_cancel-IsCancellation :
    (me : ℕ) (ident : String) (caller : ℕ) (asked : Option ℕ) (paused : Bool) (jobs : List Job)
    (table : Table)
    → authorize_cancel me ident caller asked paused jobs table ≢ []
    → (paused ≡ false)
      × IsCancellation me ident caller asked jobs table
          (authorize_cancel me ident caller asked paused jobs table)
unfolding authorize_cancel
authorize_cancel-IsCancellation me ident caller asked paused jobs table ne =
    elim (Option-cases (find_job ident jobs)) [
      | inl absent ↦ absurd (ground (arith, absent))
      | inr (j, found) ↦ (
        ground (arith, found),
        record {
          job = j;
          found = found;
          cancelled = ground (arith, found);
          owned = ground (arith, found);
          supervised = ground (arith, found);
          exactly = ground (arith, found);
          targets = keep-All me asked j table j.members;
        },
      )
    ]
