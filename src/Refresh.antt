-- ===== src/Refresh.antt =====
-- `Scheduler.refresh` of libexec/scheduler.py and `refresh_footprint_members` of
-- libexec/workload_members.py: which jobs are still alive, and which process counts for which job.
pub mod Attribution
pub mod Kept
use memcap.Prelude.{
  ℕ, String, Bool, true, false, not, ◌&&◌, Option, none, some, List, [], ◌∷◌, if◌then◌else◌, keep,
  ◌==◌, map, Dict, lookup, nat_eq, string_eq,
}
use memcap.Registry.{Job, is_running, footprint_members}
use memcap.Processes.{Table, Try, ok, ◌>>=◌, started_as}
use memcap.Recovery.{recovered}
use memcap.Refresh.Attribution.{refresh_footprint_members}

-- `{pid: row["start"] for pid, row in table.items() if ...}`: the user's processes of the group.
unfoldable pub group_members : ℕ → Job → Table → Dict ℕ String
group_members me j table =
    map (λ e. (e.0, e.1.start))
      (keep (λ e. not (j.group == 0) && e.1.group == j.group && e.1.uid == me) table)

abbrev pub is_empty {ℓ} : {A : Type ℓ} → List A → Bool
is_empty [] = true
is_empty (x ∷ xs) = false

-- `job.setdefault("footprint_members", dict(job["members"]))`, then `job["members"] = members`
abbrev pub registered : Bool → Dict ℕ String → Job → Job
registered false now j = j
registered true now j = record j { footprint_members = some (footprint_members j); members = now }

-- One job: `none` where it leaves the registry. `recovered` of libexec/orphan_recovery.py may raise.
unfoldable pub refresh_job : ℕ → Table → ℕ → Job → Try (Option Job)
unfolding started_as is_running group_members
refresh_job me table now j =
    let alive = started_as (lookup j.owner table) j.owner_start in
    let group = group_members me j table in
    let kept = registered alive group j in
    if not (is_running j)
    then ok (if alive then some j else none)
    else if alive
    then ok (some (record kept { orphaned = false; recovery_active = false }))
    else if is_empty group
    then ok none
    else (do
      leased ← recovered me (record kept { orphaned = true }) table now
      ok (some (record kept { orphaned = true; recovery_active = leased })))

-- The loop over the jobs.
unfoldable pub refresh_jobs : ℕ → Table → ℕ → List Job → Try (List Job)
unfolding refresh_job
refresh_jobs me table now [] = ok []
refresh_jobs me table now (j ∷ jobs) =
    let later = refresh_jobs me table now jobs in
    (do
      kept ← refresh_job me table now j
      rest ← later
      ok (elim kept [ none ↦ rest | some k ↦ k ∷ rest ]))

-- `refresh(data, table)`: the jobs that stay, with what counts for each.
unfoldable pub refresh : ℕ → Table → ℕ → List Job → Try (List Job)
unfolding refresh_jobs refresh_footprint_members
refresh me table now jobs = do
  live ← refresh_jobs me table now jobs
  ok (refresh_footprint_members me table live)
