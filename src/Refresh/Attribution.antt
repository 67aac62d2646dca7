-- ===== src/Refresh/Attribution.antt =====
-- `refresh_footprint_members` of libexec/workload_members.py: every process counts for one job at most.
pub mod Closed
pub mod Exclusive
mod Steps
use memcap.Prelude.{
  ℕ, zero, suc, ◌+◌, String, Bool, false, not, ◌&&◌, none, some, List, [], ◌∷◌, ◌++◌, if◌then◌else◌,
  keep, elem, ◌==◌, length, map, Dict, lookup, has, put, nat_eq, keys, str_eq,
}
use memcap.Registry.{Job, is_running, footprint_members}
use memcap.Processes.{Table}

-- `{str(job["owner"]) for job in active}`
unfoldable pub owners_of : List Job → List ℕ
unfolding is_running
owners_of jobs = map (λ j. j.owner) (keep (λ j. is_running j) jobs)

-- `children.get(pid, ())`: the user's processes below this one, without the supervisors.
unfoldable pub children : ℕ → List ℕ → Table → ℕ → List ℕ
children me owners table pid =
    keys (keep (λ e. e.1.uid == me && not (elem e.0 owners) && e.1.ppid == pid) table)

-- The row is the user's, has this start, and is no supervisor.
unfoldable pub is_live_member : ℕ → List ℕ → Table → ℕ → String → Bool
is_live_member me owners table pid start = elim (lookup pid table) [
  | none ↦ false
  | some row ↦ row.uid == me && str_eq row.start start && not (elem pid owners)
]

-- `assigned[pid] = index` over the members of one job
unfoldable pub assign : ℕ → List ℕ → Table → ℕ → Dict ℕ String → Dict ℕ ℕ → Dict ℕ ℕ
unfolding is_live_member
assign me owners table index [] assigned = assigned
assign me owners table index ((p, start) ∷ members) assigned =
    assign me owners table index members
      (if is_live_member me owners table p start then put p index assigned else assigned)

-- `assigned.setdefault(pid, index)` over the members of one job
unfoldable pub assign_new : ℕ → List ℕ → Table → ℕ → Dict ℕ String → Dict ℕ ℕ → Dict ℕ ℕ
unfolding is_live_member
assign_new me owners table index [] assigned = assigned
assign_new me owners table index ((p, start) ∷ members) assigned =
    assign_new me owners table index members (
      if is_live_member me owners table p start && not (has p assigned)
      then put p index assigned
      else assigned)

-- The first loop over the running jobs: the registered groups. `index` counts the running jobs.
unfoldable pub assign_groups : ℕ → List ℕ → Table → ℕ → List Job → Dict ℕ ℕ → Dict ℕ ℕ
unfolding assign
assign_groups me owners table index [] assigned = assigned
assign_groups me owners table index (j ∷ jobs) assigned =
    if is_running j
    then assign_groups me owners table (suc index) jobs
        (assign me owners table index j.members assigned)
    else assign_groups me owners table index jobs assigned

-- The second loop: what was remembered, where nothing else claims it.
unfoldable pub assign_remembered : ℕ → List ℕ → Table → ℕ → List Job → Dict ℕ ℕ → Dict ℕ ℕ
unfolding assign_new
assign_remembered me owners table index [] assigned = assigned
assign_remembered me owners table index (j ∷ jobs) assigned =
    if is_running j
    then assign_remembered me owners table (suc index) jobs
        (assign_new me owners table index (footprint_members j) assigned)
    else assign_remembered me owners table index jobs assigned

-- The loop over the children of one process: the assignment, and the ones that join the queue.
unfoldable pub adopt : ℕ → List ℕ → Dict ℕ ℕ → Dict ℕ ℕ × List ℕ
adopt index [] assigned = (assigned, [])
adopt index (p ∷ ps) assigned =
    let skipped = adopt index ps assigned in
    let taken = adopt index ps (put p index assigned) in
    if has p assigned then skipped else (taken.0, p ∷ taken.1)

-- `while pending`, with the steps that are left. Every pending process is assigned.
unfoldable pub spread : ℕ → ℕ → List ℕ → Table → List ℕ → Dict ℕ ℕ → Dict ℕ ℕ
unfolding adopt children
spread zero me owners table pending assigned = assigned
spread (suc n) me owners table [] assigned = assigned
spread (suc n) me owners table (p ∷ pending) assigned = elim (lookup p assigned) [
  | none ↦ spread n me owners table pending assigned
  | some index ↦
      let (more, joined) = adopt index (children me owners table p) assigned in
      spread n me owners table (pending ++ joined) more
]

-- `descendants()`. A process joins the queue once, so the assigned ones and the rows of the table
-- bound the steps.
unfoldable pub spread_all : ℕ → List ℕ → Table → Dict ℕ ℕ → Dict ℕ ℕ
unfolding spread
spread_all me owners table assigned =
    spread (length assigned + length table) me owners table (keys assigned) assigned

-- The assignment of processes to the running jobs.
unfoldable pub assignment : ℕ → Table → List Job → Dict ℕ ℕ
unfolding owners_of assign_groups assign_remembered spread_all
assignment me table jobs =
    let owners = owners_of jobs in
    let groups = spread_all me owners table (assign_groups me owners table 0 jobs []) in
    spread_all me owners table (assign_remembered me owners table 0 jobs groups)

-- `table[pid]["start"]`; every assigned process is in the table.
abbrev pub start_in : Table → ℕ → String
start_in table p = elim (lookup p table) [ none ↦ "" | some row ↦ row.start ]

-- The processes of one job.
unfoldable pub share : Table → ℕ → Dict ℕ ℕ → Dict ℕ String
share table index [] = []
share table index ((p, i) ∷ assigned) =
    let rest = share table index assigned in
    if i == index then (p, start_in table p) ∷ rest else rest

-- The last two loops.
unfoldable pub give : Table → Dict ℕ ℕ → ℕ → List Job → List Job
unfolding share
give table assigned index [] = []
give table assigned index (j ∷ jobs) =
    if is_running j
    then record j { footprint_members = some (share table index assigned) }
      ∷ give table assigned (suc index) jobs
    else j ∷ give table assigned index jobs

-- `refresh_footprint_members(jobs, table, uid)`
unfoldable pub refresh_footprint_members : ℕ → Table → List Job → List Job
unfolding assignment give
refresh_footprint_members me table jobs = give table (assignment me table jobs) 0 jobs
