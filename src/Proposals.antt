-- ===== src/Proposals.antt =====
-- What the planners of libexec/boot_timeout.py, libexec/poll_cleanup.py and
-- libexec/orphan_recovery.py share: proposals are checked again against a fresh process table.
pub mod Checks
use memcap.Prelude.{
  ℕ, ◌-◌, String, Bool, true, false, ◌&&◌, Option, none, some, List, [], ◌∷◌, if◌then◌else◌, keep,
  all, leb, ◌==◌, Dict, lookup, nat_eq, str_eq,
}
use memcap.Registry.{Job}
use memcap.Processes.{Row, Table, Try, ok, ◌>>=◌, subset, descendants}

-- `dict(start=..., command=...)` of a member
pub record Member : Type 0 where
  pub start : String
  pub command : String

-- `{p: r for p, r in table.items() if r["group"] == job["group"]}`
unfoldable pub group_of : Job → Table → Table
group_of j table = keep (λ e. e.1.group == j.group) table

abbrev pub member : Row → Member
member r = record { start = r.start; command = r.command }

unfoldable pub members_of : Table → Dict ℕ Member
members_of [] = []
members_of ((p, r) ∷ t) = (p, member r) ∷ members_of t

-- `set(xs) == set(ys)`
abbrev pub same_set : List ℕ → List ℕ → Bool
same_set xs ys = subset xs ys && subset ys xs

-- `proposal["members"][p]` has this start and this command.
unfoldable pub matches_member : Dict ℕ Member → ℕ × Row → Bool
matches_member ms (p, r) = elim (lookup p ms) [
  | none ↦ false
  | some m ↦ str_eq r.start m.start && str_eq r.command m.command
]

-- The loop over the group: every member is the proposed process and starts nothing outside.
unfoldable pub check_members : Dict ℕ Member → List ℕ → Table → Table → Try Bool
unfolding matches_member
check_members ms inside table [] = ok true
check_members ms inside table (e ∷ rest) =
    let later = check_members ms inside table rest in
    if matches_member ms e
    then (do below ← descendants e.0 table; (if subset below inside then later else ok false))
    else ok false

-- One direction of `fresh["members"] == proposal["members"]`.
unfoldable pub agrees : Dict ℕ Member → Dict ℕ Member → Bool
agrees [] bs = true
agrees ((p, m) ∷ as') bs =
    (elim (lookup p bs) [
      | none ↦ false
      | some n ↦ str_eq m.start n.start && str_eq m.command n.command
    ])
    && agrees as' bs

-- `next((j for j in jobs if j["id"] == ...), None)`
unfoldable pub find_job : String → List Job → Option Job
find_job i [] = none
find_job i (j ∷ js) = if str_eq j.id i then some j else find_job i js

-- `0 <= now - at <= 30`
abbrev pub is_recent : ℕ → ℕ → Bool
is_recent at now = leb at now && leb (now - at) 30000
