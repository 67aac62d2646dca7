-- ===== src/Recovery/Grace/Watched.antt =====
-- What `observe` of libexec/orphan_recovery.py proposes.
use memcap.Prelude.{ℕ, ◌-◌, ◌≤◌, max, true, ◌≡◌, map, some, nat_eq}
use memcap.Registry.{Job, Lease}
use memcap.Processes.{Table}
use memcap.Recovery.{grace, is_current, same_members, same_commands, starts_of, commands_of}
use memcap.Recovery.Grace.{Proposal}

-- Before a proposal, the same processes have been under observation for the whole grace.
pub record IsWatched (j : Job) (group : Table) (now : ℕ) : Type 0 where
  pub lease : Lease
  pub held : j.recovery ≡ some lease
  pub members : same_members (some lease) (starts_of group) ≡ true
  pub commands : same_commands (some lease) (commands_of group) ≡ true
  pub current : is_current (some lease) now ≡ true
  pub waited : grace ≤ now - max lease.since lease.clear_since

-- The proposal names the job with its owner and its group, and every process of the group with its
-- start and its command.
pub record IsProposal (j : Job) (group : Table) (now : ℕ) (p : Proposal) : Type 0 where
  pub job : p.job_id ≡ j.id
  pub owner : (p.owner ≡ j.owner) × (p.owner_start ≡ j.owner_start)
  pub of_group : p.group ≡ j.group
  pub at : p.at ≡ now
  pub members :
      p.members ≡ map (λ e. (e.0, record { start = e.1.start; command = e.1.command })) group
