-- ===== src/Recovery/Grace/Disposal.antt =====
-- What `authorize` of libexec/orphan_recovery.py lets be signalled.
use memcap.Prelude.{
  ℕ, ◌-◌, ◌≤◌, max, Bool, true, false, ◌&&◌, ◌||◌, ◌≡◌, ◌≢◌, inl, inr, refl, ap, ◌∙◌, Option, none,
  some, List, [], ◌∷◌, arith, All, all, Bool-cases, Dict, lookup, keys, nat_eq,
}
use memcap.Registry.{Job}
use memcap.Processes.{Table, Try-cases, ok}
use memcap.Proposals.{Member, member, matches_member, is_recent}
use memcap.Proposals.Checks.{matches_lem}
use memcap.Recovery.{grace, bound, recovered, is_current}
use memcap.Recovery.Cleanup.{Blocker, clear, Session, Network, Host, cleanup_reason}
use memcap.Recovery.Cleanup.Clear.{IsClear, cleanup_reason-IsClear}
use memcap.Recovery.Grace.{
  Proposal, is_clear, same_job, grace_passed, members_match, authorize_job, authorize, since_of,
  clear_since_of,
}
use memcap.Recovery.Bound.{IsBound, bound-IsBound}

all-All :
    (ms : Dict ℕ Member) (group : Table)
    → all (matches_member ms) group ≡ true
    → All (λ e. lookup e.0 ms ≡ some (member e.1)) group
unfolding all
all-All ms [] h = tt
all-All ms (e ∷ group) h = (matches_lem ms e (ground arith), all-All ms group (ground arith))

-- What an authorized cleanup rests on.
pub record IsDisposable (h : Host) (me : ℕ) (proposal : Proposal) (table : Table) (net : Network)
    (sessions : Option (List Session)) (now : ℕ) (jobs : List Job) (j : Job) (pids : List ℕ)
    : Type 0 where
  pub group : Table
  pub same : same_job j proposal ≡ true
  pub recent : is_recent proposal.at now ≡ true
  pub bound_group : IsBound me j table group
  pub all_of_group : pids ≡ keys group
  pub cleared : IsClear h me j table group net sessions jobs
  pub leased : is_current j.recovery now ≡ true
  pub waited : grace ≤ now - max (since_of j.recovery now) (clear_since_of j.recovery now)
  pub proposed : All (λ e. lookup e.0 proposal.members ≡ some (member e.1)) group

recovered-current :
    (me : ℕ) (j : Job) (table : Table) (now : ℕ)
    → recovered me j table now ≡ ok true
    → is_current j.recovery now ≡ true
unfolding recovered
recovered-current me j table now h = elim (Try-cases (bound me j table)) [
  | inr failed ↦ absurd (ground (arith, failed))
  | inl (none, b) ↦ absurd (ground (arith, b))
  | inl (some g, b) ↦ ground (arith, b)
]

pub clear_of : (b : Blocker) → is_clear b ≡ true → b ≡ clear
clear_of b h = ground arith

members_match-All :
    (proposal : Proposal) (j : Job) (table : Table) (now : ℕ) (escalating : Bool)
    → members_match proposal j table now escalating ≡ true
    → (grace ≤ now - max (since_of j.recovery now) (clear_since_of j.recovery now))
      × (all (matches_member proposal.members) table ≡ true)
unfolding members_match grace_passed
members_match-All proposal j table now escalating h = ground arith

module _ (h : Host) (me : ℕ) (proposal : Proposal) (j : Job) (table : Table) (net : Network)
    (sessions : Option (List Session)) (now : ℕ) (escalating : Bool) (jobs : List Job) where
  leased_lem :
      (leased : Bool)
      → recovered me j table now ≡ ok leased
      → (leased || escalating && is_current j.recovery now) ≡ true
      → is_current j.recovery now ≡ true
  leased_lem true r may = recovered-current me j table now r
  leased_lem false r may = ground arith

  authorize_checks :
      (pids : List ℕ)
      → authorize_job h me proposal j table net sessions now escalating jobs ≡ ok pids
      → pids ≢ []
      → (group : Table) × (bound me j table ≡ ok (some group))
        × (is_current j.recovery now ≡ true)
        × (cleanup_reason h me j table net sessions jobs ≡ ok clear)
        × (members_match proposal j group now escalating ≡ true)
        × (pids ≡ keys group)
  unfolding authorize_job
  authorize_checks pids a ne = elim (Try-cases (bound me j table)) [
    | inr failed ↦ absurd (ground (arith, failed))
    | inl (none, b) ↦ absurd (ground (arith, b))
    | inl (some g, b) ↦ elim (Try-cases (recovered me j table now)) [
      | inr failed ↦ absurd (ground (arith, b, failed))
      | inl (leased, r) ↦ elim (Bool-cases (leased || escalating && is_current j.recovery now)) [
        | inr stop ↦ absurd (ground (arith, b, r, stop))
        | inl may ↦ elim (Try-cases (cleanup_reason h me j table net sessions jobs)) [
          | inr failed ↦ absurd (ground (arith, b, r, may, failed))
          | inl (reason, c) ↦
              let both : (is_clear reason && members_match proposal j g now escalating ≡ true)
                  × (pids ≡ keys g) =
                ground (arith, b, r, may, c) in
              (
                g,
                b,
                leased_lem leased r may,
                c ∙ ap ok (clear_of reason (ground (arith, both))),
                ground (arith, both),
                both.1,
              )
        ]
      ]
    ]
  ]

module _ (h : Host) (me : ℕ) (proposal : Proposal) (j : Job) (table : Table) (net : Network)
    (sessions : Option (List Session)) (now : ℕ) where
  -- Whatever is authorized to be signalled is the whole bound group of the orphaned job that was
  -- proposed, at most half a minute after the proposal and never while recovery is paused. Nothing
  -- keeps the group, its lease is current, two minutes have passed since it was first seen and since
  -- it was last blocked, and every member is the proposed process.
  pub authorize-IsDisposable :
      (escalating paused : Bool) (jobs : List Job) (pids : List ℕ)
      → authorize h me proposal (some j) table net sessions now escalating paused jobs ≡ ok pids
      → pids ≢ []
      → (paused ≡ false) × IsDisposable h me proposal table net sessions now jobs j pids
  unfolding authorize
  authorize-IsDisposable escalating true jobs pids a ne = absurd (ground arith)
  authorize-IsDisposable escalating false jobs pids a ne =
      elim (Bool-cases (is_recent proposal.at now)) [
        | inr old ↦ absurd (ground (arith, old))
        | inl recent ↦ elim (Bool-cases (same_job j proposal)) [
          | inr other ↦ absurd (ground (arith, recent, other))
          | inl same ↦
              let checks =
                authorize_checks h me proposal j table net sessions now escalating jobs pids
                  (ground (arith, recent, same)) ne in
              let (group, b, leased, reason, matched, whole) = checks in
              let (waited, members) = members_match-All proposal j group now escalating matched in
              (
                refl,
                record {
                  group = group;
                  same = same;
                  recent = recent;
                  bound_group = bound-IsBound me j table group b;
                  all_of_group = whole;
                  cleared = cleanup_reason-IsClear h me j table group net jobs sessions reason b;
                  leased = leased;
                  waited = waited;
                  proposed = all-All proposal.members group members;
                },
              )
        ]
      ]
