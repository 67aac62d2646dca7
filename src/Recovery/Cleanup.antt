-- ===== src/Recovery/Cleanup.antt =====
-- `cleanup_reason` of libexec/orphan_recovery.py: what keeps an orphaned group alive.
pub mod Clear
use memcap.Prelude.{
  ℕ, String, Bool, true, false, not, ◌&&◌, ◌||◌, Option, none, some, List, [], ◌∷◌, if◌then◌else◌,
  any, all, elem, ◌==◌, Dict, lookup, nat_eq, keys, str_eq,
}
use memcap.Registry.{Job, is_running}
use memcap.Processes.{Row, Table, Try, ok, ◌>>=◌, owner, started_as}
use memcap.Helpers.{Shell, helper}
use memcap.Recovery.{bound, agent_of, agent_start_of}

-- The reasons of `cleanup_reason` and `observe`; `clear` is the empty text.
pub data Blocker : Type 0 where
  clear unverified_group origin_unverified live_origin shared_job pinned live_claim : Blocker
  lifecycle_unavailable session_project_unknown live_session unknown_work : Blocker
  network_unavailable active_clients no_server_listener grace_period eligible : Blocker

-- A session of the lifecycle collector.
pub record Session : Type 0 where
  pub owner : Option ℕ
  pub start : Option String
  pub cwd : String

pub record Network : Type 0 where
  pub known : Bool
  pub connected : List ℕ
  pub listeners : List ℕ

-- `is_agent` is `AGENT.match`, and `related` says that one of two resolved paths is the other or
-- stands below it.
pub record Host : Type 0 where
  pub shell : Shell
  pub is_agent : String → Bool
  pub related : String → String → Bool

abbrev pub starts_as : Option Row → Option String → Bool
starts_as none s = false
starts_as (some r) none = false
starts_as (some r) (some s) = str_eq r.start s

-- Another running job that registered a process of the group.
unfoldable pub is_shared : Job → List Job → Table → Bool
is_shared j jobs group =
    any
      (λ other.
        not (str_eq other.id j.id)
        && is_running other
        && any (λ e. elim (lookup e.0 other.members) [ none ↦ false | some s ↦ str_eq s e.1.start ])
            group)
      jobs

-- A claim whose process still runs.
unfoldable pub has_live_claim : ℕ → Job → Table → Bool
has_live_claim me j table =
    any (λ e. elim (lookup e.0 table) [ none ↦ false | some r ↦ str_eq r.start e.1 && r.uid == me ])
      j.claims

abbrev row_of : Option ℕ → Table → Option Row
row_of none table = none
row_of (some p) table = lookup p table

module _ (h : Host) (me : ℕ) where
  -- The loop over the sessions.
  unfoldable pub session_blocker : Job → Table → List Session → Blocker
  session_blocker j table [] = clear
  session_blocker j table (s ∷ rest) =
      let later = session_blocker j table rest in
      if starts_as (row_of s.owner table) s.start
      then (if str_eq s.cwd ""
          then session_project_unknown
          else if h.related s.cwd j.cwd
          then live_session
          else later)
      else later

  -- `(p, r["start"]) in known_agents`
  abbrev is_known_agent : List Session → ℕ × Row → Bool
  is_known_agent sessions (p, r) =
      any (λ s. (elim s.owner [ none ↦ false | some q ↦ q == p ]) && starts_as (some r) s.start)
        sessions

  unfoldable pub has_unknown_agent : Table → List Session → Bool
  has_unknown_agent table sessions =
      any (λ e. h.is_agent e.1.command && e.1.uid == me && not (is_known_agent sessions e)) table

  -- A member that an agent owns, or that is no helper.
  unfoldable pub has_unknown_work : Table → Table → Bool
  has_unknown_work table group =
      any
        (λ e.
          (elim (owner h.is_agent e.0 table) [ none ↦ false | some a ↦ true ])
          || not (helper h.shell e.1.command))
        group

  abbrev touches : List ℕ → Table → Bool
  touches pids group = any (λ e. elem e.0 pids) group

  unfoldable pub network_blocker : Network → Table → Blocker
  network_blocker net group =
      if not net.known
      then network_unavailable
      else if touches net.connected group
      then active_clients
      else if not (touches net.listeners group)
      then no_server_listener
      else clear

  -- From the sessions on.
  unfoldable pub lifecycle_blocker : Job → Table → Table → Network → Option (List Session) → Blocker
  unfolding session_blocker has_unknown_agent has_unknown_work network_blocker
  lifecycle_blocker j table group net none = lifecycle_unavailable
  lifecycle_blocker j table group net (some sessions) = elim (session_blocker j table sessions) [
    | clear ↦
        if has_unknown_agent table sessions
        then lifecycle_unavailable
        else if has_unknown_work table group
        then unknown_work
        else network_blocker net group
    | other ↦ other
  ]

  -- The origin is known and gone.
  unfoldable pub origin_blocker : Job → Table → Blocker
  unfolding started_as
  origin_blocker j table = elim (agent_of j) [
    | none ↦ origin_unverified
    | some p ↦ elim (agent_start_of j) [
      | none ↦ origin_unverified
      | some s ↦ if started_as (lookup p table) s then live_origin else clear
    ]
  ]

  -- `cleanup_reason` for a bound group.
  unfoldable pub group_blocker :
      Job → Table → Table → Network → Option (List Session) → List Job → Blocker
  unfolding origin_blocker is_shared has_live_claim lifecycle_blocker
  group_blocker j table group net sessions jobs = elim (origin_blocker j table) [
    | clear ↦
        if is_shared j jobs group
        then shared_job
        else if j.pinned
        then pinned
        else if has_live_claim me j table
        then live_claim
        else lifecycle_blocker j table group net sessions
    | other ↦ other
  ]

  -- `cleanup_reason(job, table, net, sessions, jobs)`
  unfoldable pub cleanup_reason :
      Job → Table → Network → Option (List Session) → List Job → Try Blocker
  unfolding group_blocker
  cleanup_reason j table net sessions jobs = do
    group ← bound me j table
    ok (elim group [ none ↦ unverified_group | some g ↦ group_blocker j table g net sessions jobs ])
