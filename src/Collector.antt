-- ===== src/Collector.antt =====
-- The session collector of libexec/idle_gc.py: the state of `Collector` and what it takes from
-- elsewhere. Lifecycle events of agents tell which sessions are idle; helpers below an idle agent
-- are candidates, and an old candidate that is still quiet may be ended.
pub mod Event
pub mod Eligible
pub mod Scan
pub mod Pending
use memcap.Prelude.{
  ℕ, String, Bool, true, false, Option, List, [], ◌∷◌, keep, any, Dict, lookup, nat_eq, str_eq,
}
use memcap.Processes.{Table, started_as}
use memcap.Helpers.{Shell}

-- Regular expressions and paths: `is_agent` is `AGENT.match`, `is_browser` is `browser`,
-- `is_simulator` is `SIM.match`, `is_browser_helper` is `browser_helper`, `exe` is `executable`,
-- `names_mcp` is `MCP.search`, `names_tsx` and `execs_tsx` are the two searches for tsx.
pub record Shapes : Type 0 where
  pub shell : Shell
  pub is_agent : String → Bool
  pub is_browser : String → Bool
  pub is_simulator : String → Bool
  pub is_browser_helper : String → Bool
  pub exe : String → String
  pub names_mcp : String → Bool
  pub names_tsx : String → Bool
  pub execs_tsx : String → Bool

pub data Phase : Type 0 where
  active idle : Phase

-- A tracked session. `children` is a set of identifiers.
pub record Session : Type 0 where
  pub owner : ℕ
  pub start : String
  pub phase : Phase
  pub children : List String
  pub at : ℕ
  pub ended : Bool
  pub cwd : String

pub data Kind : Type 0 where
  abandoned_simulator browser dev_server : Kind

-- `[start, command, cpu]` of a process
pub record Mark : Type 0 where
  pub start : String
  pub command : String
  pub cpu : ℕ

abbrev pub Signature : Type 0
Signature = Dict ℕ Mark

-- A candidate for collection; `owner` is `none` for a simulator, where the code has the empty text.
pub record Candidate : Type 0 where
  pub pid : ℕ
  pub kind : Kind
  pub owner : Option ℕ
  pub members : List ℕ
  pub signature : Signature
  pub first : ℕ
  pub last : ℕ

-- `state.json`
pub record Data : Type 0 where
  pub sessions : Dict String Session
  pub candidates : Dict ℕ Candidate

-- The owner of the session still runs.
unfoldable pub is_live : Table → Session → Bool
unfolding started_as
is_live table s = started_as (lookup s.owner table) s.start

-- `{k: s for k, s in sessions.items() if s["owner"] in table and ...}`
unfoldable pub live_sessions : Table → Dict String Session → Dict String Session
unfolding is_live
live_sessions table sessions = keep (λ e. is_live table e.1) sessions

abbrev pub is_idle : Phase → Bool
is_idle idle = true
is_idle active = false

abbrev pub is_none {ℓ} : {A : Type ℓ} → List A → Bool
is_none [] = true
is_none (x ∷ xs) = false

abbrev pub has_word : List String → String → Bool
has_word ws w = any (λ v. str_eq v w) ws
