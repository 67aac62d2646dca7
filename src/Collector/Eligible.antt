-- ===== src/Collector/Eligible.antt =====
-- `Collector.eligible` of libexec/idle_gc.py: which helpers may be candidates.
pub mod Vetoes
use text.Mathlib.Text.{starts_with}
use Prim.Native.String
use memcap.Prelude.{
  ℕ, zero, suc, ◌-◌, String, Bool, true, false, not, ◌&&◌, ◌||◌, Option, none, some, List, [], ◌∷◌,
  map, if◌then◌else◌, keep, any, all, elem, leb, ◌==◌, Dict, lookup, nat_eq, str_eq,
}
use memcap.Registry.{Job, is_running, is_resource}
use memcap.Processes.{Row, Table, Try, ok, raised, ◌>>=◌, descendants, owner}
use memcap.Recovery.Cleanup.{Network}
use memcap.Helpers.{dev_server}
use memcap.Collector.{
  Shapes, Session, Kind, abandoned_simulator, browser, dev_server as dev_kind, is_live, is_idle,
  is_none, has_word,
}

-- The result of `eligible`.
pub record Match : Type 0 where
  pub kind : Kind
  pub owner : Option ℕ
  pub members : List ℕ
  pub observed : List ℕ

-- A test of the row of a process, false where it is not in the table.
abbrev pub row_is : (Row → Bool) → Table → ℕ → Bool
row_is f table p = elim (lookup p table) [ none ↦ false | some r ↦ f r ]

-- The loop of `resource_transport` up the ancestry: at most 64 processes.
unfoldable pub ancestors_from : ℕ → List ℕ → ℕ → Table → List ℕ
ancestors_from zero seen pid table = seen
ancestors_from (suc steps) seen pid table = elim (lookup pid table) [
  | none ↦ seen
  | some row ↦
      let next = ancestors_from steps (pid ∷ seen) row.ppid table in
      if elem pid seen then seen else next
]

abbrev pub transports : List String
transports = "python" ∷ "python3" ∷ "bash" ∷ "zsh" ∷ "sh" ∷ "npm" ∷ "pnpm" ∷ "yarn" ∷ "node" ∷ []

-- A session of this agent process.
unfoldable pub is_of : ℕ → Table → Session → Bool
is_of agent table s = s.owner == agent && row_is (λ r. str_eq s.start r.start) table agent

-- `s["phase"] != "idle" or s["children"] or not 0 <= now - s["at"] <= 7 * 86400`
unfoldable pub is_busy : ℕ → Session → Bool
is_busy now s =
    not (is_idle s.phase)
    || not (is_none s.children)
    || not (leb s.at now && leb (now - s.at) 604800000)

-- Another project overlaps this one.
unfoldable pub overlaps : String → String → Bool
overlaps other p =
    str_eq other p || starts_with other (String.◌++◌ p "/") || starts_with p (String.◌++◌ other "/")

module _ (x : Shapes) (me : ℕ) where
  -- A running resource job whose verified supervisor is among the ancestors and which registered
  -- `root`.
  unfoldable pub supervises : List ℕ → ℕ → Table → Job → Bool
  supervises ancestors root table j =
      is_running j
      && is_resource j.resource
      && elem j.owner ancestors
      && row_is (λ r. r.uid == me && str_eq r.start j.owner_start) table j.owner
      && (elim (lookup root j.members) [
        | none ↦ false
        | some s ↦ row_is (λ r. str_eq s r.start) table root
      ])

  -- `resource_transport(pid, root, table, jobs)`
  unfoldable pub resource_transport : ℕ → ℕ → Table → List Job → Bool
  unfolding ancestors_from supervises
  resource_transport pid root table jobs =
      let ancestors = ancestors_from 64 [] root table in
      elem pid ancestors
      && any (supervises ancestors root table) jobs
      && row_is (λ r. has_word transports (x.exe r.command)) table pid

  -- `SIM.match(cmd) and row["ppid"] == 1 and sim_clear is True`
  abbrev pub is_abandoned : Row → Bool → Bool
  is_abandoned row sim_clear = x.is_simulator row.command && row.ppid == 1 && sim_clear

  abbrev pub kind_of : String → Option Kind
  kind_of c =
      if x.is_browser c then some browser else if dev_server x.shell c then some dev_kind else none

  -- A member that is not the user's, or is an agent.
  unfoldable pub is_foreign : Table → ℕ → Bool
  is_foreign table p = not (row_is (λ r. r.uid == me && not (x.is_agent r.command)) table p)

  -- A session that works on one of the projects and is not idle.
  unfoldable pub works_on : Table → List String → Session → Bool
  works_on table projects s =
      is_live table s
      && not (is_idle s.phase)
      && not (str_eq s.cwd "")
      && any (overlaps s.cwd) projects

  -- What a development server asks of the projects.
  unfoldable pub projects_clear : Table → List Session → Dict String Session → Bool
  projects_clear table owned sessions =
      let projects = map (λ s. s.cwd) owned in
      all (λ p. not (str_eq p "")) projects && not (any (λ e. works_on table projects e.1) sessions)

  abbrev pub is_dev : Kind → Bool
  is_dev dev_kind = true
  is_dev _ = false

  abbrev pub is_browser_kind : Kind → Bool
  is_browser_kind browser = true
  is_browser_kind _ = false

  -- A browser helper below a browser that is observed. `descendants` may raise.
  unfoldable pub below_browser : ℕ → Table → List ℕ → Try Bool
  below_browser p table [] = ok false
  below_browser p table (a ∷ rest) =
      let later = below_browser p table rest in
      if row_is (λ r. x.is_browser r.command) table a
      then (do below ← descendants a table; (if elem p below then ok true else later))
      else later

  -- The tests of a process outside the group that need no ancestry.
  unfoldable pub is_tool : String → Bool
  is_tool c =
      x.is_browser c
      || dev_server x.shell c
      || has_word ("gopls" ∷ "sourcekit-lsp" ∷ "esbuild" ∷ []) (x.exe c)

  unfoldable pub is_tool_transport : String → Bool
  is_tool_transport c =
      has_word ("node" ∷ "npm" ∷ "npx" ∷ []) (x.exe c) && x.names_mcp c
      || str_eq (x.exe c) "node" && x.names_tsx c
      || str_eq (x.exe c) "npm" && x.execs_tsx c

  -- A member that may be below the helper itself.
  unfoldable pub is_part : Kind → String → Bool
  is_part kind c =
      x.is_browser_helper c && is_browser_kind kind || is_dev kind && str_eq (x.exe c) "esbuild"

  -- One process below the agent is no work.
  unfoldable pub is_disposable : Kind → ℕ → List ℕ → List ℕ → Table → List Job → ℕ → Try Bool
  unfolding is_tool is_tool_transport is_part below_browser resource_transport
  is_disposable kind pid members observed table jobs p = elim (lookup p table) [
    | none ↦ raised
    | some r ↦
        if elem p members
        then ok (p == pid || is_part kind r.command)
        else if is_tool r.command
        then ok true
        else do
          helper ←
              (if x.is_browser_helper r.command then below_browser p table observed else ok false)
          ok (helper || is_tool_transport r.command || resource_transport p pid table jobs)
  ]

  -- The loop over the processes below the agent.
  unfoldable pub all_disposable : Kind → ℕ → List ℕ → List ℕ → Table → List Job → List ℕ → Try Bool
  all_disposable kind pid members observed table jobs [] = ok true
  all_disposable kind pid members observed table jobs (p ∷ ps) =
      let later = all_disposable kind pid members observed table jobs ps in
      do
        fine ← is_disposable kind pid members observed table jobs p
        (if fine then later else ok false)

  -- The last part of `eligible`, for a helper below an agent.
  unfoldable pub match_owned :
      ℕ → Kind → List ℕ → Table → Dict String Session → ℕ → List Job → ℕ → Try (Option Match)
  unfolding is_of is_busy projects_clear
  match_owned pid kind members table sessions now jobs agent =
      let owned = keep (is_of agent table) (map (λ e. e.1) sessions) in
      if is_none owned || any (is_busy now) owned
      then ok none
      else if is_dev kind && not (projects_clear table owned sessions)
      then ok none
      else do
        observed ← descendants agent table
        fine ←
            all_disposable kind pid members observed table jobs
              (keep (λ p. not (p == agent)) observed)
        ok (
            if fine
            then some
                (record { kind = kind; owner = some agent; members = members; observed = observed })
            else none)

  -- `members == {pid}`
  abbrev pub is_single : ℕ → List ℕ → Bool
  is_single pid members = all (λ p. p == pid) members && elem pid members

  -- The members are known, and are the user's without an agent or a client.
  unfoldable pub match_members :
      ℕ
      → Row
      → Bool
      → List ℕ
      → Table
      → Network
      → Dict String Session
      → ℕ
      → List Job
      → Try (Option Match)
  match_members pid row sim_clear members table net sessions now jobs =
      if is_abandoned row sim_clear
      then ok (
          if is_single pid members
          then some (record {
            kind = abandoned_simulator;
            owner = none;
            members = members;
            observed = members;
          })
          else none)
      else elim (kind_of row.command) [
        | none ↦ ok none
        | some kind ↦
            if is_dev kind && not (any (λ p. elem p net.listeners) members)
            then ok none
            else elim (owner x.is_agent row.ppid table) [
              | none ↦ ok none
              | some agent ↦ match_owned pid kind members table sessions now jobs agent
            ]
      ]

  abbrev pub is_kind : Row → Bool
  is_kind row = elim (kind_of row.command) [ none ↦ false | some k ↦ true ]

  -- `eligible(pid, table, net, sim_clear, sessions, now)`; `jobs` is `self.resources`.
  unfoldable pub eligible :
      ℕ → Table → Network → Bool → Dict String Session → ℕ → List Job → Try (Option Match)
  unfolding is_foreign
  eligible pid table net sim_clear sessions now jobs = elim (lookup pid table) [
    | none ↦ raised
    | some row ↦
        if not (row.uid == me) || not net.known
        then ok none
        else if not (is_abandoned row sim_clear) && not (is_kind row)
        then ok none
        else do
          members ← descendants pid table
          (if any (is_foreign table) members || any (λ p. elem p net.connected) members
              then ok none
              else match_members pid row sim_clear members table net sessions now jobs)
  ]
