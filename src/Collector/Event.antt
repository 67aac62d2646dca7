-- ===== src/Collector/Event.antt =====
-- `Collector.event` of libexec/idle_gc.py: a lifecycle hook of an agent.
pub mod Idle
use memcap.Prelude.{
  ℕ, String, Bool, true, false, not, ◌&&◌, ◌||◌, Option, none, some, List, [], ◌∷◌, if◌then◌else◌,
  keep, all, ltb, ◌==◌, length, lookup, put, nat_eq, string_eq, str_eq,
}
use memcap.Processes.{Row, Table, Try, ok, raised, owner}
use memcap.Helpers.{dev_server}
use memcap.Collector.{
  Shapes, active, idle, Session, Candidate, Data, live_sessions, is_none, has_word,
}

pub data EventName : Type 0 where
  session_start user_prompt_submit pre_tool_use post_tool_use post_tool_use_failure : EventName
  stop session_end subagent_start subagent_stop : EventName

-- A background task: `is_shell` says that its type is `shell`.
pub record Task : Type 0 where
  pub is_shell : Bool
  pub command : String

-- The payload of a hook. `event` is `none` for a name that the code does not know, `session_id` and
-- `agent_id` for a missing identifier, `background_tasks` for a value that is no list, and a task
-- for one that is no object. `cwd` is the resolved absolute path or the empty text.
pub record Payload : Type 0 where
  pub event : Option EventName
  pub session_id : Option String
  pub agent_id : Option String
  pub cwd : String
  pub background_tasks : Option (List (Option Task))

abbrev pub before_command : List String → List String
before_command [] = []
before_command (w ∷ ws) = if str_eq w "--shell-command" then [] else w ∷ before_command ws

-- A text that is there and not empty.
abbrev pub named : Option String → Bool
named none = false
named (some s) = not (str_eq s "")

abbrev pub is_ending : EventName → Bool
is_ending stop = true
is_ending session_end = true
is_ending _ = false

abbrev pub is_subagent_stop : EventName → Bool
is_subagent_stop subagent_stop = true
is_subagent_stop _ = false

abbrev pub is_stop : EventName → Bool
is_stop stop = true
is_stop _ = false

-- `str(payload.get("agent_id") or "unknown")`
abbrev pub agent_or_unknown : Option String → String
agent_or_unknown none = "unknown"
agent_or_unknown (some s) = if str_eq s "" then "unknown" else s

abbrev pub add_word : String → List String → List String
add_word w ws = if has_word ws w then ws else w ∷ ws

-- The children after the event.
unfoldable pub children_after : EventName → Option String → List String → List String
children_after subagent_start agent children = add_word (agent_or_unknown agent) children
children_after subagent_stop none children = children
children_after subagent_stop (some a) children =
    if str_eq a "" then children else keep (λ c. not (str_eq c a)) children
children_after _ agent children = children

-- The children that the old entry of the session carries over, if the same agent process wrote it.
abbrev pub carried : Option Session → String → List String
carried none start = []
carried (some old) start = if str_eq old.start start then old.children else []

abbrev pub was_ended : Option Session → Bool
was_ended none = false
was_ended (some old) = old.ended

module _ (x : Shapes) where
  -- `disposable_task(task)`
  unfoldable pub disposable_task : Task → Bool
  disposable_task t =
      if not t.is_shell
      then false
      else if dev_server x.shell t.command
      then true
      else elim (x.shell.words t.command) [ none ↦ false | some ws ↦ runs_resource ws ]
    where
      runs_resource : List String → Bool
      runs_resource (w ∷ v ∷ u ∷ ws) =
          str_eq (x.shell.base w) "memcap"
          && str_eq v "run"
          && has_word (before_command (w ∷ v ∷ u ∷ ws)) "--resource"
      runs_resource _ = false

  abbrev only_disposable : Option (List (Option Task)) → Bool
  only_disposable none = false
  only_disposable (some ts) =
      all (λ t. elim t [ none ↦ false | some task ↦ disposable_task task ]) ts

  -- The session's new entry.
  unfoldable pub session_after : EventName → Payload → ℕ → String → Option Session → ℕ → Session
  unfolding children_after disposable_task
  session_after e p agent start old now =
      let children = children_after e p.agent_id (carried old start) in
      let ended = is_ending e || is_subagent_stop e && was_ended old in
      let rests =
        ended
        && is_none children
        && only_disposable p.background_tasks
        && not (named p.agent_id && is_stop e) in
      record {
        owner = agent;
        start = start;
        phase = if rests then idle else active;
        children = children;
        at = now;
        ended = ended;
        cwd = p.cwd;
      }

  -- A candidate of another owner.
  abbrev pub is_other : ℕ → ℕ × Candidate → Bool
  is_other agent e = elim e.1.owner [ none ↦ true | some a ↦ not (a == agent) ]

  module _ (me : ℕ) (key : ℕ → String → String) where
    -- The event, its session and the agent with its row, where the hook is heard: the event is known,
    -- the session has a name and an agent of the user is an ancestor of the caller.
    unfoldable pub heard : Payload → ℕ → Table → Option (EventName × String × ℕ × Row)
    heard p caller table = elim p.event [
      | none ↦ none
      | some e ↦ elim p.session_id [
        | none ↦ none
        | some session ↦ elim (owner x.is_agent caller table) [
          | none ↦ none
          | some agent ↦ elim (lookup agent table) [
            | none ↦ none
            | some row ↦
                if str_eq session "" || not (row.uid == me)
                then none
                else some (e, session, agent, row)
          ]
        ]
      ]
    ]

    -- The state after a hook that is heard.
    unfoldable pub data_after : EventName → String → ℕ → Row → Payload → Table → ℕ → Data → Data
    unfolding session_after
    data_after e session agent row p table now d =
        let sessions = live_sessions table d.sessions in
        let k = key agent session in
        record {
          sessions = put k (session_after e p agent row.start (lookup k sessions) now) sessions;
          candidates = keep (is_other agent) d.candidates;
        }

    -- `event(payload, caller, table, now)`; `key` is the hash of the agent and the session. More than
    -- 512 sessions raise, and nothing is saved.
    unfoldable pub event : Payload → ℕ → Table → ℕ → Data → Try Data
    event p caller table now d = elim (heard p caller table) [
      | none ↦ ok d
      | some (e, session, agent, row) ↦
          let after = data_after e session agent row p table now d in
          if ltb 512 (length after.sessions) then raised else ok after
    ]
