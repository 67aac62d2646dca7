-- ===== src/Collector/Event/Idle.antt =====
-- What a lifecycle event of libexec/idle_gc.py does to the collector's state.
use memcap.Prelude.{
  ℕ, ◌≤◌, String, true, false, ◌≡◌, ◌≢◌, ◌⊎◌, inl, inr, refl, any, Option, none, some, List, [],
  ◌∷◌, arith, All, keep, length, Bool-cases, Dict, lookup, put, lookup-put, nat_eq, string_eq,
  eq_iff,
}
use memcap.Processes.{Row, Table, ok}
use memcap.Collector.{has_word, active, Shapes, Session, Candidate, Data, live_sessions, is_none}
use memcap.Collector.Event.{
  stop, session_end, subagent_start, subagent_stop, session_start, user_prompt_submit, pre_tool_use,
  post_tool_use, post_tool_use_failure, named, is_stop, agent_or_unknown, add_word, carried,
  children_after, EventName, Payload, session_after, is_other, heard, data_after, event,
  only_disposable,
}

abbrev pub IsOther : ℕ → ℕ × Candidate → Type 0
IsOther agent e = e.1.owner ≢ some agent

pub IsOther-is_other :
    (x : Shapes) (agent : ℕ) (e : ℕ × Candidate) → is_other x agent e ≡ true → IsOther agent e
IsOther-is_other x agent (p, c) h o = ground (arith, o)

pub keep-IsOther :
    (x : Shapes) (agent : ℕ) (cs : Dict ℕ Candidate)
    → All (IsOther agent) (keep (is_other x agent) cs)
unfolding keep
keep-IsOther x agent [] = tt
keep-IsOther x agent (e ∷ cs) = elim (Bool-cases (is_other x agent e)) [
  | inl other ↦ rw other (IsOther-is_other x agent e other, keep-IsOther x agent cs)
  | inr mine ↦ rw mine (keep-IsOther x agent cs)
]

pub lookup-put_same :
    (k : String) (s : Session) (d : Dict String Session) → lookup k (put k s d) ≡ some s
lookup-put_same k s d = ground (arith, lookup-put k k s d, (eq_iff k k).1 refl)

-- The event ends the turn of the session, or ends a child of a session whose turn has ended.
abbrev pub EndsTurn : EventName → Option Session → Type 0
EndsTurn e old =
    (e ≡ stop)
    ⊎ (e ≡ session_end)
    ⊎ (e ≡ subagent_stop) × ((s : Session) × (old ≡ some s) × (s.ended ≡ true))

-- The session rests: its turn has ended, no child is left, every background task is disposable, and
-- the event is no stop that a child sent.
pub record IsResting (x : Shapes) (e : EventName) (p : Payload) (old : Option Session)
    (entry : Session) : Type 0 where
  pub ends : EndsTurn e old
  pub ended : entry.ended ≡ true
  pub childless : entry.children ≡ []
  pub disposable : only_disposable x p.background_tasks ≡ true
  pub of_parent : (named p.agent_id ≡ false) ⊎ (e ≢ stop)

-- The state after an event that is heard from an agent, with the session's old entry.
pub record IsHeard (x : Shapes) (key : ℕ → String → String) (e : EventName) (session : String)
    (agent : ℕ) (row : Row) (p : Payload) (now : ℕ) (old : Option Session) (d : Data) : Type 0 where
  pub entry : Session
  pub stored : lookup (key agent session) d.sessions ≡ some entry
  pub of_agent : (entry.owner ≡ agent) × (entry.start ≡ row.start) × (entry.at ≡ now)
  pub turn : (entry.ended ≡ false) ⊎ EndsTurn e old
  pub phase : (entry.phase ≡ active) ⊎ IsResting x e p old entry
  pub child : (e ≢ subagent_start) ⊎ (has_word entry.children (agent_or_unknown p.agent_id) ≡ true)
  pub invalidated : All (IsOther agent) d.candidates
  pub bounded : length d.sessions ≤ 512

has_word-add_word : (w : String) (ws : List String) → has_word (add_word w ws) w ≡ true
unfolding any
has_word-add_word w ws = ground (arith, (eq_iff w w).1 refl)

module _ (x : Shapes) (me : ℕ) (key : ℕ → String → String) where
  empty_of : (ws : List String) → is_none ws ≡ true → ws ≡ []
  empty_of [] h = refl
  empty_of (w ∷ ws) h = absurd (ground arith)

  turn_lem :
      (e : EventName) (p : Payload) (agent : ℕ) (start : String) (old : Option Session) (now : ℕ)
      → ((session_after x e p agent start old now).ended ≡ false) ⊎ EndsTurn e old
  unfolding session_after
  turn_lem stop p agent start old now = inr (inl refl)
  turn_lem session_end p agent start old now = inr (inr (inl refl))
  turn_lem subagent_stop p agent start none now = inl refl
  turn_lem subagent_stop p agent start (some s) now = elim (Bool-cases s.ended) [
    | inl ended ↦ inr (inr (inr (refl, (s, refl, ended))))
    | inr goes ↦ inl (rw goes refl)
  ]
  turn_lem session_start p agent start old now = inl refl
  turn_lem user_prompt_submit p agent start old now = inl refl
  turn_lem pre_tool_use p agent start old now = inl refl
  turn_lem post_tool_use p agent start old now = inl refl
  turn_lem post_tool_use_failure p agent start old now = inl refl
  turn_lem subagent_start p agent start old now = inl refl

  phase_lem :
      (e : EventName) (p : Payload) (agent : ℕ) (start : String) (old : Option Session) (now : ℕ)
      → ((session_after x e p agent start old now).phase ≡ active)
        ⊎ ((session_after x e p agent start old now).ended ≡ true)
          × (is_none (session_after x e p agent start old now).children ≡ true)
          × (only_disposable x p.background_tasks ≡ true)
          × ((named p.agent_id ≡ false) ⊎ (is_stop e ≡ false))
  unfolding session_after
  phase_lem e p agent start old now = ground arith

  resting_lem :
      (e : EventName) (p : Payload) (agent : ℕ) (start : String) (old : Option Session) (now : ℕ)
      → ((session_after x e p agent start old now).phase ≡ active)
        ⊎ IsResting x e p old (session_after x e p agent start old now)
  resting_lem e p agent start old now =
      let entry = session_after x e p agent start old now in
      elim (phase_lem e p agent start old now) [
        | inl works ↦ inl works
        | inr (ended, children, tasks, parent) ↦ elim (turn_lem e p agent start old now) [
          | inl goes ↦ absurd (ground (arith, ended, goes))
          | inr ends ↦ inr (record {
            ends = ends;
            ended = ended;
            childless = empty_of entry.children children;
            disposable = tasks;
            of_parent = elim parent [
              | inl unnamed ↦ inl unnamed
              | inr other ↦ inr (λ s. absurd (ground (arith, other, s)))
            ];
          })
        ]
      ]

  child_lem :
      (e : EventName) (p : Payload) (agent : ℕ) (start : String) (old : Option Session) (now : ℕ)
      → (e ≢ subagent_start)
        ⊎ (has_word (session_after x e p agent start old now).children (agent_or_unknown p.agent_id)
            ≡ true)
  unfolding session_after children_after
  child_lem subagent_start p agent start old now =
      inr (has_word-add_word (agent_or_unknown p.agent_id) (carried old start))
  child_lem stop p agent start old now = inl (λ h. cc)
  child_lem session_end p agent start old now = inl (λ h. cc)
  child_lem subagent_stop p agent start old now = inl (λ h. cc)
  child_lem session_start p agent start old now = inl (λ h. cc)
  child_lem user_prompt_submit p agent start old now = inl (λ h. cc)
  child_lem pre_tool_use p agent start old now = inl (λ h. cc)
  child_lem post_tool_use p agent start old now = inl (λ h. cc)
  child_lem post_tool_use_failure p agent start old now = inl (λ h. cc)

  after_lem :
      (e : EventName) (p : Payload) (agent : ℕ) (start : String) (old : Option Session) (now : ℕ)
      → ((session_after x e p agent start old now).owner ≡ agent)
        × ((session_after x e p agent start old now).start ≡ start)
        × ((session_after x e p agent start old now).at ≡ now)
  unfolding session_after
  after_lem e p agent start old now = (refl, refl, refl)

  -- A hook that is heard leaves the entry of its session. Its turn has ended only after a stop, the
  -- end of the session, or the stop of a child once the turn had ended before; and it is idle only if
  -- then no child is left, every background task is disposable and the stop is not a child's. A child
  -- that starts is among the children. No candidate of the agent stays, so no earlier authorization,
  -- and there are at most 512 sessions.
  pub event-IsHeard :
      (p : Payload) (caller : ℕ) (table : Table) (now : ℕ) (d d' : Data) (e : EventName)
      (session : String) (agent : ℕ) (row : Row)
      → heard x me key p caller table ≡ some (e, session, agent, row)
      → event x me key p caller table now d ≡ ok d'
      → IsHeard x key e session agent row p now
          (lookup (key agent session) (live_sessions table d.sessions))
          d'
  unfolding event data_after
  event-IsHeard p caller table now d d' e session agent row h s =
      let k = key agent session in
      let live = live_sessions table d.sessions in
      let old = lookup k live in
      let entry = session_after x e p agent row.start old now in
      let same : data_after x me key e session agent row p table now d ≡ d' = ground (arith, h) in
      rw (← same) (record {
        entry = entry;
        stored = lookup-put_same k entry live;
        of_agent = after_lem e p agent row.start old now;
        turn = turn_lem e p agent row.start old now;
        phase = resting_lem e p agent row.start old now;
        child = child_lem e p agent row.start old now;
        invalidated = keep-IsOther x agent d.candidates;
        bounded = ground (arith, h);
      })
