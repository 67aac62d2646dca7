-- ===== src/Collector/Scan/Silence.antt =====
-- Over every run of the collector of libexec/idle_gc.py: a candidate's owner has been silent since
-- the candidate's start.
use mathlib.Core.List.{Memᴰ}
use mathlib.Core.Path.{subst}
use memcap.Prelude.{
  ℕ, ◌-◌, ◌≤◌, String, Bool, true, false, ◌≡◌, inl, inr, sym, ap, ◌∙◌, Option, none, some, List, [],
  ◌∷◌, arith, All, keep, Bool-cases, Option-cases, Dict, lookup, keys, nat_eq, ◌==◌,
}
use memcap.Registry.{Job}
use memcap.Processes.{Row, Table, Try-cases, ok}
use memcap.Recovery.Cleanup.{Network}
use memcap.Collector.{Shapes, Candidate, Signature, Data}
use memcap.Collector.Event.{EventName, Payload, is_other, heard, data_after, event}
use memcap.Collector.Event.Idle.{IsOther-is_other}
use memcap.Collector.Eligible.{Match, eligible}
use memcap.Collector.Scan.{signature, candidate_after, scan_rows, scan, authorize}
use memcap.Collector.Scan.Quiet.{candidate_after-first, IsDue, authorize-IsDue}

-- The events that were heard: the agent and the time.
abbrev pub Log : Type 0
Log = List (ℕ × ℕ)

-- The collector's state between two steps, with the time of the last step and the log so far.
pub record World : Type 0 where
  pub state : Data
  pub clock : ℕ
  pub log : Log

abbrev pub log_after : Option (EventName × String × ℕ × Row) → ℕ → Log → Log
log_after none now log = log
log_after (some (e, session, agent, row)) now log = (agent, now) ∷ log

module _ (x : Shapes) (me grace : ℕ) (key : ℕ → String → String) where
  -- A hook or a scan, with a clock that does not go back. What raises saves nothing.
  pub data Step : World → World → Type 0 where
    hooked :
        (w : World) (p : Payload) (caller : ℕ) (table : Table) (now : ℕ) (d : Data)
        → w.clock ≤ now
        → event x me key p caller table now w.state ≡ ok d
        → Step w (record {
          state = d;
          clock = now;
          log = log_after (heard x me key p caller table) now w.log;
        })
    scanned :
        (w : World) (pending : Bool) (table : Table) (net : Network) (sim_clear : Bool) (now : ℕ)
        (jobs : List Job) (d : Data) (ready : Dict ℕ Candidate)
        → w.clock ≤ now
        → scan x me grace pending table net sim_clear now jobs w.state ≡ ok (d, ready)
        → Step w (record { state = d; clock = now; log = w.log })

  pub data Reach (s : World) : World → Type 0 where
    here : Reach s s
    next : {t u : World} → Reach s t → Step t u → Reach s u

-- Nobody was heard of since then.
abbrev pub IsSilent : Log → ℕ × Candidate → Type 0
IsSilent log e = All (λ h. e.1.owner ≡ some h.0 → h.1 ≤ e.1.first) log

pub record IsPast (w : World) : Type 0 where
  pub events : All (λ h. h.1 ≤ w.clock) w.log
  pub silent : All (IsSilent w.log) w.state.candidates

events_before : (log : Log) (a b : ℕ) → a ≤ b → All (λ h. h.1 ≤ a) log → All (λ h. h.1 ≤ b) log
events_before [] a b le h = tt
events_before (e ∷ log) a b le h = (omega (arith, le, h.0), events_before log a b le h.1)

silent_now :
    (log : Log) (c : ℕ × Candidate) (now : ℕ)
    → c.1.first ≡ now
    → All (λ h. h.1 ≤ now) log
    → IsSilent log c
silent_now [] c now e h = tt
silent_now (l ∷ log) c now e h = (λ o. omega (arith, e, h.0), silent_now log c now e h.1)

silent_as :
    (log : Log) (c c' : ℕ × Candidate)
    → c.1.owner ≡ c'.1.owner
    → c'.1.first ≡ c.1.first
    → IsSilent log c
    → IsSilent log c'
silent_as [] c c' o f h = tt
silent_as (l ∷ log) c c' o f h = (λ p. rw f (h.0 (o ∙ p)), silent_as log c c' o f h.1)

silent_other :
    (x : Shapes) (agent now : ℕ) (log : Log) (cs : Dict ℕ Candidate)
    → All (IsSilent log) cs
    → All (IsSilent ((agent, now) ∷ log)) (keep (is_other x agent) cs)
unfolding keep
silent_other x agent now log [] h = tt
silent_other x agent now log (c ∷ cs) h = elim (Bool-cases (is_other x agent c)) [
  | inr mine ↦ rw mine (silent_other x agent now log cs h.1)
  | inl other ↦
      rw other (
        (λ o. absurd (IsOther-is_other x agent c other o), h.0),
        silent_other x agent now log cs h.1,
      )
]

silent_lookup :
    (log : Log) (p : ℕ) (cs : Dict ℕ Candidate) (c : Candidate)
    → All (IsSilent log) cs
    → lookup p cs ≡ some c
    → IsSilent log (p, c)
unfolding lookup
silent_lookup log p [] c h e = absurd (ground (arith, e))
silent_lookup log p ((q, b) ∷ cs) c h e = elim (Bool-cases (q == p)) [
  | inl same ↦
      let b-c : b ≡ c = ground (arith, same, e) in
      silent_as log (q, b) (p, c) (ap (λ (k : Candidate). k.owner) b-c)
        (ap (λ (k : Candidate). k.first) (sym b-c)) h.0
  | inr other ↦ silent_lookup log p cs c h.1 (ground (arith, other, e))
]

module _ (x : Shapes) (me grace : ℕ) where
  fresh :
      (d : Data) (now : ℕ) (log : Log)
      → All (λ h. h.1 ≤ now) log
      → All (IsSilent log) d.candidates
      → (p : ℕ) (m : Match) (sig : Signature)
      → IsSilent log (p, candidate_after x me grace p (lookup p d.candidates) m sig now)
  fresh d now log e s p m sig =
      let (owner, first) = candidate_after-first x me grace p (lookup p d.candidates) m sig now in
      let after = candidate_after x me grace p (lookup p d.candidates) m sig now in
      elim first [
        | inl starts ↦ silent_now log (p, after) now starts e
        | inr (c, found, same, first_same) ↦
            silent_as log (p, c) (p, after) (same ∙ sym owner) first_same
              (silent_lookup log p d.candidates c s found)
      ]

  scan_rows-IsSilent :
      (ps : List ℕ) (table : Table) (net : Network) (sim_clear : Bool) (d : Data) (now : ℕ)
      (jobs : List Job) (log : Log) (cs : Dict ℕ Candidate)
      → All (λ h. h.1 ≤ now) log
      → All (IsSilent log) d.candidates
      → scan_rows x me grace ps table net sim_clear d now jobs ≡ ok cs
      → All (IsSilent log) cs
  unfolding scan_rows
  scan_rows-IsSilent [] table net sim_clear d now jobs log cs e s h =
      let nothing : [] ≡ cs = ground (arith, h) in rw (← nothing) tt
  scan_rows-IsSilent (p ∷ ps) table net sim_clear d now jobs log cs e s h =
      elim (Try-cases (eligible x me p table net sim_clear d.sessions now jobs)) [
        | inr failed ↦ absurd (ground (arith, failed))
        | inl (found, f) ↦
            elim (Try-cases (scan_rows x me grace ps table net sim_clear d now jobs)) [
              | inr failed ↦ absurd (ground (arith, f, failed))
              | inl (rest, r) ↦
                  let later = scan_rows-IsSilent ps table net sim_clear d now jobs log rest e s r in
                  elim (Option-cases found) [
                    | inl none_found ↦
                        let same : rest ≡ cs = ground (arith, f, r, none_found) in rw (← same) later
                    | inr (m, m_found) ↦
                        let c =
                          candidate_after x me grace p (lookup p d.candidates) m
                            (signature m.observed table) now in
                        let same : (p, c) ∷ rest ≡ cs = ground (arith, f, r, m_found) in
                        rw (← same) (fresh d now log e s p m (signature m.observed table), later)
                  ]
            ]
      ]

  scan-IsSilent :
      (pending : Bool) (table : Table) (net : Network) (sim_clear : Bool) (now : ℕ)
      (jobs : List Job) (d d' : Data) (ready : Dict ℕ Candidate) (log : Log)
      → All (λ h. h.1 ≤ now) log
      → All (IsSilent log) d.candidates
      → scan x me grace pending table net sim_clear now jobs d ≡ ok (d', ready)
      → All (IsSilent log) d'.candidates
  unfolding scan
  scan-IsSilent true table net sim_clear now jobs d d' ready log e s h =
      let same : d ≡ d' = ground (arith, h) in rw (← same) s
  scan-IsSilent false table net sim_clear now jobs d d' ready log e s h =
      elim (Try-cases (scan_rows x me grace (keys table) table net sim_clear d now jobs)) [
        | inr failed ↦ absurd (ground (arith, failed))
        | inl (found, f) ↦
            let same : found ≡ d'.candidates = ground (arith, f, h) in
            rw (← same)
              (scan_rows-IsSilent (keys table) table net sim_clear d now jobs log found e s f)
      ]

  module _ (key : ℕ → String → String) where
    event-IsSilent :
        (p : Payload) (caller : ℕ) (table : Table) (now : ℕ) (d d' : Data) (log : Log)
        → All (IsSilent log) d.candidates
        → event x me key p caller table now d ≡ ok d'
        → All (IsSilent (log_after (heard x me key p caller table) now log)) d'.candidates
    unfolding event data_after
    event-IsSilent p caller table now d d' log s h =
        elim (Option-cases (heard x me key p caller table)) [
          | inl unheard ↦
              rw unheard (let same : d ≡ d' = ground (arith, unheard, h) in rw (← same) s)
          | inr ((e, session, agent, row), hears) ↦
              let same : data_after x me key e session agent row p table now d ≡ d' =
                ground (arith, hears, h) in
              rw (hears, ← same) (silent_other x agent now log d.candidates s)
        ]

    log_past :
        (o : Option (EventName × String × ℕ × Row)) (now : ℕ) (log : Log)
        → All (λ h. h.1 ≤ now) log
        → All (λ h. h.1 ≤ now) (log_after o now log)
    log_past none now log h = h
    log_past (some (e, session, agent, row)) now log h = (omega arith, h)

    Step-IsPast : {w u : World} → Step x me grace key w u → IsPast w → IsPast u
    Step-IsPast (hooked w p caller table now d le h) i = record {
      events =
          log_past (heard x me key p caller table) now w.log
            (events_before w.log w.clock now le i.events);
      silent = event-IsSilent p caller table now w.state d w.log i.silent h;
    }
    Step-IsPast (scanned w pending table net sim_clear now jobs d ready le h) i =
        let past = events_before w.log w.clock now le i.events in
        record {
          events = past;
          silent =
              scan-IsSilent pending table net sim_clear now jobs w.state d ready w.log past i.silent
                h;
        }

    Reach-IsPast : {s w : World} → IsPast s → Reach x me grace key s w → IsPast w
    Reach-IsPast i here = i
    Reach-IsPast i (next r st) = Step-IsPast st (Reach-IsPast i r)

    All-Mem :
        (log : Log) {e : ℕ × Candidate} {cs : Dict ℕ Candidate}
        → Memᴰ e cs
        → All (IsSilent log) cs
        → IsSilent log e
    All-Mem log (Memᴰ.head same) h = subst (IsSilent log) (sym same) h.0
    All-Mem log (Memᴰ.tail m) h = All-Mem log m h.1

    abbrev pub start : World
    start = record { state = record { sessions = []; candidates = [] }; clock = 0; log = [] }

    -- After every run of hooks and scans from the empty state, with a clock that does not go back, an
    -- authorized process belongs to a candidate that has aged for the grace, and no event of its
    -- owning agent was heard since the candidate's start.
    pub authorize-IsSilent :
        (w : World)
        → Reach x me grace key start w
        → (pending : Bool) (pid : ℕ) (table : Table) (net : Network) (sim_clear : Bool) (now : ℕ)
          (jobs : List Job)
        → authorize x me grace pending pid table net sim_clear now jobs w.state ≡ ok true
        → (due : IsDue x me grace pid table net sim_clear now jobs w.state w.state.candidates)
          × (grace ≤ now - due.candidate.first)
          × IsSilent w.log (due.root, due.candidate)
    authorize-IsSilent w r pending pid table net sim_clear now jobs h =
        let due =
          (authorize-IsDue x me grace pid table net sim_clear now jobs w.state pending h).1 in
        let past = Reach-IsPast (record { events = tt; silent = tt }) r in
        (due, due.aged, All-Mem w.log due.listed past.silent)
