-- ===== src/Collector/Scan.antt =====
-- `Collector.scan` and `Collector.authorize` of libexec/idle_gc.py.
pub mod Quiet
pub mod Silence
use memcap.Prelude.{
  ℕ, ◌+◌, ◌-◌, Bool, true, false, ◌&&◌, Option, none, some, List, [], ◌∷◌, if◌then◌else◌, keep, all,
  elem, leb, ◌==◌, sum_of, Dict, lookup, has, nat_eq, keys, str_eq,
}
use memcap.Registry.{Job}
use memcap.Processes.{Table, Try, ok, ◌>>=◌}
use memcap.Proposals.{same_set}
use memcap.Recovery.Cleanup.{Network}
use memcap.Collector.{
  Shapes, Kind, abandoned_simulator, browser, dev_server, Mark, Signature, Candidate, Data,
  live_sessions,
}
use memcap.Collector.Eligible.{Match, eligible}

-- `signature(ids, table)`; every identifier is in the table.
unfoldable pub signature : List ℕ → Table → Signature
signature [] table = []
signature (p ∷ ps) table =
    let rest = signature ps table in
    elim (lookup p table) [
      | none ↦ rest
      | some r ↦ (p, record { start = r.start; command = r.command; cpu = r.cpu }) ∷ rest
    ]

-- The processor time that a process used since the mark, of a mark that is there.
abbrev pub used : Signature → ℕ × Mark → ℕ
used after (p, b) = elim (lookup p after) [ none ↦ 0 | some a ↦ a.cpu - b.cpu ]

-- The process is the same, and used at most two seconds.
unfoldable pub is_still : Signature → ℕ × Mark → Bool
is_still after (p, b) = elim (lookup p after) [
  | none ↦ false
  | some a ↦
      str_eq b.start a.start
      && str_eq b.command a.command
      && leb b.cpu a.cpu
      && leb (a.cpu - b.cpu) 2000
]

-- `quiet(before, after)`
unfoldable pub quiet : Signature → Signature → Bool
unfolding is_still
quiet before after =
    same_set (keys before) (keys after)
    && all (is_still after) before
    && leb (sum_of (used after) before) 2000

abbrev pub same_kind : Kind → Kind → Bool
same_kind abandoned_simulator abandoned_simulator = true
same_kind browser browser = true
same_kind dev_server dev_server = true
same_kind _ _ = false

abbrev pub same_owner : Option ℕ → Option ℕ → Bool
same_owner none none = true
same_owner (some a) (some b) = a == b
same_owner _ _ = false

module _ (x : Shapes) (me grace : ℕ) where
  -- The old candidate goes on: the same owner and kind, quiet, and seen a grace and a minute ago at
  -- most.
  unfoldable pub goes_on : Candidate → Match → Signature → ℕ → Bool
  unfolding quiet
  goes_on old m now_signed now =
      same_owner old.owner m.owner
      && same_kind old.kind m.kind
      && quiet old.signature now_signed
      && leb old.last now
      && leb (now - old.last) (grace + 60000)

  -- The candidate of this scan.
  unfoldable pub candidate_after : ℕ → Option Candidate → Match → Signature → ℕ → Candidate
  unfolding goes_on
  candidate_after pid old m sig now =
      let fresh : Candidate = record {
        pid = pid;
        kind = m.kind;
        owner = m.owner;
        members = m.members;
        signature = sig;
        first = now;
        last = now;
      } in
      elim old [
        | none ↦ fresh
        | some c ↦
            if goes_on c m sig now
            then record fresh { signature = c.signature; first = c.first }
            else fresh
      ]

  -- The loop of `scan` over the table.
  unfoldable pub scan_rows :
      List ℕ → Table → Network → Bool → Data → ℕ → List Job → Try (Dict ℕ Candidate)
  unfolding candidate_after
  scan_rows [] table net sim_clear d now jobs = ok []
  scan_rows (p ∷ ps) table net sim_clear d now jobs =
      let later = scan_rows ps table net sim_clear d now jobs in
      do
        found ← eligible x me p table net sim_clear d.sessions now jobs
        rest ← later
        ok (elim found [
          | none ↦ rest
          | some m ↦
              (p, candidate_after p (lookup p d.candidates) m (signature m.observed table) now)
              ∷ rest
        ])

  abbrev pub is_ready : ℕ → ℕ × Candidate → Bool
  is_ready now e = leb grace (now - e.1.first)

  -- `scan(table, net, sim_clear, now)`: the state that is saved and the candidates that are ready.
  -- `pending` is `activity_pending`, the marker of a hook in flight; `jobs` is the registry.
  unfoldable pub scan :
      Bool → Table → Network → Bool → ℕ → List Job → Data → Try (Data × Dict ℕ Candidate)
  unfolding scan_rows
  scan pending table net sim_clear now jobs d = if pending then ok (d, []) else do
    found ← scan_rows (keys table) table net sim_clear d now jobs
    ok (
      record { sessions = live_sessions table d.sessions; candidates = found },
      keep (is_ready now) found,
    )

  -- A candidate that `authorize` considers for the process.
  unfoldable pub is_due : ℕ → Table → ℕ → ℕ × Candidate → Bool
  is_due pid table now (root, c) =
      elem pid c.members
      && has root table
      && leb c.last now
      && leb (now - c.last) 30000
      && leb grace (now - c.first)

  -- The loop of `authorize`.
  unfoldable pub authorize_rows :
      ℕ → Dict ℕ Candidate → Table → Network → Bool → Data → ℕ → List Job → Try Bool
  unfolding is_due
  authorize_rows pid [] table net sim_clear d now jobs = ok false
  authorize_rows pid ((root, c) ∷ rest) table net sim_clear d now jobs =
      let later = authorize_rows pid rest table net sim_clear d now jobs in
      if is_due pid table now (root, c)
      then (do
        found ← eligible x me root table net sim_clear d.sessions now jobs
        (elim found [
          | none ↦ later
          | some m ↦ if quiet c.signature (signature m.observed table) then ok true else later
        ]))
      else later

  -- `authorize(pid, table, net, sim_clear, now)`
  unfoldable pub authorize : Bool → ℕ → Table → Network → Bool → ℕ → List Job → Data → Try Bool
  unfolding authorize_rows
  authorize pending pid table net sim_clear now jobs d =
      if pending then ok false else authorize_rows pid d.candidates table net sim_clear d now jobs
