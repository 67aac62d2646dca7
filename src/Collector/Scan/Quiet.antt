-- ===== src/Collector/Scan/Quiet.antt =====
-- What `authorize` and `scan` of libexec/idle_gc.py establish of a candidate.
use mathlib.Core.List.{Memᴰ}
use memcap.Prelude.{
  ℕ, ◌-◌, ◌≤◌, Bool, true, false, ◌≡◌, ◌⊎◌, inl, inr, refl, Option, none, some, List, [], ◌∷◌,
  arith, elem, Bool-cases, Dict, nat_eq,
}
use memcap.Registry.{Job}
use memcap.Processes.{Table, Try-cases, ok}
use memcap.Recovery.Cleanup.{Network}
use memcap.Collector.{Shapes, Candidate, Signature, Data}
use memcap.Collector.Eligible.{Match, eligible}
use memcap.Collector.Eligible.Vetoes.{IsVetted, eligible-IsVetted}
use memcap.Collector.Scan.{
  signature, quiet, same_owner, is_due, authorize_rows, authorize, goes_on, candidate_after,
}

pub same_owner-eq : (a b : Option ℕ) → same_owner a b ≡ true → a ≡ b
same_owner-eq none none h = refl
same_owner-eq none (some b) h = absurd (ground arith)
same_owner-eq (some a) none h = absurd (ground arith)
same_owner-eq (some a) (some b) h = ground arith

module _ (x : Shapes) (me grace : ℕ) where
  -- A candidate that goes on keeps its start and its owner; any other starts now.
  pub candidate_after-first :
      (pid : ℕ) (old : Option Candidate) (m : Match) (sig : Signature) (now : ℕ)
      → ((candidate_after x me grace pid old m sig now).owner ≡ m.owner)
        × (((candidate_after x me grace pid old m sig now).first ≡ now)
            ⊎ (c : Candidate) × (old ≡ some c)
              × (c.owner ≡ m.owner)
              × ((candidate_after x me grace pid old m sig now).first ≡ c.first))
  unfolding candidate_after goes_on
  candidate_after-first pid none m sig now = (refl, inl refl)
  candidate_after-first pid (some c) m sig now =
      elim (Bool-cases (goes_on x me grace c m sig now)) [
        | inr stops ↦ (ground (arith, stops), inl (ground (arith, stops)))
        | inl goes ↦ (
          ground (arith, goes),
          inr (c, refl, same_owner-eq c.owner m.owner (ground (arith, goes)), ground (arith, goes)),
        )
      ]

  -- The candidate on which an authorization rests.
  pub record IsDue (pid : ℕ) (table : Table) (net : Network) (sim_clear : Bool) (now : ℕ)
      (jobs : List Job) (d : Data) (cs : Dict ℕ Candidate) : Type 0 where
    pub root : ℕ
    pub candidate : Candidate
    pub listed : Memᴰ (root, candidate) cs
    pub covers : elem pid candidate.members ≡ true
    pub recent : (candidate.last ≤ now) × (now - candidate.last ≤ 30000)
    pub aged : grace ≤ now - candidate.first
    pub found : Match
    pub vetted : IsVetted x me root table net d.sessions now jobs sim_clear found
    pub still : quiet candidate.signature (signature found.observed table) ≡ true

  module _ (pid : ℕ) (table : Table) (net : Network) (sim_clear : Bool) (now : ℕ) (jobs : List Job)
      (d : Data) where
    IsDue-later :
        (e : ℕ × Candidate) (cs : Dict ℕ Candidate)
        → IsDue pid table net sim_clear now jobs d cs
        → IsDue pid table net sim_clear now jobs d (e ∷ cs)
    IsDue-later e cs i = record {
      root = i.root;
      candidate = i.candidate;
      listed = Memᴰ.tail i.listed;
      covers = i.covers;
      recent = i.recent;
      aged = i.aged;
      found = i.found;
      vetted = i.vetted;
      still = i.still;
    }

    due_lem :
        (root : ℕ) (c : Candidate)
        → is_due x me grace pid table now (root, c) ≡ true
        → (elem pid c.members ≡ true)
          × ((c.last ≤ now) × (now - c.last ≤ 30000))
          × (grace ≤ now - c.first)
    unfolding is_due
    due_lem root c h = (ground arith, (ground arith, ground arith), ground arith)

    authorize_rows-IsDue :
        (cs : Dict ℕ Candidate)
        → authorize_rows x me grace pid cs table net sim_clear d now jobs ≡ ok true
        → IsDue pid table net sim_clear now jobs d cs
    unfolding authorize_rows
    authorize_rows-IsDue [] h = absurd (ground arith)
    authorize_rows-IsDue ((root, c) ∷ cs) h =
        elim (Bool-cases (is_due x me grace pid table now (root, c))) [
          | inr early ↦ IsDue-later (root, c) cs (authorize_rows-IsDue cs (ground (arith, early)))
          | inl due ↦
              elim (Try-cases (eligible x me root table net sim_clear d.sessions now jobs)) [
                | inr failed ↦ absurd (ground (arith, due, failed))
                | inl (none, e) ↦
                    IsDue-later (root, c) cs (authorize_rows-IsDue cs (ground (arith, due, e)))
                | inl (some m, e) ↦
                    elim (Bool-cases (quiet c.signature (signature m.observed table))) [
                      | inr stirs ↦
                          IsDue-later (root, c) cs
                            (authorize_rows-IsDue cs (ground (arith, due, e, stirs)))
                      | inl still ↦
                          let (covers, recent, aged) = due_lem root c due in
                          record {
                            root = root;
                            candidate = c;
                            listed = Memᴰ.head refl;
                            covers = covers;
                            recent = recent;
                            aged = aged;
                            found = m;
                            vetted =
                                eligible-IsVetted x me root table net d.sessions now jobs sim_clear
                                  m e;
                            still = still;
                          }
                    ]
              ]
        ]

    -- A process is authorized only as a member of a listed candidate that was scanned at most half a
    -- minute ago and has aged for the grace, that is still eligible, and whose processes are still
    -- the ones of its start and used at most two seconds since; and no hook is in flight.
    pub authorize-IsDue :
        (pending : Bool)
        → authorize x me grace pending pid table net sim_clear now jobs d ≡ ok true
        → (pending ≡ false) × IsDue pid table net sim_clear now jobs d d.candidates
    unfolding authorize
    authorize-IsDue true h = absurd (ground arith)
    authorize-IsDue false h = (refl, authorize_rows-IsDue d.candidates h)
