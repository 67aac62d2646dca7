-- ===== src/Collector/Eligible/Vetoes.antt =====
-- What keeps a helper from being a candidate of libexec/idle_gc.py.
use mathlib.Core.Path.{subst}
use memcap.Prelude.{
  sym, ℕ, String, Bool, true, false, not, ◌≡◌, ◌≢◌, ◌⊎◌, inl, inr, refl, none, some, List, [], ◌∷◌,
  arith, All, keep, any, elem, map, Bool-cases, Option-cases, Dict, lookup, nat_eq, ◌==◌,
}
use memcap.Registry.{Job}
use memcap.Processes.{Row, Table, Try-cases, ok, descendants, owner}
use memcap.Recovery.Cleanup.{Network}
use memcap.Collector.{Shapes, Session, Kind, abandoned_simulator}
use memcap.Collector.Eligible.{
  Match, is_of, is_busy, is_abandoned, kind_of, is_foreign, is_single, is_dev, match_owned,
  match_members, eligible, all_disposable, projects_clear,
}

all-of-any :
    {A : Type 0} (f : A → Bool) (xs : List A) → any f xs ≡ false → All (λ a. f a ≡ false) xs
unfolding any
all-of-any f [] h = tt
all-of-any f (a ∷ xs) h = (ground arith, all-of-any f xs (ground arith))

-- The agent below which a helper is collected: it has sessions of its process, and all of them are
-- idle, without children and heard of within a week; what runs below it is disposable.
pub record IsResting (x : Shapes) (me pid : ℕ) (kind : Kind) (members : List ℕ) (table : Table)
    (sessions : Dict String Session) (now : ℕ) (jobs : List Job) (agent : ℕ) (m : Match)
    : Type 0 where
  pub inhabited : keep (is_of agent table) (map (λ e. e.1) sessions) ≢ []
  pub resting :
      All (λ s. is_busy now s ≡ false) (keep (is_of agent table) (map (λ e. e.1) sessions))
  pub projects :
      is_dev x me kind ≡ true
      → projects_clear x me table (keep (is_of agent table) (map (λ e. e.1) sessions)) sessions
        ≡ true
  pub observes : descendants agent table ≡ ok m.observed
  pub disposable :
      all_disposable x me kind pid members m.observed table jobs
        (keep (λ p. not (p == agent)) m.observed)
      ≡ ok true
  pub result : (m.kind ≡ kind) × (m.owner ≡ some agent) × (m.members ≡ members)

module _ (x : Shapes) (me pid : ℕ) (table : Table) (net : Network) (sessions : Dict String Session)
    (now : ℕ) (jobs : List Job) where
  -- The list that `match_owned` calls `owned`.
  abbrev owned_by : ℕ → List Session
  owned_by agent = keep (is_of agent table) (map (λ e. e.1) sessions)

  clear_sessions :
      (kind : Kind) (members : List ℕ) (agent : ℕ) (m : Match)
      → match_owned x me pid kind members table sessions now jobs agent ≡ ok (some m)
      → (owned_by agent ≢ [])
        × (any (is_busy now) (owned_by agent) ≡ false)
        × (is_dev x me kind ≡ true → projects_clear x me table (owned_by agent) sessions ≡ true)
  unfolding match_owned
  clear_sessions kind members agent m h =
      (λ e. ground (arith, e), ground arith, λ k. ground (arith, k))

  observed_of :
      (kind : Kind) (members : List ℕ) (agent : ℕ) (m : Match)
      → match_owned x me pid kind members table sessions now jobs agent ≡ ok (some m)
      → (observed : List ℕ) × (descendants agent table ≡ ok observed)
        × (all_disposable x me kind pid members observed table jobs
              (keep (λ p. not (p == agent)) observed)
            ≡ ok true)
        × (m ≡ record { kind = kind; owner = some agent; members = members; observed = observed })
  unfolding match_owned
  observed_of kind members agent m h = elim (Try-cases (descendants agent table)) [
    | inr failed ↦ absurd (ground (arith, failed))
    | inl (observed, d) ↦
        elim (Try-cases (
          all_disposable x me kind pid members observed table jobs
            (keep (λ p. not (p == agent)) observed))) [
              | inr failed ↦ absurd (ground (arith, d, failed))
              | inl (false, f) ↦ absurd (ground (arith, d, f))
              | inl (true, f) ↦ (observed, d, f, ground (arith, d, f))
            ]
  ]

  match_owned-IsResting :
      (kind : Kind) (members : List ℕ) (agent : ℕ) (m : Match)
      → match_owned x me pid kind members table sessions now jobs agent ≡ ok (some m)
      → IsResting x me pid kind members table sessions now jobs agent m
  match_owned-IsResting kind members agent m h =
      let (inhabited, calm, projects) = clear_sessions kind members agent m h in
      let (observed, d, f, e) = observed_of kind members agent m h in
      rw e (record {
        inhabited = inhabited;
        resting = all-of-any (is_busy now) (owned_by agent) calm;
        projects = projects;
        observes = d;
        disposable = f;
        result = (refl, refl, refl);
      })

  -- A helper below an idle agent, or an abandoned simulator process without children.
  abbrev pub IsHelper : Row → Match → Type 0
  IsHelper row m =
      (kind : Kind) × (agent : ℕ) × (kind_of x me row.command ≡ some kind)
      × (owner x.is_agent row.ppid table ≡ some agent)
      × (is_dev x me kind ≡ true → any (λ p. elem p net.listeners) m.members ≡ true)
      × IsResting x me pid kind m.members table sessions now jobs agent m

  abbrev pub IsAbandoned : Row → Bool → Match → Type 0
  IsAbandoned row sim_clear m =
      (is_abandoned x me row sim_clear ≡ true)
      × (is_single x me pid m.members ≡ true)
      × (m.kind ≡ abandoned_simulator)
      × (m.owner ≡ none)
      × (m.observed ≡ m.members)

  match-IsAbandoned :
      (row : Row) (sim_clear : Bool) (members : List ℕ) (m : Match)
      → is_abandoned x me row sim_clear ≡ true
      → match_members x me pid row sim_clear members table net sessions now jobs ≡ ok (some m)
      → (m.members ≡ members) × IsAbandoned row sim_clear m
  unfolding match_members
  match-IsAbandoned row sim_clear members m a h =
      let e : m ≡ record {
        kind = abandoned_simulator;
        owner = none;
        members = members;
        observed = members;
      } =
        ground (arith, a) in
      rw e (refl, (a, ground (arith, a), refl, refl, refl))

  match-IsHelper :
      (row : Row) (sim_clear : Bool) (members : List ℕ) (m : Match)
      → is_abandoned x me row sim_clear ≡ false
      → match_members x me pid row sim_clear members table net sessions now jobs ≡ ok (some m)
      → (m.members ≡ members) × IsHelper row m
  unfolding match_members
  match-IsHelper row sim_clear members m a h = elim (Option-cases (kind_of x me row.command)) [
    | inl absent ↦ absurd (ground (arith, a, absent))
    | inr (kind, k) ↦ elim (Option-cases (owner x.is_agent row.ppid table)) [
      | inl absent ↦ absurd (ground (arith, a, k, absent))
      | inr (agent, o) ↦
          let step : match_owned x me pid kind members table sessions now jobs agent ≡ ok (some m) =
            ground (arith, a, k, o) in
          let rests = match_owned-IsResting kind members agent m step in
          let same : m.members ≡ members = rests.result.2 in
          (
            same,
            (
              kind,
              agent,
              k,
              o,
              λ d. rw same (ground (arith, a, k, o, d)),
              subst (λ ms. IsResting x me pid kind ms table sessions now jobs agent m) (sym same)
                  rests,
            ),
          )
    ]
  ]

  -- What `eligible` establishes of a match.
  pub record IsVetted (sim_clear : Bool) (m : Match) : Type 0 where
    pub row : Row
    pub found : lookup pid table ≡ some row
    pub own : row.uid ≡ me
    pub known : net.known ≡ true
    pub below : descendants pid table ≡ ok m.members
    pub familiar : All (λ p. is_foreign x me table p ≡ false) m.members
    pub unconnected : All (λ p. elem p net.connected ≡ false) m.members
    pub reason : IsAbandoned row sim_clear m ⊎ IsHelper row m

  reached :
      (sim_clear : Bool) (m : Match)
      → eligible x me pid table net sim_clear sessions now jobs ≡ ok (some m)
      → (row : Row) × (members : List ℕ) × (lookup pid table ≡ some row)
        × (row.uid ≡ me)
        × (net.known ≡ true)
        × (descendants pid table ≡ ok members)
        × (any (is_foreign x me table) members ≡ false)
        × (any (λ p. elem p net.connected) members ≡ false)
        × (match_members x me pid row sim_clear members table net sessions now jobs ≡ ok (some m))
  unfolding eligible
  reached sim_clear m h = elim (Option-cases (lookup pid table)) [
    | inl absent ↦ absurd (ground (arith, absent))
    | inr (row, found) ↦ elim (Try-cases (descendants pid table)) [
      | inr failed ↦ absurd (ground (arith, found, failed))
      | inl (members, d) ↦ (
        row,
        members,
        found,
        ground (arith, found, d),
        ground (arith, found, d),
        d,
        ground (arith, found, d),
        ground (arith, found, d),
        ground (arith, found, d),
      )
    ]
  ]

  -- A match is of the user's process while the network is known. Its members are exactly what runs
  -- below the process, all the user's, none an agent and none with a client. It is an abandoned
  -- simulator process with nothing below it, or a helper below an agent: a development server has to
  -- listen and its projects to be clear, every session of the agent rests, and all else below the
  -- agent is disposable.
  pub eligible-IsVetted :
      (sim_clear : Bool) (m : Match)
      → eligible x me pid table net sim_clear sessions now jobs ≡ ok (some m)
      → IsVetted sim_clear m
  eligible-IsVetted sim_clear m h =
      let (row, members, found, own, known, d, f, c, step) = reached sim_clear m h in
      let (same, reason) = reason_of row members step in
      record {
        row = row;
        found = found;
        own = own;
        known = known;
        below = rw same d;
        familiar = rw same (all-of-any (is_foreign x me table) members f);
        unconnected = rw same (all-of-any (λ p. elem p net.connected) members c);
        reason = reason;
      }
    where
      reason_of :
          (row : Row) (members : List ℕ)
          → match_members x me pid row sim_clear members table net sessions now jobs ≡ ok (some m)
          → (m.members ≡ members) × (IsAbandoned row sim_clear m ⊎ IsHelper row m)
      reason_of row members step = elim (Bool-cases (is_abandoned x me row sim_clear)) [
        | inl a ↦ let (same, r) = match-IsAbandoned row sim_clear members m a step in (same, inl r)
        | inr a ↦ let (same, r) = match-IsHelper row sim_clear members m a step in (same, inr r)
      ]
