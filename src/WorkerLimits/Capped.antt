-- ===== src/WorkerLimits/Capped.antt =====
-- `cap_flags` of libexec/scheduler_policy.py leaves one worker option, within the allocation.
use memcap.Prelude.{
  ℕ, ◌≤◌, min, String, true, false, ◌≡◌, ◌⊎◌, inl, inr, refl, List, [], ◌∷◌, ◌++◌, arith, All,
  Bool-cases, str_eq, eq_iff,
}
use memcap.WorkerLimits.{
  Numbers, is_one_of, bounded, limit_value, has_value, has_count, after_equals, drop_2, cap_loop,
  option_of, cap_flags,
}

module _ (n : Numbers) (flags : List String) (output : String) (workers : ℕ) where
  -- A word that sets no number of workers by itself.
  abbrev pub IsPlain : String → Type 0
  IsPlain arg =
      (has_value n flags output workers arg ≡ false)
      × (has_count n flags output workers arg ≡ false)

  -- How words are read: what is kept, the limits that were asked for, and the rest from the end of
  -- the options on. A flag takes the word after it away, and is kept where there is none.
  pub data Reads : List String → List String → List ℕ → List String → Type 0 where
    done : Reads [] [] [] []
    ended : {argv : List String} → Reads ("--" ∷ argv) [] [] ("--" ∷ argv)
    paired :
        {arg value : String} {argv kept rest : List String} {asked : List ℕ}
        → str_eq arg "--" ≡ false
        → is_one_of arg flags ≡ true
        → Reads argv kept asked rest
        → Reads (arg ∷ value ∷ argv) kept (limit_value n flags output workers value ∷ asked) rest
    valued :
        {arg : String} {argv kept rest : List String} {asked : List ℕ}
        → str_eq arg "--" ≡ false
        → has_value n flags output workers arg ≡ true
        → Reads argv kept asked rest
        → Reads
            (arg ∷ argv)
            kept
            (limit_value n flags output workers (after_equals arg) ∷ asked)
            rest
    counted :
        {arg : String} {argv kept rest : List String} {asked : List ℕ}
        → str_eq arg "--" ≡ false
        → has_count n flags output workers arg ≡ true
        → Reads argv kept asked rest
        → Reads (arg ∷ argv) kept (limit_value n flags output workers (drop_2 arg) ∷ asked) rest
    plain :
        {arg : String} {argv kept rest : List String} {asked : List ℕ}
        → str_eq arg "--" ≡ false
        → IsPlain arg
        → (is_one_of arg flags ≡ false) ⊎ (argv ≡ [])
        → Reads argv kept asked rest
        → Reads (arg ∷ argv) (arg ∷ kept) asked rest

  -- The least of the limits.
  abbrev pub least : ℕ → List ℕ → ℕ
  least limit [] = limit
  least limit (m ∷ ms) = least (min limit m) ms

  -- The result of the loop that starts with a limit.
  abbrev IsLoop : List String → ℕ → List String × (ℕ × List String) → Type 0
  IsLoop argv limit (kept, (after, rest)) =
      (asked : List ℕ) × Reads argv kept asked rest × (after ≡ least limit asked)

  cap_loop-IsLoop :
      (argv : List String) (limit : ℕ)
      → IsLoop argv limit (cap_loop n flags output workers argv limit)
  unfolding cap_loop
  cap_loop-IsLoop [] limit = ([], done, refl)
  cap_loop-IsLoop (arg ∷ []) limit = elim (Bool-cases (str_eq arg "--")) [
    | inl dash ↦ rw dash ([], rw ((eq_iff arg "--").0 dash) ended, refl)
    | inr word ↦ elim (Bool-cases (has_value n flags output workers arg)) [
      | inl v ↦
          rw (word, v)
            (limit_value n flags output workers (after_equals arg) ∷ [], valued word v done, refl)
      | inr bare ↦ elim (Bool-cases (has_count n flags output workers arg)) [
        | inl c ↦
            rw (word, bare, c)
              (limit_value n flags output workers (drop_2 arg) ∷ [], counted word c done, refl)
        | inr p ↦ rw (word, bare, p) ([], plain word (bare, p) (inr refl) done, refl)
      ]
    ]
  ]
  cap_loop-IsLoop (arg ∷ value ∷ argv) limit = elim (Bool-cases (str_eq arg "--")) [
    | inl dash ↦ rw dash ([], rw ((eq_iff arg "--").0 dash) ended, refl)
    | inr word ↦ elim (Bool-cases (is_one_of arg flags)) [
      | inl flag ↦
          let m = limit_value n flags output workers value in
          let (asked, reads, e) = cap_loop-IsLoop argv (min limit m) in
          rw (word, flag) (m ∷ asked, paired word flag reads, e)
      | inr other ↦ elim (Bool-cases (has_value n flags output workers arg)) [
        | inl v ↦
            let m = limit_value n flags output workers (after_equals arg) in
            let (asked, reads, e) = cap_loop-IsLoop (value ∷ argv) (min limit m) in
            rw (word, other, v) (m ∷ asked, valued word v reads, e)
        | inr bare ↦ elim (Bool-cases (has_count n flags output workers arg)) [
          | inl c ↦
              let m = limit_value n flags output workers (drop_2 arg) in
              let (asked, reads, e) = cap_loop-IsLoop (value ∷ argv) (min limit m) in
              rw (word, other, bare, c) (m ∷ asked, counted word c reads, e)
          | inr p ↦
              let (asked, reads, e) = cap_loop-IsLoop (value ∷ argv) limit in
              rw (word, other, bare, p) (asked, plain word (bare, p) (inl other) reads, e)
        ]
      ]
    ]
  ]

  Reads-IsPlain :
      {argv kept rest : List String} {asked : List ℕ}
      → Reads argv kept asked rest
      → All IsPlain kept
  Reads-IsPlain done = tt
  Reads-IsPlain ended = tt
  Reads-IsPlain (paired w f r) = Reads-IsPlain r
  Reads-IsPlain (valued w v r) = Reads-IsPlain r
  Reads-IsPlain (counted w c r) = Reads-IsPlain r
  Reads-IsPlain (plain w p o r) = (p, Reads-IsPlain r)

  Reads-rest :
      {argv kept rest : List String} {asked : List ℕ}
      → Reads argv kept asked rest
      → (rest ≡ []) ⊎ ((tail : List String) × (rest ≡ "--" ∷ tail))
  Reads-rest done = inl refl
  Reads-rest ended = inr (_, refl)
  Reads-rest (paired w f r) = Reads-rest r
  Reads-rest (valued w v r) = Reads-rest r
  Reads-rest (counted w c r) = Reads-rest r
  Reads-rest (plain w p o r) = Reads-rest r

  -- The words before the option set no number of workers, those after it start with the end of the
  -- options, and the option's limit is the least of the allocation and of what the words asked for.
  pub record IsCapped (argv kept : List String) (limit : ℕ) (rest : List String) : Type 0 where
    pub written :
        cap_flags n flags output workers argv
        ≡ kept ++ option_of n flags output workers limit ∷ rest
    pub asked : List ℕ
    pub reads : Reads argv kept asked rest
    pub least_of : limit ≡ least workers asked
    pub bounds : (1 ≤ limit) × (limit ≤ workers)
    pub plainly : All IsPlain kept
    pub ending : (rest ≡ []) ⊎ ((tail : List String) × (rest ≡ "--" ∷ tail))

  module _ (some_worker : 1 ≤ workers) where
    limit_value-range :
        (value : String)
        → (1 ≤ limit_value n flags output workers value)
          × (limit_value n flags output workers value ≤ workers)
    unfolding limit_value bounded
    limit_value-range value = ground (arith, some_worker)

    Reads-positive :
        {argv kept rest : List String} {asked : List ℕ}
        → Reads argv kept asked rest
        → All (λ m. 1 ≤ m) asked
    Reads-positive done = tt
    Reads-positive ended = tt
    Reads-positive (paired w f r) = ((limit_value-range _).0, Reads-positive r)
    Reads-positive (valued w v r) = ((limit_value-range _).0, Reads-positive r)
    Reads-positive (counted w c r) = ((limit_value-range _).0, Reads-positive r)
    Reads-positive (plain w p o r) = Reads-positive r

    least-range :
        (limit : ℕ) (asked : List ℕ)
        → 1 ≤ limit
        → All (λ m. 1 ≤ m) asked
        → (1 ≤ least limit asked) × (least limit asked ≤ limit)
    least-range limit [] h a = (h, omega arith)
    least-range limit (m ∷ ms) h (p, ps) =
        let (low, high) = least-range (min limit m) ms (omega arith) ps in (low, omega arith)

    -- With at least one worker, `cap_flags` takes away every worker option with its value, up to the
    -- end of the options, and writes one worker option there; a flag that is the very last word stays.
    -- The limit is the least of the allocation and of the limits that were asked for, and is between
    -- one and the allocation.
    pub cap_flags-IsCapped :
        (argv : List String)
        → (kept : List String) × (limit : ℕ) × (rest : List String) × IsCapped argv kept limit rest
    unfolding cap_flags
    cap_flags-IsCapped argv =
        let (asked, reads, e) = cap_loop-IsLoop argv workers in
        let r = cap_loop n flags output workers argv workers in
        (
          r.0,
          r.1.0,
          r.1.1,
          record {
            written = refl;
            asked = asked;
            reads = reads;
            least_of = e;
            bounds = rw e (least-range workers asked some_worker (Reads-positive reads));
            plainly = Reads-IsPlain reads;
            ending = Reads-rest reads;
          },
        )
