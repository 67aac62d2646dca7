-- ===== src/WorkerLimits/Environment/Counted.antt =====
-- `worker_environment` of libexec/scheduler_policy.py bounds every worker count that it names.
use memcap.Prelude.{
  ap, ℕ, ◌≤◌, String, false, ◌≡◌, ◌⊎◌, ◌∙◌, ◌++◌, inl, inr, refl, none, some, List, [], ◌∷◌, arith,
  All, Bool-cases, Option-cases, Dict, lookup, lookup-put, get_or, put, string_eq, str_eq, eq_iff,
}
use memcap.WorkerLimits.{bounded, option_of, cap_flags}
use memcap.WorkerLimits.Capped.{IsCapped, cap_flags-IsCapped}
use memcap.WorkerLimits.Environment.Untouched.{
  lookup-put_other, count_all-lookup, with_preload-lookup, get_or-lookup,
}
use memcap.WorkerLimits.Tools.{Shell, capped}
use memcap.WorkerLimits.Environment.{
  counted, counted_keys, count_all, with_preload, with_goflags, worker_environment,
}
use mathlib.Core.Path.{subst, sym}

module _ (s : Shell) (workers : ℕ) (some_worker : 1 ≤ workers) where
  -- The key holds the text of a number between one and the allocation.
  abbrev pub IsCounted : Dict String String → String → Type 0
  IsCounted env key =
      (k : ℕ) × (lookup key env ≡ some (s.numbers.shown k)) × (1 ≤ k) × (k ≤ workers)

  bounded-range :
      (value : String)
      → (1 ≤ bounded s.numbers value workers) × (bounded s.numbers value workers ≤ workers)
  unfolding bounded
  bounded-range value = ground (arith, some_worker)

  put-IsCounted :
      (key : String) (env : Dict String String)
      → IsCounted (put key (counted s workers key env) env) key
  put-IsCounted key env =
      let value = get_or (s.numbers.shown workers) key env in
      let (low, high) = bounded-range value in
      (
        bounded s.numbers value workers,
        ground (arith, lookup-put key key (counted s workers key env) env, (eq_iff key key).1 refl),
        low,
        high,
      )

  put_other-IsCounted :
      (k : String) (v : String) (env : Dict String String) (key : String)
      → str_eq k key ≡ false
      → IsCounted env key
      → IsCounted (put k v env) key
  put_other-IsCounted k v env key other (n, found, low, high) =
      (n, ground (arith, lookup-put k key v env, other, found), low, high)

  -- Another count keeps the counts that are there.
  count-IsCounted :
      (k key : String) (env : Dict String String)
      → IsCounted env key
      → IsCounted (put k (counted s workers k env) env) key
  count-IsCounted k key env h = elim (Bool-cases (str_eq k key)) [
    | inl same ↦ rw ((eq_iff k key).0 same) (put-IsCounted key env)
    | inr other ↦ put_other-IsCounted k (counted s workers k env) env key other h
  ]

  count_all-keeps :
      (keys : List String) (env : Dict String String) (key : String)
      → IsCounted env key
      → IsCounted (count_all s workers keys env) key
  unfolding count_all
  count_all-keeps [] env key h = h
  count_all-keeps (k ∷ keys) env key h =
      count_all-keeps keys (put k (counted s workers k env) env) key (count-IsCounted k key env h)

  count_all-IsCounted :
      (keys : List String) (env : Dict String String)
      → All (IsCounted (count_all s workers keys env)) keys
  unfolding count_all
  count_all-IsCounted [] env = tt
  count_all-IsCounted (k ∷ keys) env =
      let next = put k (counted s workers k env) env in
      (count_all-keeps keys next k (put-IsCounted k env), count_all-IsCounted keys next)

  put_all-IsCounted :
      (v : String) (env : Dict String String) (keys : List String)
      → All (λ key. str_eq "GOFLAGS" key ≡ false) keys
      → All (IsCounted env) keys
      → All (IsCounted (put "GOFLAGS" v env)) keys
  put_all-IsCounted v env [] other h = tt
  put_all-IsCounted v env (k ∷ keys) other h =
      (put_other-IsCounted "GOFLAGS" v env k other.0 h.0, put_all-IsCounted v env keys other.1 h.1)

  with_goflags-IsCounted :
      (env : Dict String String) (keys : List String)
      → All (λ key. str_eq "GOFLAGS" key ≡ false) keys
      → All (IsCounted env) keys
      → All (IsCounted (with_goflags s workers env)) keys
  unfolding with_goflags
  with_goflags-IsCounted env keys other h =
      elim (Option-cases (s.split (get_or "" "GOFLAGS" env))) [
        | inl malformed ↦
            let same : with_goflags s workers env ≡ env = ground (arith, malformed) in
            subst (λ e. All (IsCounted e) keys) (sym same) h
        | inr (flags, words) ↦
            let v = s.join (capped s workers ("-p" ∷ []) "-p" flags) in
            let same : with_goflags s workers env ≡ put "GOFLAGS" v env = ground (arith, words) in
            subst (λ e. All (IsCounted e) keys) (sym same) (put_all-IsCounted v env keys other h)
      ]

  with_preload-IsCounted :
      (preload : String) (env : Dict String String) (key : String)
      → str_eq "NODE_OPTIONS" key ≡ false
      → IsCounted env key
      → IsCounted (with_preload s workers preload env) key
  with_preload-IsCounted preload env key other (k, found, low, high) =
      (k, with_preload-lookup s workers preload env key other ∙ found, low, high)

  -- The flags of go: malformed ones stay, others are capped.
  abbrev pub IsGoCapped : Dict String String → Dict String String → Type 0
  IsGoCapped before after =
      (s.split (get_or "" "GOFLAGS" before) ≡ none)
        × (lookup "GOFLAGS" after ≡ lookup "GOFLAGS" before)
      ⊎ (flags : List String) × (kept : List String) × (limit : ℕ) × (rest : List String) × (s.split
            (get_or "" "GOFLAGS" before)
          ≡ some flags)
        × IsCapped s.numbers ("-p" ∷ []) "-p" workers flags kept limit rest
        × (lookup "GOFLAGS" after
            ≡ some (s.join (kept ++ option_of s.numbers ("-p" ∷ []) "-p" workers limit ∷ rest)))

  with_goflags-IsGoCapped :
      (before env : Dict String String)
      → lookup "GOFLAGS" env ≡ lookup "GOFLAGS" before
      → IsGoCapped before (with_goflags s workers env)
  unfolding with_goflags
  with_goflags-IsGoCapped before env h =
      let go = get_or-lookup "" "GOFLAGS" env before h in
      elim (Option-cases (s.split (get_or "" "GOFLAGS" env))) [
        | inl malformed ↦
            let same : with_goflags s workers env ≡ env = ground (arith, malformed) in
            inl (sym (ap s.split go) ∙ malformed, ap (lookup "GOFLAGS") same ∙ h)
        | inr (flags, words) ↦
            let (kept, limit, rest, capped) =
              cap_flags-IsCapped s.numbers ("-p" ∷ []) "-p" workers some_worker flags in
            let v = s.join (cap_flags s.numbers ("-p" ∷ []) "-p" workers flags) in
            let same : with_goflags s workers env ≡ put "GOFLAGS" v env = ground (arith, words) in
            let found : lookup "GOFLAGS" (put "GOFLAGS" v env) ≡ some v =
              ground (
                arith,
                lookup-put "GOFLAGS" "GOFLAGS" v env,
                (eq_iff "GOFLAGS" "GOFLAGS").1 refl,
              ) in
            inr (
              flags,
              kept,
              limit,
              rest,
              sym (ap s.split go) ∙ words,
              capped,
              ap (lookup "GOFLAGS") same ∙ found ∙ ap (λ ws. some (s.join ws)) capped.written,
            )
      ]

  -- With at least one worker, each of the ten variables holds a number between one and the
  -- allocation, whatever it held before; and flags of go that can be split are written back with one
  -- capped worker option, while malformed ones stay.
  pub worker_environment-IsCounted :
      (preload : String) (environ : Dict String String)
      → All (IsCounted (worker_environment s workers preload environ)) (
          "MEMCAP_NODE_WORKERS" ∷ "GOMAXPROCS" ∷ "CARGO_BUILD_JOBS" ∷ "CMAKE_BUILD_PARALLEL_LEVEL"
          ∷ "OMP_NUM_THREADS" ∷ "OPENBLAS_NUM_THREADS" ∷ "MKL_NUM_THREADS" ∷ "VITEST_MAX_WORKERS"
          ∷ "VITEST_MAX_THREADS" ∷ "VITEST_MAX_FORKS" ∷ [])
        × IsGoCapped environ (worker_environment s workers preload environ)
  unfolding worker_environment
  worker_environment-IsCounted preload environ =
      let node : String = "MEMCAP_NODE_WORKERS" in
      let first = put node (counted s workers node environ) environ in
      let env = with_preload s workers preload first in
      let all = count_all s workers (counted_keys s workers) env in
      let here =
        count_all-keeps (counted_keys s workers) env node
          (with_preload-IsCounted preload first node refl (put-IsCounted node environ)) in
      let untouched =
        count_all-lookup s workers (counted_keys s workers) env "GOFLAGS"
          (refl, (refl, (refl, (refl, (refl, (refl, (refl, (refl, (refl, tt)))))))))
        ∙ with_preload-lookup s workers preload first "GOFLAGS" refl
        ∙ lookup-put_other node (counted s workers node environ) environ "GOFLAGS" refl in
      (
        with_goflags-IsCounted all (node ∷ counted_keys s workers)
            (refl, (refl, (refl, (refl, (refl, (refl, (refl, (refl, (refl, (refl, tt))))))))))
            (here, count_all-IsCounted (counted_keys s workers) env),
        with_goflags-IsGoCapped environ all untouched,
      )
