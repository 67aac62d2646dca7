-- ===== src/WorkerLimits/Environment.antt =====
-- `worker_environment` of libexec/scheduler_policy.py: the environment of a managed command.
pub mod Counted
pub mod Untouched
use memcap.Prelude.{
  String, Bool, false, none, some, List, [], ◌∷◌, if◌then◌else◌, Dict, get_or, put, string_eq, ℕ,
}
use Prim.Native.String
use memcap.WorkerLimits.{bounded, is_one_of}
use memcap.WorkerLimits.Tools.{Shell, capped}

module _ (s : Shell) (workers : ℕ) where
  -- `str(bounded(env.get(key, str(workers)), workers))`
  abbrev pub counted : String → Dict String String → String
  counted key env =
      s.numbers.shown (bounded s.numbers (get_or (s.numbers.shown workers) key env) workers)

  -- The loop over the keys.
  unfoldable pub count_all : List String → Dict String String → Dict String String
  unfolding bounded
  count_all [] env = env
  count_all (key ∷ keys) env = count_all keys (put key (counted key env) env)

  abbrev pub counted_keys : List String
  counted_keys =
      "GOMAXPROCS" ∷ "CARGO_BUILD_JOBS" ∷ "CMAKE_BUILD_PARALLEL_LEVEL" ∷ "OMP_NUM_THREADS"
      ∷ "OPENBLAS_NUM_THREADS" ∷ "MKL_NUM_THREADS" ∷ "VITEST_MAX_WORKERS" ∷ "VITEST_MAX_THREADS"
      ∷ "VITEST_MAX_FORKS" ∷ []

  -- The preload of node, unless it is among the options.
  unfoldable pub with_preload : String → Dict String String → Dict String String
  with_preload preload env =
      let options = get_or "" "NODE_OPTIONS" env in
      let installed : Bool = elim (s.split options) [
        | none ↦ false
        | some words ↦ is_one_of (String.◌++◌ "--require=" preload) words
      ] in
      if installed
      then env
      else put "NODE_OPTIONS"
          (s.strip (String.◌++◌ options (String.◌++◌ " --require=" (s.quoted preload)))) env

  -- The flags of go; malformed ones stay.
  unfoldable pub with_goflags : Dict String String → Dict String String
  with_goflags env = elim (s.split (get_or "" "GOFLAGS" env)) [
    | none ↦ env
    | some flags ↦ put "GOFLAGS" (s.join (capped s workers ("-p" ∷ []) "-p" flags)) env
  ]

  -- `worker_environment(environ, workers)`; `preload` is the path of node_workers.cjs.
  unfoldable pub worker_environment : String → Dict String String → Dict String String
  unfolding with_preload count_all with_goflags
  worker_environment preload environ =
      let key : String = "MEMCAP_NODE_WORKERS" in
      with_goflags
        (count_all counted_keys (with_preload preload (put key (counted key environ) environ)))
