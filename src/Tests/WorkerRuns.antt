-- ===== src/Tests/WorkerRuns.antt =====
-- Concrete command lines with worker options.
use memcap.Prelude.{
  ℕ, ◌≤◌, ◌≡◌, refl, arith, if◌then◌else◌, ◌==◌, String, Bool, true, false, Option, none, some,
  List, [], ◌∷◌, ◌++◌, All, str_eq, Dict, lookup, put, string_eq,
}
use memcap.WorkerLimits.{Numbers, option_of, cap_flags}
use memcap.WorkerLimits.Capped.{IsCapped, cap_flags-IsCapped}
use memcap.WorkerLimits.Tools.{Shell, worker_argv}
use memcap.WorkerLimits.Environment.{worker_environment}
use memcap.WorkerLimits.Environment.Counted.{IsCounted, IsGoCapped, worker_environment-IsCounted}

abbrev to_number : String → Option ℕ
to_number s = if str_eq s "8" then some 8 else if str_eq s "2" then some 2 else none

abbrev show_number : ℕ → String
show_number n = if n == 2 then "2" else if n == 4 then "4" else "8"

abbrev numbers : Numbers
numbers = record {
  to_int = to_number;
  percent = λ s. none;
  is_count = λ s. str_eq s "8";
  shown = show_number;
  cpus = 10;
}

abbrev shell : Shell
shell = record {
  numbers = numbers;
  name_of = λ s. s;
  script = λ s. if str_eq s "test" then some ("jest" ∷ "--ci" ∷ []) else none;
  split = λ s. none;
  join = λ ws. "";
  strip = λ s. s;
  quoted = λ s. s;
}

-- A larger number of the user is lowered, a smaller one stays.
lowered :
    worker_argv shell 4 ("npx" ∷ "jest" ∷ "--maxWorkers=8" ∷ "a" ∷ [])
    ≡ "npx" ∷ "jest" ∷ "a" ∷ "--maxWorkers=4" ∷ []
unfolding worker_argv memcap.Prelude.any cap_flags memcap.WorkerLimits.after_equals
lowered = refl

kept_smaller :
    worker_argv shell 4 ("cargo" ∷ "build" ∷ "-j" ∷ "2" ∷ "--" ∷ "x" ∷ [])
    ≡ "cargo" ∷ "build" ∷ "--jobs=2" ∷ "--" ∷ "x" ∷ []
unfolding worker_argv memcap.Prelude.any cap_flags
kept_smaller = refl

scripted :
    worker_argv shell 4 ("npm" ∷ "run" ∷ "test" ∷ "a" ∷ [])
    ≡ "npm" ∷ "run" ∷ "test" ∷ "--" ∷ "a" ∷ "--maxWorkers=4" ∷ []
unfolding worker_argv memcap.Prelude.any memcap.Prelude.keep cap_flags
scripted = refl

-- A second end of the options in the arguments of a script: its last word is lost and the unused
-- option stays.
second_dashes :
    worker_argv shell 4 ("npm" ∷ "run" ∷ "test" ∷ "--" ∷ "a" ∷ "--" ∷ "b" ∷ [])
    ≡ "npm" ∷ "run" ∷ "test" ∷ "--" ∷ "a" ∷ "--memcap-unused=4" ∷ "--" ∷ "--maxWorkers=4" ∷ []
unfolding worker_argv memcap.Prelude.any memcap.Prelude.keep cap_flags
second_dashes = refl

abbrev jobs_argv : List String
jobs_argv = "cargo" ∷ "test" ∷ "-j8" ∷ []

cap_flags-IsCapped_example :
    (kept : List String) × (limit : ℕ) × (rest : List String) × IsCapped numbers
      ("--jobs" ∷ "-j" ∷ [])
      "--jobs"
      4
      jobs_argv
      kept
      limit
      rest
cap_flags-IsCapped_example =
    cap_flags-IsCapped numbers ("--jobs" ∷ "-j" ∷ []) "--jobs" 4 (omega arith) jobs_argv

abbrev environ : Dict String String
environ = ("GOMAXPROCS", "8") ∷ ("OMP_NUM_THREADS", "2") ∷ ("GOFLAGS", "-p=8") ∷ []

-- A shell that splits the flags of go.
abbrev go_shell : Shell
go_shell = record shell {
  split = λ s. some (s ∷ []);
  join = λ ws. elim ws [ [] ↦ "" | w ∷ vs ↦ w ];
}

go_capped : lookup "GOFLAGS" (worker_environment go_shell 4 "/p.cjs" environ) ≡ some "-p=4"
unfolding worker_environment cap_flags lookup put memcap.Prelude.any memcap.Prelude.get_or
    memcap.WorkerLimits.after_equals
go_capped = refl

worker_environment-IsCounted_example :
    All (IsCounted go_shell 4 (omega arith) (worker_environment go_shell 4 "/p.cjs" environ)) (
      "MEMCAP_NODE_WORKERS" ∷ "GOMAXPROCS" ∷ "CARGO_BUILD_JOBS" ∷ "CMAKE_BUILD_PARALLEL_LEVEL"
      ∷ "OMP_NUM_THREADS" ∷ "OPENBLAS_NUM_THREADS" ∷ "MKL_NUM_THREADS" ∷ "VITEST_MAX_WORKERS"
      ∷ "VITEST_MAX_THREADS" ∷ "VITEST_MAX_FORKS" ∷ [])
    × IsGoCapped go_shell 4 (omega arith) environ (worker_environment go_shell 4 "/p.cjs" environ)
worker_environment-IsCounted_example =
    worker_environment-IsCounted go_shell 4 (omega arith) "/p.cjs" environ
