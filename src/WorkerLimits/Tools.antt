-- ===== src/WorkerLimits/Tools.antt =====
-- `worker_argv` of libexec/scheduler_policy.py: which tools get an option.
use memcap.Prelude.{
  ℕ, String, Bool, true, false, not, ◌&&◌, ◌||◌, Option, none, some, List, [], ◌∷◌, ◌++◌,
  if◌then◌else◌, any, keep, str_eq,
}
use Prim.Native.String
use text.Mathlib.Text.{starts_with}
use memcap.WorkerLimits.{Numbers, is_one_of, cap_loop, cap_flags}

-- Paths, files and shell words: `name_of` is `Path(...).name`, `script` is `simple_words` of the named
-- script of package.json, `none` where the file or the script cannot be read or is empty; `split` and
-- `join` are those of shlex, `strip` is `str.strip` and `quoted` is `json.dumps` of a text.
pub record Shell : Type 0 where
  pub numbers : Numbers
  pub name_of : String → String
  pub script : String → Option (List String)
  pub split : String → Option (List String)
  pub join : List String → String
  pub strip : String → String
  pub quoted : String → String

-- The words before the first of these.
unfoldable pub before_any : List String → List String → List String
before_any stops [] = []
before_any stops (w ∷ ws) =
    let rest = before_any stops ws in if is_one_of w stops then [] else w ∷ rest

-- The words from the first of these on.
unfoldable pub from_any : List String → List String → List String
from_any stops [] = []
from_any stops (w ∷ ws) = let rest = from_any stops ws in if is_one_of w stops then w ∷ ws else rest

-- `words[-1:]`
unfoldable pub last_word : List String → List String
last_word [] = []
last_word (w ∷ []) = w ∷ []
last_word (w ∷ v ∷ ws) = last_word (v ∷ ws)

-- `words[:-1]`
unfoldable pub but_last : List String → List String
but_last [] = []
but_last (w ∷ []) = []
but_last (w ∷ v ∷ ws) = w ∷ but_last (v ∷ ws)

-- `words[1:]`
abbrev pub tail_of : List String → List String
tail_of [] = []
tail_of (w ∷ ws) = ws

abbrev pub begins_with : String → List String → Bool
begins_with word [] = false
begins_with word (w ∷ ws) = str_eq w word

abbrev pub in_band : List String
in_band = "--runInBand" ∷ "--run-in-band" ∷ "-i" ∷ []

-- The loop over the options of jest: whether it runs serially.
unfoldable pub is_serial : Bool → List String → Bool
is_serial serial [] = serial
is_serial serial (arg ∷ rest) =
    is_serial
      (if is_one_of arg in_band
        then not (begins_with "false" rest)
        else if any (λ f. str_eq arg (String.◌++◌ f "=true")) in_band
        then true
        else if any (λ f. str_eq arg (String.◌++◌ f "=false")) in_band
            || is_one_of arg ("--no-runInBand" ∷ "--no-run-in-band" ∷ "--no-i" ∷ [])
        then false
        else serial)
      rest

abbrev pub names_minimum : String → Bool
names_minimum a =
    is_one_of a ("--minWorkers" ∷ "--min-workers" ∷ [])
    || starts_with a "--minWorkers="
    || starts_with a "--min-workers="

module _ (s : Shell) (workers : ℕ) where
  abbrev pub capped : List String → String → List String → List String
  capped flags output argv = cap_flags s.numbers flags output workers argv

  -- expo start
  unfoldable pub expo_argv : String → List String → List String
  unfolding before_any
  expo_argv tool args =
      if any (λ a. is_one_of a ("--help" ∷ "-h" ∷ "--version" ∷ []))
        (before_any ("--" ∷ []) (tail_of args))
      then tool ∷ args
      else capped ("--max-workers" ∷ []) "--max-workers" (tool ∷ args)

  unfoldable pub jest_argv : String → List String → List String
  unfolding is_serial before_any
  jest_argv tool args =
      if is_serial false (before_any ("--" ∷ []) args)
      then tool ∷ args
      else capped ("--maxWorkers" ∷ "--max-workers" ∷ "-w" ∷ []) "--maxWorkers" (tool ∷ args)

  -- The second limit of vitest is the number that the first one has just written.
  unfoldable pub vitest_argv : String → List String → List String
  vitest_argv tool args =
      let flags = "--maxWorkers" ∷ "--max-workers" ∷ [] in
      let result = capped flags "--maxWorkers" (tool ∷ args) in
      let maximum = (cap_loop s.numbers flags "--maxWorkers" workers (tool ∷ args) workers).1.0 in
      if any names_minimum result
      then cap_flags s.numbers ("--minWorkers" ∷ "--min-workers" ∷ []) "--minWorkers" maximum result
      else result

  -- The option of go stands before the packages, and the program's own arguments stay.
  unfoldable pub go_argv : String → String → List String → List String
  unfolding before_any from_any last_word but_last
  go_argv tool verb rest =
      let stops = "-args" ∷ "--" ∷ [] in
      let cleaned = capped ("-p" ∷ []) "-p" (before_any stops rest) in
      tool ∷ verb ∷ (last_word cleaned ++ but_last cleaned ++ from_any stops rest)

  -- The tools that take an option for their workers.
  unfoldable pub tool_argv : String → List String → List String
  unfolding expo_argv jest_argv vitest_argv go_argv
  tool_argv tool [] =
      let name = s.name_of tool in
      if str_eq name "jest"
      then jest_argv tool []
      else if str_eq name "vitest"
      then vitest_argv tool []
      else tool ∷ []
  tool_argv tool (verb ∷ rest) =
      let name = s.name_of tool in
      if str_eq name "expo" && str_eq verb "start"
      then expo_argv tool (verb ∷ rest)
      else if str_eq name "jest"
      then jest_argv tool (verb ∷ rest)
      else if str_eq name "vitest"
      then vitest_argv tool (verb ∷ rest)
      else if str_eq name "playwright" && str_eq verb "test"
      then capped ("--workers" ∷ "-j" ∷ []) "--workers" (tool ∷ verb ∷ rest)
      else if str_eq name "cargo"
          && is_one_of verb ("build" ∷ "test" ∷ "check" ∷ "clippy" ∷ "run" ∷ [])
      then capped ("--jobs" ∷ "-j" ∷ []) "--jobs" (tool ∷ verb ∷ rest)
      else if str_eq name "go" && is_one_of verb ("build" ∷ "test" ∷ "install" ∷ "vet" ∷ [])
      then go_argv tool verb rest
      else tool ∷ verb ∷ rest

  -- A script of package.json: `before` are the words up to the script's name, `args` the ones after it.
  unfoldable pub run_script : Bool → List String → String → List String → List String
  unfolding tool_argv but_last
  run_script npm before script args = elim (s.script script) [
    | none ↦ before ++ script ∷ args
    | some [] ↦ before ++ script ∷ args
    | some (word ∷ words) ↦
        let own = if begins_with "--" args then tail_of args else args in
        let limited = tool_argv word (words ++ own) in
        let options =
          keep
            (λ a.
              starts_with a "--maxWorkers="
              || starts_with a "--workers="
              || starts_with a "--minWorkers=")
            limited in
        let clean = but_last (
          tail_of (
            capped ("--maxWorkers" ∷ "--workers" ∷ "--minWorkers" ∷ "-w" ∷ "-j" ∷ [])
              "--memcap-unused" ("placeholder" ∷ own))) in
        if not (is_one_of (s.name_of word) ("vitest" ∷ "jest" ∷ "playwright" ∷ []))
        then before ++ script ∷ args
        else elim options [
          | [] ↦ before ++ script ∷ args
          | o ∷ os ↦ before ++ script ∷ ((if npm then "--" ∷ [] else []) ++ clean ++ o ∷ os)
        ]
  ]

  -- npm, pnpm and yarn
  unfoldable pub script_argv : String → List String → List String
  unfolding run_script
  script_argv tool [] = tool ∷ []
  script_argv tool (a ∷ []) =
      if is_one_of a ("run" ∷ "run-script" ∷ []) || starts_with a "-"
      then tool ∷ a ∷ []
      else run_script (str_eq (s.name_of tool) "npm") (tool ∷ []) a []
  script_argv tool (a ∷ b ∷ rest) =
      let npm = str_eq (s.name_of tool) "npm" in
      if is_one_of a ("run" ∷ "run-script" ∷ [])
      then (if starts_with b "-"
          then tool ∷ a ∷ b ∷ rest
          else run_script npm (tool ∷ a ∷ []) b rest)
      else if starts_with a "-"
      then tool ∷ a ∷ b ∷ rest
      else run_script npm (tool ∷ []) a (b ∷ rest)

  -- `worker_argv(argv, cwd, workers)`
  unfoldable pub worker_argv : List String → List String
  unfolding tool_argv script_argv
  worker_argv [] = []
  worker_argv (tool ∷ []) = tool_argv tool []
  worker_argv (tool ∷ a ∷ []) =
      let name = s.name_of tool in
      let nested = worker_argv (a ∷ []) in
      if str_eq name "npx" && not (starts_with a "-")
      then tool ∷ nested
      else if is_one_of name ("npm" ∷ "pnpm" ∷ "yarn" ∷ [])
      then script_argv tool (a ∷ [])
      else tool_argv tool (a ∷ [])
  worker_argv (tool ∷ a ∷ b ∷ rest) =
      let name = s.name_of tool in
      let deeper = worker_argv (b ∷ rest) in
      let nested = worker_argv (a ∷ b ∷ rest) in
      if is_one_of name ("npx" ∷ "pnpm" ∷ "yarn" ∷ []) && str_eq a "exec"
      then tool ∷ a ∷ deeper
      else if str_eq name "npx" && not (starts_with a "-")
      then tool ∷ nested
      else if is_one_of name ("npm" ∷ "pnpm" ∷ "yarn" ∷ [])
      then script_argv tool (a ∷ b ∷ rest)
      else tool_argv tool (a ∷ b ∷ rest)
