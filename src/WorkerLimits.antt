-- ===== src/WorkerLimits.antt =====
-- `bounded`, `cap_flags`, `worker_argv` and `worker_environment` of libexec/scheduler_policy.py: the
-- worker counts of build and test tools stay within the allocation.
pub mod Capped
pub mod Tools
pub mod Environment
use memcap.Prelude.{
  ℕ, ◌+◌, ◌*◌, ◌/◌, min, max, String, Bool, true, false, ◌&&◌, Option, none, some, List, [], ◌∷◌,
  ◌++◌, if◌then◌else◌, any, ◌==◌, str_eq,
}
use Prim.Native.Char.{code}
use Prim.Native.String
use text.Mathlib.Text.{starts_with}

-- What Python's texts do: `to_int` is `int(value)`, `none` where it raises and 0 for a negative
-- number; `percent` is the number of a text that `[1-9][0-9]?%|100%` matches; `is_count` is a full
-- match of `[0-9]+%?`; `shown` is the decimal text of a number; `cpus` is `os.cpu_count() or 1`.
pub record Numbers : Type 0 where
  pub to_int : String → Option ℕ
  pub percent : String → Option ℕ
  pub is_count : String → Bool
  pub shown : ℕ → String
  pub cpus : ℕ

-- `arg.split("=", 1)[1]`, of a text with an equals sign
unfoldable pub after_equals : String → String
after_equals String.[] = String.[]
after_equals (String.◌∷◌ c s) = let rest = after_equals s in if code c == 61 then s else rest

-- `arg[2:]`
abbrev pub drop_2 : String → String
drop_2 String.[] = String.[]
drop_2 (String.◌∷◌ c String.[]) = String.[]
drop_2 (String.◌∷◌ c (String.◌∷◌ d s)) = s

-- `len(f) == 2`
abbrev pub is_short : String → Bool
is_short String.[] = false
is_short (String.◌∷◌ c String.[]) = false
is_short (String.◌∷◌ c (String.◌∷◌ d String.[])) = true
is_short (String.◌∷◌ c (String.◌∷◌ d (String.◌∷◌ e s))) = false

abbrev pub is_one_of : String → List String → Bool
is_one_of s ts = any (λ t. str_eq s t) ts

module _ (n : Numbers) where
  -- `bounded(value, maximum)`
  unfoldable pub bounded : String → ℕ → ℕ
  bounded value maximum = elim (n.to_int value) [ none ↦ maximum | some k ↦ min maximum (max 1 k) ]

  module _ (flags : List String) (output : String) (workers : ℕ) where
    -- `limit_value(value)`
    unfoldable pub limit_value : String → ℕ
    unfolding bounded
    limit_value value =
        if is_one_of output ("--maxWorkers" ∷ "--workers" ∷ "--minWorkers" ∷ [])
        then (elim (n.percent value) [
          | none ↦ bounded value workers
          | some p ↦ max 1 (min workers (n.cpus * p / 100))
        ])
        else bounded value workers

    -- `any(arg.startswith(f + "=") for f in flags)`
    unfoldable pub has_value : String → Bool
    has_value arg = any (λ f. starts_with arg (String.◌++◌ f "=")) flags

    -- A short flag with its count in the same word.
    unfoldable pub has_count : String → Bool
    has_count arg = any (λ f. is_short f && starts_with arg f && n.is_count (drop_2 arg)) flags

    -- The loop of `cap_flags`: what is kept, the limit, and the rest from the end of the options on.
    -- A word that is a flag and has a word after it takes both away.
    unfoldable pub cap_loop : List String → ℕ → List String × (ℕ × List String)
    unfolding limit_value has_value has_count
    cap_loop [] limit = ([], (limit, []))
    cap_loop (arg ∷ []) limit =
        if str_eq arg "--"
        then ([], (limit, arg ∷ []))
        else if has_value arg
        then ([], (min limit (limit_value (after_equals arg)), []))
        else if has_count arg
        then ([], (min limit (limit_value (drop_2 arg)), []))
        else (arg ∷ [], (limit, []))
    cap_loop (arg ∷ value ∷ argv) limit =
        let skipped = cap_loop argv (min limit (limit_value value)) in
        let valued = cap_loop (value ∷ argv) (min limit (limit_value (after_equals arg))) in
        let counted = cap_loop (value ∷ argv) (min limit (limit_value (drop_2 arg))) in
        let next = cap_loop (value ∷ argv) limit in
        if str_eq arg "--"
        then ([], (limit, arg ∷ value ∷ argv))
        else if is_one_of arg flags
        then skipped
        else if has_value arg
        then valued
        else if has_count arg
        then counted
        else (arg ∷ next.0, next.1)

    -- `f"{output}={limit}"`
    abbrev pub option_of : ℕ → String
    option_of limit = String.◌++◌ output (String.◌++◌ "=" (n.shown limit))

    -- `cap_flags(argv, flags, output, workers)`
    unfoldable pub cap_flags : List String → List String
    unfolding cap_loop
    cap_flags argv =
        let (kept, (limit, rest)) = cap_loop argv workers in kept ++ option_of limit ∷ rest
