-- ===== src/WorkerLimits/Environment/Untouched.antt =====
-- The variables that a part of `worker_environment` (libexec/scheduler_policy.py) leaves as they are.
use memcap.Prelude.{
  ℕ, String, false, ◌≡◌, ◌∙◌, inl, inr, refl, List, [], ◌∷◌, arith, All, Bool-cases, Option-cases,
  Dict, lookup, lookup-put, get_or, put, string_eq, str_eq,
}
use Prim.Native.String
use memcap.WorkerLimits.{is_one_of}
use memcap.WorkerLimits.Tools.{Shell}
use memcap.WorkerLimits.Environment.{counted, count_all, with_preload}

pub lookup-put_other :
    (k : String) (v : String) (env : Dict String String) (key : String)
    → str_eq k key ≡ false
    → lookup key (put k v env) ≡ lookup key env
lookup-put_other k v env key other = ground (arith, lookup-put k key v env, other)

module _ (s : Shell) (workers : ℕ) where
  pub count_all-lookup :
      (keys : List String) (env : Dict String String) (key : String)
      → All (λ k. str_eq k key ≡ false) keys
      → lookup key (count_all s workers keys env) ≡ lookup key env
  unfolding count_all
  count_all-lookup [] env key other = refl
  count_all-lookup (k ∷ keys) env key (other, others) =
      let v = counted s workers k env in
      count_all-lookup keys (put k v env) key others ∙ lookup-put_other k v env key other

  pub with_preload-lookup :
      (preload : String) (env : Dict String String) (key : String)
      → str_eq "NODE_OPTIONS" key ≡ false
      → lookup key (with_preload s workers preload env) ≡ lookup key env
  unfolding with_preload
  with_preload-lookup preload env key other =
      elim (Option-cases (s.split (get_or "" "NODE_OPTIONS" env))) [
        | inl malformed ↦ rw malformed (lookup-put_other "NODE_OPTIONS" _ env key other)
        | inr (words, split) ↦
            elim (Bool-cases (is_one_of (String.◌++◌ "--require=" preload) words)) [
              | inl there ↦ rw (split, there) refl
              | inr absent ↦ rw (split, absent) (lookup-put_other "NODE_OPTIONS" _ env key other)
            ]
      ]

pub get_or-lookup :
    (d : String) (k : String) (env env' : Dict String String)
    → lookup k env ≡ lookup k env'
    → get_or d k env ≡ get_or d k env'
unfolding get_or
get_or-lookup d k env env' h = ground (arith, h)
