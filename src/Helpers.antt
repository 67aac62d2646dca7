-- ===== src/Helpers.antt =====
-- Which commands are disposable helpers: `dev_server` of libexec/idle_gc.py and `helper` of
-- libexec/orphan_recovery.py, over the words of a command.
use text.Mathlib.Text.{starts_with, find?}
use memcap.Prelude.{
  String, Bool, true, false, not, ◌&&◌, ◌||◌, Option, none, some, List, [], ◌∷◌, if◌then◌else◌, any,
  all, str_eq,
}

-- What the code takes from Python's library: `words` is `shlex.split` (`none` where it raises
-- `ValueError`), `base` is `Path(word).name`, and `is_server_script` is the search for
-- `server/index.js` and the like at the end of a word.
pub record Shell : Type 0 where
  pub words : String → Option (List String)
  pub base : String → String
  pub is_server_script : String → Bool

abbrev pub among : List String → String → Bool
among [] w = false
among (x ∷ xs) w = str_eq w x || among xs w

abbrev pub is_taking_option : String → Bool
is_taking_option = among ("--require" ∷ "-r" ∷ "--import" ∷ [])

abbrev pub is_plain_option : String → Bool
is_plain_option w =
    starts_with w "--require="
    || starts_with w "--import="
    || starts_with w "--inspect"
    || starts_with w "--max-old-space-size="

-- The loop over the options of `node`: the words behind them, or `none` for an unknown option.
unfoldable pub skip_options : List String → Option (List String)
skip_options [] = some []
skip_options (w ∷ []) =
    if not (starts_with w "-")
    then some (w ∷ [])
    else if is_taking_option w || is_plain_option w
    then some []
    else none
skip_options (w ∷ v ∷ rest) =
    let two = skip_options rest in
    let one = skip_options (v ∷ rest) in
    if not (starts_with w "-")
    then some (w ∷ v ∷ rest)
    else if is_taking_option w
    then two
    else if is_plain_option w
    then one
    else none

module _ (sh : Shell) where
  -- The script that `node` runs is a development server.
  unfoldable pub is_dev_script : List String → Bool
  is_dev_script [] = false
  is_dev_script (script ∷ []) = str_eq (sh.base script) "vite" || sh.is_server_script script
  is_dev_script (script ∷ v ∷ rest) =
      str_eq (sh.base script) "vite"
      || str_eq (sh.base script) "next" && str_eq v "dev"
      || sh.is_server_script script

  -- `dev_server` of a command with these words
  unfoldable pub dev_server_words : List String → Bool
  unfolding is_dev_script skip_options
  dev_server_words [] = false
  dev_server_words (w ∷ rest) =
      if among ("vite" ∷ "next-server" ∷ []) (sh.base w)
      then true
      else if str_eq (sh.base w) "node"
      then (elim (skip_options rest) [ none ↦ false | some script ↦ is_dev_script script ])
      else false

  -- `python manage.py runserver --noreload 127.0.0.1:...`
  unfoldable pub is_manage_server : List String → Bool
  is_manage_server (w ∷ script ∷ verb ∷ rest) =
      str_eq (sh.base script) "manage.py"
      && str_eq verb "runserver"
      && any (λ a. str_eq a "--noreload") rest
      && all (λ a. str_eq a "--noreload" || starts_with a "127.0.0.1:") rest
  is_manage_server _ = false

  abbrev mentions_server : String → Bool
  mentions_server w = elim (find? w "server/index.") [ none ↦ false | some i ↦ true ]

  -- `helper` of words that do not begin with `uv run`
  unfoldable pub plain_helper : List String → Bool
  unfolding is_manage_server dev_server_words
  plain_helper [] = false
  plain_helper (w ∷ rest) =
      if among ("python" ∷ "python3" ∷ []) (sh.base w)
      then is_manage_server (w ∷ rest)
      else dev_server_words (w ∷ rest)
        && not (any mentions_server (w ∷ rest))
        && not (any (among ("build" ∷ "test" ∷ "lint" ∷ "--watch" ∷ [])) rest)

  -- `helper` of a command with these words. Behind `uv run` the code joins the rest of the words
  -- and splits the text again, which gives the same words.
  unfoldable pub helper_words : List String → Bool
  unfolding plain_helper
  helper_words [] = false
  helper_words (w ∷ []) = plain_helper (w ∷ [])
  helper_words (w ∷ v ∷ rest) =
      let inner = helper_words rest in
      if str_eq (sh.base w) "uv" && str_eq v "run" then inner else plain_helper (w ∷ v ∷ rest)

  -- `helper(command)`
  unfoldable pub helper : String → Bool
  unfolding helper_words
  helper command = elim (sh.words command) [ none ↦ false | some ws ↦ helper_words ws ]

  -- `dev_server(command)`
  unfoldable pub dev_server : String → Bool
  unfolding dev_server_words
  dev_server command = elim (sh.words command) [ none ↦ false | some ws ↦ dev_server_words ws ]
