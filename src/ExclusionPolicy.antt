-- ===== src/ExclusionPolicy.antt =====
-- src/core/exclusion-policy.ts: which paths are not synced. A compiled pattern is the list of the
-- fragments that `globToRegExp` puts between `^` and `$`; the cache of compiled patterns returns what
-- the compilation returns.
pub mod Fragments
pub mod Globs
mod Tests
use opsblobs_obsidian.Base.{
  ℕ, ◌*◌, JsString, Bool, true, false, not, ◌&&◌, ◌||◌, List, [], ◌∷◌, ltb, leb, ◌==◌, ◌===◌,
  if◌then◌else◌, codes, contains,
}

pub data Fragment : Type 0 where
  -- `.*`
  any_run : Fragment
  -- `[^/]*`
  segment_run : Fragment
  -- `[^/]`
  segment_char : Fragment
  -- the escaped character
  literal : ℕ → Fragment

-- `*` is the code unit 42, `?` is 63.
unfoldable pub glob_fragments : JsString → List Fragment
glob_fragments [] = []
glob_fragments (c ∷ []) =
    (if c == 42 then segment_run else if c == 63 then segment_char else literal c) ∷ []
glob_fragments (c ∷ d ∷ s) =
    let rest = glob_fragments (d ∷ s) in
    let after = glob_fragments s in
    if c == 42
    then if d == 42 then any_run ∷ after else segment_run ∷ rest
    else if c == 63
    then segment_char ∷ rest
    else literal c ∷ rest

-- `.` takes all but the line ends.
abbrev pub is_any : ℕ → Bool
is_any c = not (c == 10 || c == 13 || c == 8232 || c == 8233)

-- `[^/]`
abbrev pub in_segment : ℕ → Bool
in_segment c = not (c == 47)

-- `class*` and then what `rest` takes.
unfoldable pub run_then : (ℕ → Bool) → (JsString → Bool) → JsString → Bool
run_then class rest [] = rest []
run_then class rest (c ∷ s) = rest (c ∷ s) || class c && run_then class rest s

-- One character of a class and then what `rest` takes.
abbrev pub char_then : (ℕ → Bool) → (JsString → Bool) → JsString → Bool
char_then class rest [] = false
char_then class rest (c ∷ s) = class c && rest s

abbrev pub is_empty : JsString → Bool
is_empty [] = true
is_empty (c ∷ s) = false

-- `^fragments$` on a whole path.
unfoldable pub takes : List Fragment → JsString → Bool
unfolding run_then
takes [] = is_empty
takes (any_run ∷ fs) = run_then is_any (takes fs)
takes (segment_run ∷ fs) = run_then in_segment (takes fs)
takes (segment_char ∷ fs) = char_then in_segment (takes fs)
takes (literal c ∷ fs) = char_then (λ d. d == c) (takes fs)

unfoldable pub glob_matches : JsString → JsString → Bool
unfolding takes glob_fragments
glob_matches pattern path = takes (glob_fragments pattern) path

unfoldable pub starts_with : JsString → JsString → Bool
starts_with s [] = true
starts_with [] (p ∷ ps) = false
starts_with (c ∷ s) (p ∷ ps) = c == p && starts_with s ps

abbrev pub state_dir : JsString
state_dir = codes ".opsblobs/"

abbrev pub own_plugin_dir : JsString
own_plugin_dir = codes ".obsidian/plugins/opsblobs/"

abbrev pub workspace_files : List JsString
workspace_files = codes ".obsidian/workspace.json" ∷ codes ".obsidian/workspace-mobile.json" ∷ []

abbrev pub obsidian_dir : JsString
obsidian_dir = codes ".obsidian/"

-- The settings that the policy reads; a missing list of patterns is an empty one, no cap is 0, and a
-- cap is a whole number of megabytes.
pub record SyncSettings : Type 0 where
  pub excluded_patterns : List JsString
  pub sync_obsidian_config : Bool
  pub max_file_size_mb : ℕ

abbrev pub any_matches : List JsString → JsString → Bool
any_matches [] path = false
any_matches (p ∷ ps) path = glob_matches p path || any_matches ps path

unfoldable pub is_excluded : JsString → SyncSettings → Bool
unfolding glob_matches starts_with
is_excluded path settings =
    if starts_with path state_dir
    then true
    else if starts_with path own_plugin_dir
    then true
    else if contains workspace_files path
    then true
    else if starts_with path obsidian_dir && not settings.sync_obsidian_config
    then true
    else any_matches settings.excluded_patterns path

unfoldable pub is_too_large : ℕ → SyncSettings → Bool
is_too_large size_bytes settings =
    if settings.max_file_size_mb == 0
    then false
    else ltb (settings.max_file_size_mb * 1024 * 1024) size_bytes
