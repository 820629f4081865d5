-- ===== src/ExclusionPolicy/Globs.antt =====
-- What the globs of src/core/exclusion-policy.ts match.
use opsblobs_obsidian.Base.{
  ℕ, ◌≡◌, ◌≢◌, ◌++◌, ◌↔◌, inl, inr, refl, ◌∙◌, JsString, Bool, true, false, not, ◌&&◌, ◌||◌, List,
  [], ◌∷◌, arith, ◌==◌, if◌then◌else◌, contains, Bool-cases,
}
use opsblobs_obsidian.ExclusionPolicy.{
  Fragment, any_run, segment_run, segment_char, literal, glob_fragments, glob_matches, starts_with,
  SyncSettings, any_matches, is_excluded, state_dir, own_plugin_dir, obsidian_dir, workspace_files,
}
use opsblobs_obsidian.ExclusionPolicy.Fragments.{
  Matches, done, any_stop, any_more, segment_stop, segment_more, one, same, slashes, no_any_run,
  literal_slashes, takes-Matches, Matches-takes, takes-slashes,
}

abbrev pub AllOf : (ℕ → Type 0) → JsString → Type 0
AllOf P [] = Unit
AllOf P (c ∷ s) = P c × AllOf P s

-- No line feed, carriage return, line separator or paragraph separator.
abbrev pub IsNoLineEnd : ℕ → Type 0
IsNoLineEnd c = (c ≢ 10) × (c ≢ 13) × (c ≢ 8232) × (c ≢ 8233)

abbrev pub IsNoSlash : ℕ → Type 0
IsNoSlash c = c ≢ 47

-- What a pattern means for a path, `*` being the code unit 42 and `?` 63: the pattern is read from the
-- left, `**` before `*`.
pub data Fits : JsString → JsString → Type 0 where
  ended : {p s : JsString} → p ≡ [] → s ≡ [] → Fits p s
  double_star :
      {p s : JsString} (run q t : JsString)
      → p ≡ 42 ∷ 42 ∷ q
      → s ≡ run ++ t
      → AllOf IsNoLineEnd run
      → Fits q t
      → Fits p s
  star :
      {p s : JsString} (run q t : JsString)
      → p ≡ 42 ∷ q
      → ((r : JsString) → q ≢ 42 ∷ r)
      → s ≡ run ++ t
      → AllOf IsNoSlash run
      → Fits q t
      → Fits p s
  question :
      {p s : JsString} (c : ℕ) (q t : JsString)
      → p ≡ 63 ∷ q
      → s ≡ c ∷ t
      → IsNoSlash c
      → Fits q t
      → Fits p s
  itself :
      {p s : JsString} (c : ℕ) (q t : JsString)
      → p ≡ c ∷ q
      → c ≢ 42
      → c ≢ 63
      → s ≡ c ∷ t
      → Fits q t
      → Fits p s

-- A run and what is left after it.
abbrev RunThen : (ℕ → Type 0) → List Fragment → JsString → Type 0
RunThen P fs s = (run t : JsString) × (s ≡ run ++ t) × AllOf P run × Matches fs t

any_cut : (fs : List Fragment) (s : JsString) → Matches (any_run ∷ fs) s → RunThen IsNoLineEnd fs s
any_cut fs s (any_stop m) = ([], s, refl, tt, m)
any_cut fs (_ ∷ s) (any_more c h m) =
    let (run, t, e, all, k) = any_cut fs s m in
    (c ∷ run, t, cc e, ((ground arith, ground arith, ground arith, ground arith), all), k)

segment_cut :
    (fs : List Fragment) (s : JsString) → Matches (segment_run ∷ fs) s → RunThen IsNoSlash fs s
segment_cut fs s (segment_stop m) = ([], s, refl, tt, m)
segment_cut fs (_ ∷ s) (segment_more c h m) =
    let (run, t, e, all, k) = segment_cut fs s m in (c ∷ run, t, cc e, (ground arith, all), k)

any_runs :
    (fs : List Fragment) (run t : JsString)
    → AllOf IsNoLineEnd run
    → Matches fs t
    → Matches (any_run ∷ fs) (run ++ t)
any_runs fs [] t h m = any_stop m
any_runs fs (c ∷ run) t (h, all) m = any_more c (ground (arith, h)) (any_runs fs run t all m)

segment_runs :
    (fs : List Fragment) (run t : JsString)
    → AllOf IsNoSlash run
    → Matches fs t
    → Matches (segment_run ∷ fs) (run ++ t)
segment_runs fs [] t h m = segment_stop m
segment_runs fs (c ∷ run) t (h, all) m =
    segment_more c (ground (arith, h)) (segment_runs fs run t all m)

-- The fragment of a character that no second star follows.
abbrev fragment_of : ℕ → Fragment
fragment_of c = if c == 42 then segment_run else if c == 63 then segment_char else literal c

glob_one : (c : ℕ) → glob_fragments (c ∷ []) ≡ fragment_of c ∷ glob_fragments []
unfolding glob_fragments
glob_one c = refl

glob_more :
    (c d : ℕ) (p : JsString)
    → (c == 42 && d == 42) ≡ false
    → glob_fragments (c ∷ d ∷ p) ≡ fragment_of c ∷ glob_fragments (d ∷ p)
unfolding glob_fragments
glob_more c d p h = ground (arith, h)

glob_stars :
    (c d : ℕ) (p : JsString)
    → (c == 42 && d == 42) ≡ true
    → glob_fragments (c ∷ d ∷ p) ≡ any_run ∷ glob_fragments p
unfolding glob_fragments
glob_stars c d p h = ground (arith, h)

char_cut :
    (fs : List Fragment) (s : JsString)
    → Matches (segment_char ∷ fs) s
    → (c : ℕ) × (t : JsString) × (s ≡ c ∷ t) × IsNoSlash c × Matches fs t
char_cut fs [] m = elim m [ ]
char_cut fs (_ ∷ s) (one c h m) = (c, s, refl, ground arith, m)

literal_cut :
    (d : ℕ) (fs : List Fragment) (s : JsString)
    → Matches (literal d ∷ fs) s
    → (t : JsString) × (s ≡ d ∷ t) × Matches fs t
literal_cut d fs [] m = elim m [ ]
literal_cut _ fs (_ ∷ s) (same c m) = (s, refl, m)

-- One character of the pattern, given what the rest of it means.
one_Fits :
    (c : ℕ) (q s : JsString)
    → (c ≡ 42 → (r : JsString) → q ≢ 42 ∷ r)
    → ((t : JsString) → Matches (glob_fragments q) t → Fits q t)
    → Matches (fragment_of c ∷ glob_fragments q) s
    → Fits (c ∷ q) s
one_Fits c q s lone ih m = elim (Bool-cases (c == 42)) [
  | inl e ↦
      let m' : Matches (segment_run ∷ glob_fragments q) s = rw e at m in
      let (run, t, k, all, n) = segment_cut (glob_fragments q) s m' in
      let is_star : c ≡ 42 = ground arith in star run q t (cc is_star) (lone is_star) k all (ih t n)
  | inr e ↦ elim (Bool-cases (c == 63)) [
    | inl f ↦
        let m' : Matches (segment_char ∷ glob_fragments q) s = rw (e, f) at m in
        let (d, t, k, all, n) = char_cut (glob_fragments q) s m' in
        let is_question : c ≡ 63 = ground arith in question d q t (cc is_question) k all (ih t n)
    | inr f ↦
        let m' : Matches (literal c ∷ glob_fragments q) s = rw (e, f) at m in
        let (t, k, n) = literal_cut c (glob_fragments q) s m' in
        itself c q t refl (ground arith) (ground arith) k (ih t n)
  ]
]

Matches-Fits : (p s : JsString) → Matches (glob_fragments p) s → Fits p s
Matches-Fits [] s m = ended refl (nothing s (unfold glob_fragments in m))
  where
    nothing : (s : JsString) → Matches [] s → s ≡ []
    nothing [] m = refl
    nothing (_ ∷ s) m = elim m [ ]
Matches-Fits (c ∷ []) s m = one_Fits c [] s (λ e r k. cc) (Matches-Fits []) (rw (glob_one c) at m)
Matches-Fits (c ∷ d ∷ p) s m = elim (Bool-cases (c == 42 && d == 42)) [
  | inl e ↦
      let m' : Matches (any_run ∷ glob_fragments p) s = rw (glob_stars c d p e) at m in
      let (run, t, k, all, n) = any_cut (glob_fragments p) s m' in
      let first : c ≡ 42 = ground (arith, e) in
      let second : d ≡ 42 = ground (arith, e) in
      double_star run p t (cc (first, second)) k all (Matches-Fits p t n)
  | inr e ↦
      one_Fits c (d ∷ p) s
        (λ q r k. let second : d ≡ 42 = cc k in absurd (ground (arith, e, q, second)))
        (Matches-Fits (d ∷ p)) (rw (glob_more c d p e) at m)
]

-- A star that no other follows, or any other character.
single :
    (c : ℕ) (q : JsString)
    → (c ≡ 42 → (r : JsString) → q ≢ 42 ∷ r)
    → glob_fragments (c ∷ q) ≡ fragment_of c ∷ glob_fragments q
single c [] lone = glob_one c
single c (d ∷ q) lone = elim (Bool-cases (c == 42 && d == 42)) [
  | inl e ↦
      let second : d ≡ 42 = ground (arith, e) in absurd (lone (ground (arith, e)) q (cc second))
  | inr e ↦ glob_more c d q e
]

Fits-Matches : {p s : JsString} → Fits p s → Matches (glob_fragments p) s
Fits-Matches (ended e k) = rw (e, k) (unfold glob_fragments in done)
Fits-Matches (double_star run q t e k all f) =
    rw (e, k, glob_stars 42 42 q refl) (any_runs (glob_fragments q) run t all (Fits-Matches f))
Fits-Matches (star run q t e lone k all f) =
    rw (e, k, single 42 q (λ _. lone)) (segment_runs (glob_fragments q) run t all (Fits-Matches f))
Fits-Matches (question c q t e k n f) =
    rw (e, k, single 63 q (λ z. absurd (ground arith))) (one c (ground (arith, n)) (Fits-Matches f))
Fits-Matches (itself c q t e lone other k f) =
    rw (e, k, single c q (λ z. absurd (lone z)), fragment_of_other c lone other)
      (same c (Fits-Matches f))
  where
    fragment_of_other : (c : ℕ) → c ≢ 42 → c ≢ 63 → fragment_of c ≡ literal c
    fragment_of_other c n m = ground (arith, n, m)

-- The matcher accepts a path exactly when the path can be cut into pieces that the parts of the pattern
-- stand for, in order and from its first character to its last: `**` for any text without a line end,
-- a `*` that no other follows for any text without a separator, `?` for one character other than a
-- separator, and each other character for itself.
pub glob_matches_iff :
    (pattern path : JsString) → (glob_matches pattern path ≡ true) ↔ Fits pattern path
unfolding glob_matches
glob_matches_iff pattern path = (
  λ h. Matches-Fits pattern path (takes-Matches (glob_fragments pattern) path h),
  λ f. Matches-takes (glob_fragments pattern) path (Fits-Matches f),
)

-- Does the pattern hold two stars in a row?
abbrev pub has_double_star : JsString → Bool
has_double_star [] = false
has_double_star (c ∷ []) = false
has_double_star (c ∷ d ∷ s) = c == 42 && d == 42 || has_double_star (d ∷ s)

glob_fragments-slashes :
    (p : JsString)
    → has_double_star p ≡ false
    → (no_any_run (glob_fragments p) ≡ true) × (literal_slashes (glob_fragments p) ≡ slashes p)
unfolding glob_fragments
glob_fragments-slashes [] h = (refl, refl)
glob_fragments-slashes (c ∷ []) h = (ground arith, ground arith)
glob_fragments-slashes (c ∷ d ∷ s) h =
    let k = glob_fragments-slashes (d ∷ s) (ground arith) in
    (ground (arith, h, k.0), ground (arith, h, k.1))

-- A pattern without `**` matches only paths with as many separators as it has itself: neither `*` nor
-- `?` reaches into another directory.
pub glob_matches-slashes :
    (pattern path : JsString)
    → has_double_star pattern ≡ false
    → glob_matches pattern path ≡ true
    → slashes path ≡ slashes pattern
unfolding glob_matches
glob_matches-slashes pattern path h k =
    let (n, e) = glob_fragments-slashes pattern h in
    takes-slashes (glob_fragments pattern) path n k ∙ e

first_three :
    (a b c d f g : Bool)
    → (if a
        then true
        else if b
        then true
        else if c
        then true
        else if d && not true
        then true
        else false)
      ≡ true
    → (if a then true else if b then true else if c then true else if d && not f then true else g)
      ≡ true
first_three a b c d f g h = ground arith

-- The most permissive settings: no pattern, no cap, and the configuration directory synced.
abbrev pub open_settings : SyncSettings
open_settings = record { excluded_patterns = []; sync_obsidian_config = true; max_file_size_mb = 0 }

-- No settings bring back a path that the most permissive ones exclude: its metadata, the plugin's own
-- directory and the workspace files.
pub is_excluded-open_settings :
    (path : JsString) (settings : SyncSettings)
    → is_excluded path open_settings ≡ true
    → is_excluded path settings ≡ true
unfolding is_excluded
is_excluded-open_settings path settings h =
    first_three (starts_with path state_dir) (starts_with path own_plugin_dir)
      (contains workspace_files path) (starts_with path obsidian_dir) settings.sync_obsidian_config
      (any_matches settings.excluded_patterns path) h
