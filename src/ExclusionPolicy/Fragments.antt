-- ===== src/ExclusionPolicy/Fragments.antt =====
-- What the fragments of a compiled glob of src/core/exclusion-policy.ts take.
use opsblobs_obsidian.Base.{
  ℕ, suc, ◌≡◌, inl, inr, refl, JsString, Bool, true, false, List, [], ◌∷◌, arith, ◌==◌,
  if◌then◌else◌, Bool-cases,
}
use opsblobs_obsidian.ExclusionPolicy.{
  Fragment, any_run, segment_run, segment_char, literal, is_any, in_segment, run_then, takes,
}

-- A path that the fragments take, piece by piece.
pub data Matches : List Fragment → JsString → Type 0 where
  done : Matches [] []
  any_stop : {fs : List Fragment} {s : JsString} → Matches fs s → Matches (any_run ∷ fs) s
  any_more :
      {fs : List Fragment} {s : JsString} (c : ℕ)
      → is_any c ≡ true
      → Matches (any_run ∷ fs) s
      → Matches (any_run ∷ fs) (c ∷ s)
  segment_stop : {fs : List Fragment} {s : JsString} → Matches fs s → Matches (segment_run ∷ fs) s
  segment_more :
      {fs : List Fragment} {s : JsString} (c : ℕ)
      → in_segment c ≡ true
      → Matches (segment_run ∷ fs) s
      → Matches (segment_run ∷ fs) (c ∷ s)
  one :
      {fs : List Fragment} {s : JsString} (c : ℕ)
      → in_segment c ≡ true
      → Matches fs s
      → Matches (segment_char ∷ fs) (c ∷ s)
  same :
      {fs : List Fragment} {s : JsString} (c : ℕ) → Matches fs s → Matches (literal c ∷ fs) (c ∷ s)

-- How many separators a text has.
abbrev pub slashes : JsString → ℕ
slashes [] = 0
slashes (c ∷ s) = if c == 47 then suc (slashes s) else slashes s

-- No `.*` among the fragments.
abbrev pub no_any_run : List Fragment → Bool
no_any_run [] = true
no_any_run (any_run ∷ fs) = false
no_any_run (segment_run ∷ fs) = no_any_run fs
no_any_run (segment_char ∷ fs) = no_any_run fs
no_any_run (literal c ∷ fs) = no_any_run fs

-- The separators among the literals.
abbrev pub literal_slashes : List Fragment → ℕ
literal_slashes [] = 0
literal_slashes (any_run ∷ fs) = literal_slashes fs
literal_slashes (segment_run ∷ fs) = literal_slashes fs
literal_slashes (segment_char ∷ fs) = literal_slashes fs
literal_slashes (literal c ∷ fs) = if c == 47 then suc (literal_slashes fs) else literal_slashes fs

run-slashes :
    (rest : JsString → Bool) (n : ℕ)
    → ((s : JsString) → rest s ≡ true → slashes s ≡ n)
    → (s : JsString) → run_then in_segment rest s ≡ true
    → slashes s ≡ n
unfolding run_then
run-slashes rest n h [] k = h [] k
run-slashes rest n h (c ∷ s) k = elim (Bool-cases (rest (c ∷ s))) [
  | inl e ↦ h (c ∷ s) e
  | inr e ↦
      let q : (in_segment c ≡ true) × (run_then in_segment rest s ≡ true) = ground (arith, e, k) in
      ground (arith, q.0, run-slashes rest n h s q.1)
]

pub takes-slashes :
    (fs : List Fragment) (s : JsString)
    → no_any_run fs ≡ true
    → takes fs s ≡ true
    → slashes s ≡ literal_slashes fs
unfolding takes
takes-slashes [] [] h k = refl
takes-slashes [] (c ∷ s) h k = cc
takes-slashes (any_run ∷ fs) s h k = cc
takes-slashes (segment_run ∷ fs) s h k =
    run-slashes (takes fs) (literal_slashes fs) (λ t m. takes-slashes fs t h m) s k
takes-slashes (segment_char ∷ fs) [] h k = cc
takes-slashes (segment_char ∷ fs) (c ∷ s) h k = ground (arith, takes-slashes fs s h (ground arith))
takes-slashes (literal d ∷ fs) [] h k = cc
takes-slashes (literal d ∷ fs) (c ∷ s) h k = ground (arith, takes-slashes fs s h (ground arith))

run-any-Matches :
    (fs : List Fragment)
    → ((s : JsString) → takes fs s ≡ true → Matches fs s)
    → (s : JsString) → run_then is_any (takes fs) s ≡ true
    → Matches (any_run ∷ fs) s
unfolding run_then
run-any-Matches fs h [] k = any_stop (h [] k)
run-any-Matches fs h (c ∷ s) k = elim (Bool-cases (takes fs (c ∷ s))) [
  | inl e ↦ any_stop (h (c ∷ s) e)
  | inr e ↦
      let q : (is_any c ≡ true) × (run_then is_any (takes fs) s ≡ true) = ground (arith, e, k) in
      any_more c q.0 (run-any-Matches fs h s q.1)
]

run-segment-Matches :
    (fs : List Fragment)
    → ((s : JsString) → takes fs s ≡ true → Matches fs s)
    → (s : JsString) → run_then in_segment (takes fs) s ≡ true
    → Matches (segment_run ∷ fs) s
unfolding run_then
run-segment-Matches fs h [] k = segment_stop (h [] k)
run-segment-Matches fs h (c ∷ s) k = elim (Bool-cases (takes fs (c ∷ s))) [
  | inl e ↦ segment_stop (h (c ∷ s) e)
  | inr e ↦
      let q : (in_segment c ≡ true) × (run_then in_segment (takes fs) s ≡ true) =
        ground (arith, e, k) in
      segment_more c q.0 (run-segment-Matches fs h s q.1)
]

pub takes-Matches : (fs : List Fragment) (s : JsString) → takes fs s ≡ true → Matches fs s
unfolding takes
takes-Matches [] [] h = done
takes-Matches [] (c ∷ s) h = cc
takes-Matches (any_run ∷ fs) s h = run-any-Matches fs (takes-Matches fs) s h
takes-Matches (segment_run ∷ fs) s h = run-segment-Matches fs (takes-Matches fs) s h
takes-Matches (segment_char ∷ fs) [] h = cc
takes-Matches (segment_char ∷ fs) (c ∷ s) h =
    one c (ground arith) (takes-Matches fs s (ground arith))
takes-Matches (literal d ∷ fs) [] h = cc
takes-Matches (literal d ∷ fs) (c ∷ s) h =
    let e : c ≡ d = ground arith in rw e (same d (takes-Matches fs s (ground arith)))

run_now :
    (class : ℕ → Bool) (rest : JsString → Bool) (s : JsString)
    → rest s ≡ true
    → run_then class rest s ≡ true
unfolding run_then
run_now class rest [] h = h
run_now class rest (c ∷ s) h = ground (arith, h)

pub Matches-takes : (fs : List Fragment) (s : JsString) → Matches fs s → takes fs s ≡ true
unfolding takes run_then
Matches-takes [] [] done = refl
Matches-takes [] (_ ∷ s) m = elim m [ ]
Matches-takes (segment_char ∷ fs) [] m = elim m [ ]
Matches-takes (literal _ ∷ fs) [] m = elim m [ ]
Matches-takes (any_run ∷ fs) s (any_stop m) = run_now is_any (takes fs) s (Matches-takes fs s m)
Matches-takes (any_run ∷ fs) (_ ∷ s) (any_more c h m) =
    ground (arith, h, Matches-takes (any_run ∷ fs) s m)
Matches-takes (segment_run ∷ fs) s (segment_stop m) =
    run_now in_segment (takes fs) s (Matches-takes fs s m)
Matches-takes (segment_run ∷ fs) (_ ∷ s) (segment_more c h m) =
    ground (arith, h, Matches-takes (segment_run ∷ fs) s m)
Matches-takes (segment_char ∷ fs) (_ ∷ s) (one c h m) = ground (arith, h, Matches-takes fs s m)
Matches-takes (literal _ ∷ fs) (_ ∷ s) (same c m) = ground (arith, Matches-takes fs s m)
