-- ===== src/Base/Text.antt =====
-- A JavaScript string is the list of its UTF-16 code units. `===` and `<` on strings.
use Prim.Native.Nat.{ℕ}
use Prim.Native.Char.{code}
use Prim.Native.String.{String}
use mathlib.Core.Path.{◌≡◌, refl}
use mathlib.Core.Logic.{◌⊎◌, inl, inr, ite, dite}
use mathlib.Core.Bool.{Bool, true, false}
use mathlib.Core.List.{List, [], ◌∷◌}
use native.Mathlib.Omega.{arith}
use native.Mathlib.Decide.{ℕ_discrete}
use opsblobs_obsidian.Base.Tests.{ltb, ◌==◌, if◌then◌else◌}

abbrev pub JsString : Type 0
JsString = List ℕ

-- The code units of an ASCII literal.
abbrev pub codes : String → JsString
codes String.[] = []
codes (String.◌∷◌ c s) = code c ∷ codes s

pub head_eq : {x y : ℕ} {s t : JsString} → ◌≡◌ {A = JsString} (x ∷ s) (y ∷ t) → x ≡ y
head_eq p = cc

pub tail_eq : {x y : ℕ} {s t : JsString} → ◌≡◌ {A = JsString} (x ∷ s) (y ∷ t) → s ≡ t
tail_eq p = cc

-- Shut in proofs, where a split on `s === t` yields the equation or its negation.
unfoldable pub str_dec : Discrete JsString
unfolding ℕ_discrete
str_dec [] [] = yes refl
str_dec [] (y ∷ t) = no (λ p. cc)
str_dec (x ∷ s) [] = no (λ p. cc)
str_dec (x ∷ s) (y ∷ t) =
    let rest = str_dec s t in
    dite (ℕ_discrete x y) (λ e. dite rest (λ es. yes (cc (e, es))) (λ n. no (λ p. n (tail_eq p))))
      (λ n. no (λ p. n (head_eq p)))

infix 50 ◌===◌
abbrev pub ◌===◌ : JsString → JsString → Bool
s === t = ite (str_dec s t) true false

-- `s < t`: lexicographic by code unit.
unfoldable pub str_lt : JsString → JsString → Bool
str_lt [] [] = false
str_lt [] (y ∷ t) = true
str_lt (x ∷ s) [] = false
str_lt (x ∷ s) (y ∷ t) = if ltb x y then true else if x == y then str_lt s t else false

pub str_lt_irrefl : (s : JsString) → str_lt s s ≡ false
unfolding str_lt
str_lt_irrefl [] = refl
str_lt_irrefl (x ∷ s) = ground (arith, str_lt_irrefl s)

pub str_lt_asymm : (s t : JsString) → str_lt s t ≡ true → str_lt t s ≡ false
unfolding str_lt
str_lt_asymm [] [] h = refl
str_lt_asymm [] (y ∷ t) h = refl
str_lt_asymm (x ∷ s) [] h = cc
str_lt_asymm (x ∷ s) (y ∷ t) h = ground (arith, str_lt_asymm s t)

pub str_lt_trans : (s t u : JsString) → str_lt s t ≡ true → str_lt t u ≡ true → str_lt s u ≡ true
unfolding str_lt
str_lt_trans [] [] u h k = k
str_lt_trans [] (y ∷ t) [] h k = k
str_lt_trans [] (y ∷ t) (z ∷ u) h k = refl
str_lt_trans (x ∷ s) [] u h k = cc
str_lt_trans (x ∷ s) (y ∷ t) [] h k = k
str_lt_trans (x ∷ s) (y ∷ t) (z ∷ u) h k = ground (arith, str_lt_trans s t u)

pub str_lt_total : (s t : JsString) → (str_lt s t ≡ true) ⊎ (str_lt t s ≡ true) ⊎ (s ≡ t)
unfolding str_lt
str_lt_total [] [] = inr (inr refl)
str_lt_total [] (y ∷ t) = inl refl
str_lt_total (x ∷ s) [] = inr (inl refl)
str_lt_total (x ∷ s) (y ∷ t) = ground (arith, str_lt_total s t)
