-- ===== src/Base/Lists.antt =====
-- Lists measured by native numbers, and JavaScript's `Set` and `Map` in insertion order.
use Prim.Native.Nat.{ℕ, zero, suc, ◌+◌, ◌-◌}
use mathlib.Core.Path.{◌≡◌, refl, sym, ◌∙◌}
use mathlib.Core.Logic.{◌⊎◌, inr}
use mathlib.Core.Bool.{Bool, false, ◌||◌}
use mathlib.Core.Option.{Option, none, some}
use mathlib.Core.List.{List, [], ◌∷◌, ◌++◌, append-nil, append_assoc}
use native.Mathlib.Omega.{arith}
use opsblobs_obsidian.Base.Tests.{if◌then◌else◌}
use opsblobs_obsidian.Base.Text.{JsString, ◌===◌}

module _ {ℓ} {A : Type ℓ} where
  abbrev pub length : List A → ℕ
  length [] = 0
  length (x ∷ xs) = suc (length xs)

  abbrev pub get_elem? : List A → ℕ → Option A
  get_elem? [] i = none
  get_elem? (x ∷ xs) zero = some x
  get_elem? (x ∷ xs) (suc i) = get_elem? xs i

  abbrev pub take : ℕ → List A → List A
  take zero xs = []
  take (suc n) [] = []
  take (suc n) (x ∷ xs) = x ∷ take n xs

  abbrev pub drop : ℕ → List A → List A
  drop zero xs = xs
  drop (suc n) [] = []
  drop (suc n) (x ∷ xs) = drop n xs

  -- `xs.slice(from, to)` for `0 ≤ from`, `0 ≤ to`.
  abbrev pub slice : List A → ℕ → ℕ → List A
  slice xs from to = take (to - from) (drop from xs)

  pub length-append : (xs ys : List A) → length (xs ++ ys) ≡ length xs + length ys
  length-append [] ys = omega arith
  length-append (x ∷ xs) ys = omega (arith, length-append xs ys)

-- A `Set<string>`: `has`, and `add`, which appends a new element.
unfoldable pub contains : List JsString → JsString → Bool
contains [] k = false
contains (x ∷ xs) k = x === k || contains xs k

unfoldable pub add : List JsString → JsString → List JsString
add [] k = k ∷ []
add (x ∷ xs) k = if x === k then x ∷ xs else x ∷ add xs k

pub contains-add :
    (xs : List JsString) (k j : JsString) → contains (add xs k) j ≡ (k === j || contains xs j)
unfolding contains add
contains-add [] k j = refl
contains-add (x ∷ xs) k j = ground (arith, contains-add xs k j)

pub contains-append :
    (xs ys : List JsString) (k : JsString)
    → contains (xs ++ ys) k ≡ (contains xs k || contains ys k)
unfolding contains
contains-append [] ys k = refl
contains-append (x ∷ xs) ys k = ground (arith, contains-append xs ys k)

-- A `Map<string, V>`: `get`, and `set`, which keeps the place of a key that is there.
module _ {ℓ} {V : Type ℓ} where
  unfoldable pub lookup : JsString → List (JsString × V) → Option V
  lookup k [] = none
  lookup k ((j, v) ∷ m) = if j === k then some v else lookup k m

  unfoldable pub insert : JsString → V → List (JsString × V) → List (JsString × V)
  insert k v [] = (k, v) ∷ []
  insert k v ((j, w) ∷ m) = if j === k then (j, v) ∷ m else (j, w) ∷ insert k v m

  pub lookup-insert :
      (k j : JsString) (v : V) (m : List (JsString × V))
      → lookup j (insert k v m) ≡ (if k === j then some v else lookup j m)
  unfolding lookup insert
  lookup-insert k j v [] = refl
  lookup-insert k j v ((i, w) ∷ m) = ground (arith, lookup-insert k j v m)

  -- `Map.delete`
  unfoldable pub erase : JsString → List (JsString × V) → List (JsString × V)
  erase k [] = []
  erase k ((j, v) ∷ m) = let rest = erase k m in if j === k then rest else (j, v) ∷ rest

  pub lookup-erase :
      (k j : JsString) (m : List (JsString × V))
      → lookup j (erase k m) ≡ (if k === j then none else lookup j m)
  unfolding lookup erase
  lookup-erase k j [] = ground arith
  lookup-erase k j ((i, w) ∷ m) = ground (arith, lookup-erase k j m)

  -- `new Map(pairs)`
  unfoldable pub map_from : List (JsString × V) → List (JsString × V) → List (JsString × V)
  unfolding insert
  map_from [] m = m
  map_from ((k, v) ∷ pairs) m = map_from pairs (insert k v m)

  -- No key is listed twice.
  abbrev pub HasUniqueKeys : List (JsString × V) → Type ℓ
  HasUniqueKeys [] = Unit
  HasUniqueKeys ((k, v) ∷ m) = (lookup k m ≡ none) × HasUniqueKeys m

  pub insert-HasUniqueKeys :
      (k : JsString) (v : V) (m : List (JsString × V))
      → HasUniqueKeys m
      → HasUniqueKeys (insert k v m)
  unfolding insert lookup
  insert-HasUniqueKeys k v [] h = (refl, tt)
  insert-HasUniqueKeys k v ((j, w) ∷ m) h =
      ground (arith, insert-HasUniqueKeys k v m h.1, lookup-insert k j v m)

  pub erase-HasUniqueKeys :
      (k : JsString) (m : List (JsString × V)) → HasUniqueKeys m → HasUniqueKeys (erase k m)
  unfolding erase
  erase-HasUniqueKeys k [] h = tt
  erase-HasUniqueKeys k ((j, w) ∷ m) h =
      ground (arith, erase-HasUniqueKeys k m h.1, lookup-erase k j m)

  pub append_key :
      (k : JsString) (v : V) (m : List (JsString × V))
      → lookup k m ≡ none
      → insert k v m ≡ m ++ ((k, v) ∷ [])
  unfolding insert lookup
  append_key k v [] h = refl
  append_key k v ((j, w) ∷ m) h = ground (arith, append_key k v m)

  pub lookup-append :
      (k : JsString) (m n : List (JsString × V))
      → lookup k m ≡ none
      → lookup k (m ++ n) ≡ lookup k n
  unfolding lookup
  lookup-append k [] n h = refl
  lookup-append k ((j, w) ∷ m) n h = ground (arith, lookup-append k m n)

  map_from_append :
      (pairs m : List (JsString × V))
      → HasUniqueKeys pairs
      → ((j : JsString) → (lookup j pairs ≡ none) ⊎ (lookup j m ≡ none))
      → map_from pairs m ≡ m ++ pairs
  unfolding map_from
  map_from_append [] m h apart = sym (append-nil m)
  map_from_append ((k, v) ∷ pairs) m h apart =
      rw (append_key k v m (fresh (apart k)))
        (map_from_append pairs (m ++ ((k, v) ∷ [])) h.1 apart' ∙ append_assoc m ((k, v) ∷ []) pairs)
    where
      fresh : (lookup k ((k, v) ∷ pairs) ≡ none) ⊎ (lookup k m ≡ none) → lookup k m ≡ none
      fresh = unfold lookup in (ground arith)

      apart' : (j : JsString) → (lookup j pairs ≡ none) ⊎ (lookup j (m ++ ((k, v) ∷ [])) ≡ none)
      apart' j = unfold lookup in (ground (arith, apart j, h.0, lookup-append j m ((k, v) ∷ [])))

  -- A map written as pairs and read back is the same, order included.
  pub map_from_same :
      (pairs : List (JsString × V)) → HasUniqueKeys pairs → map_from pairs [] ≡ pairs
  unfolding lookup
  map_from_same pairs h = map_from_append pairs [] h (λ j. inr refl)

  pub map_from-HasUniqueKeys :
      (pairs m : List (JsString × V)) → HasUniqueKeys m → HasUniqueKeys (map_from pairs m)
  unfolding map_from
  map_from-HasUniqueKeys [] m h = h
  map_from-HasUniqueKeys ((k, v) ∷ pairs) m h =
      map_from-HasUniqueKeys pairs (insert k v m) (insert-HasUniqueKeys k v m h)
