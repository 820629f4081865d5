-- ===== src/Diff3/Patience/Range.antt =====
-- The range of the anchors of `patienceAnchors` (src/merge/diff3.ts).
use opsblobs_obsidian.Base.{
  ℕ, zero, suc, ◌+◌, ◌≤◌, ◌<◌, ◌≡◌, JsString, Option, none, some, List, [], ◌∷◌, ◌++◌, length,
  get_elem?, leb, ◌===◌, lookup, arith, Bool-cases, inl, inr,
}
use opsblobs_obsidian.Diff3.{Result, ok, err, type_error, out_of_fuel, ◌>>=◌}
use opsblobs_obsidian.Diff3.Patience.{
  Anchor, push_index, count_lines, single_pair, unique_pairs, insert_pair, sort_pairs,
}

-- Does not run out of fuel, and what it returns has the property.
abbrev pub Runs {ℓ} : {A : Type ℓ} → (A → Type 0) → Result A → Type 0
Runs P (ok a) = P a
Runs P (err type_error) = Unit
Runs P (err out_of_fuel) = ⊥

pub then-Runs {ℓ κ} :
    {A : Type ℓ} {B : Type κ} (P : A → Type 0) (Q : B → Type 0) (r : Result A) (f : A → Result B)
    → Runs P r
    → ((a : A) → P a → Runs Q (f a))
    → Runs Q (r >>= f)
then-Runs P Q (ok a) f h k = k a h
then-Runs P Q (err type_error) f h k = tt
then-Runs P Q (err out_of_fuel) f h k = h

-- Each a-index is in the range.
abbrev pub InRange : ℕ → ℕ → List Anchor → Type 0
InRange lo hi [] = Unit
InRange lo hi (p ∷ ps) = (lo ≤ p.0) × (p.0 < hi) × InRange lo hi ps

some_anchor : {a b : Anchor} → ◌≡◌ {A = Option Anchor} (some a) (some b) → a ≡ b
some_anchor e = cc

module _ (lo hi : ℕ) where
  abbrev pub IndicesIn : List ℕ → Type 0
  IndicesIn [] = Unit
  IndicesIn (i ∷ is) = (lo ≤ i) × (i < hi) × IndicesIn is

  abbrev pub CountsIn : List (JsString × List ℕ) → Type 0
  CountsIn [] = Unit
  CountsIn ((line, is) ∷ m) = IndicesIn is × CountsIn m

  snoc-IndicesIn :
      (is : List ℕ) (i : ℕ) → IndicesIn is → lo ≤ i → i < hi → IndicesIn (is ++ (i ∷ []))
  snoc-IndicesIn [] i h k l = (k, l, tt)
  snoc-IndicesIn (j ∷ is) i h k l = (h.0, h.1, snoc-IndicesIn is i h.2 k l)

  push-CountsIn :
      (line : JsString) (i : ℕ) (m : List (JsString × List ℕ))
      → CountsIn m
      → lo ≤ i
      → i < hi
      → CountsIn (push_index line i m)
  unfolding push_index
  push-CountsIn line i [] h k l = ((k, l, tt), tt)
  push-CountsIn line i ((j, is) ∷ m) h k l = elim (Bool-cases (j === line)) [
    | inl e ↦ rw e (snoc-IndicesIn is i h.0 k l, h.1)
    | inr e ↦ rw e (h.0, push-CountsIn line i m h.1 k l)
  ]

  pub count-CountsIn :
      (ls : List JsString) (i : ℕ) (m : List (JsString × List ℕ))
      → CountsIn m
      → lo ≤ i
      → i + length ls ≤ hi
      → CountsIn (count_lines ls i m)
  unfolding count_lines
  count-CountsIn [] i m h k l = h
  count-CountsIn (x ∷ ls) i m h k l =
      count-CountsIn ls (i + 1) (push_index x i m) (push-CountsIn x i m h k (omega (arith, l)))
        (omega (arith, k)) (omega (arith, l))

  append-InRange :
      (ps qs : List Anchor) → InRange lo hi ps → InRange lo hi qs → InRange lo hi (ps ++ qs)
  append-InRange [] qs h k = k
  append-InRange (p ∷ ps) qs h k = (h.0, h.1, append-InRange ps qs h.2 k)

  single-InRange :
      (is : List ℕ) (o : Option (List ℕ)) → IndicesIn is → InRange lo hi (single_pair is o)
  single-InRange [] o h = tt
  single-InRange (i ∷ []) none h = tt
  single-InRange (i ∷ []) (some []) h = tt
  single-InRange (i ∷ []) (some (j ∷ [])) h = (h.0, h.1, tt)
  single-InRange (i ∷ []) (some (j ∷ k ∷ js)) h = tt
  single-InRange (i ∷ j ∷ is) o h = tt

  pub unique-InRange :
      (m b_count : List (JsString × List ℕ)) → CountsIn m → InRange lo hi (unique_pairs m b_count)
  unfolding unique_pairs
  unique-InRange [] b_count h = tt
  unique-InRange ((line, is) ∷ m) b_count h =
      append-InRange (single_pair is (lookup line b_count)) (unique_pairs m b_count)
        (single-InRange is (lookup line b_count) h.0) (unique-InRange m b_count h.1)

  insert-InRange :
      (p : Anchor) (ps : List Anchor)
      → lo ≤ p.0
      → p.0 < hi
      → InRange lo hi ps
      → InRange lo hi (insert_pair p ps)
  unfolding insert_pair
  insert-InRange p [] h k l = (h, k, tt)
  insert-InRange p (q ∷ qs) h k l = elim (Bool-cases (leb p.0 q.0)) [
    | inl e ↦ rw e (h, k, l)
    | inr e ↦ rw e (l.0, l.1, insert-InRange p qs h k l.2)
  ]

  pub sort-InRange : (ps : List Anchor) → InRange lo hi ps → InRange lo hi (sort_pairs ps)
  unfolding sort_pairs
  sort-InRange [] h = tt
  sort-InRange (p ∷ ps) h = insert-InRange p (sort_pairs ps) h.0 h.1 (sort-InRange ps h.2)

  pub get-InRange :
      (ps : List Anchor) (k : ℕ) (p : Anchor)
      → InRange lo hi ps
      → get_elem? ps k ≡ some p
      → (lo ≤ p.0) × (p.0 < hi)
  get-InRange [] k p h e = cc
  get-InRange (q ∷ ps) zero p h e = rw (← some_anchor e) (h.0, h.1)
  get-InRange (q ∷ ps) (suc k) p h e = get-InRange ps k p h.2 e
