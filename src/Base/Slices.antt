-- ===== src/Base/Slices.antt =====
-- Laws of `take`, `drop` and `slice`.
use Prim.Native.Nat.{ℕ, zero, suc, ◌+◌, ◌-◌, ◌≤◌}
use mathlib.Core.Path.{◌≡◌, refl, ap, sym, ◌∙◌}
use mathlib.Core.List.{List, [], ◌∷◌, ◌++◌}
use native.Mathlib.Omega.{arith}
use opsblobs_obsidian.Base.Lists.{length, take, drop, slice}

module _ {ℓ} {A : Type ℓ} where
  pub drop_nil : (n : ℕ) → drop {A = A} n [] ≡ []
  drop_nil zero = refl
  drop_nil (suc n) = refl

  pub take_nil : (n : ℕ) → take {A = A} n [] ≡ []
  take_nil zero = refl
  take_nil (suc n) = refl

  pub drop-drop : (k n m : ℕ) (xs : List A) → m ≡ n + k → drop k (drop n xs) ≡ drop m xs
  drop-drop k zero m xs e = ap (λ (j : ℕ). drop j xs) (omega arith)
  drop-drop k (suc n) m [] e = drop_nil k ∙ sym (drop_nil m)
  drop-drop k (suc n) zero (x ∷ xs) e = absurd (omega arith)
  drop-drop k (suc n) (suc m) (x ∷ xs) e = drop-drop k n m xs (omega arith)

  pub take_split :
      (n k m : ℕ) (xs : List A) → m ≡ n + k → take m xs ≡ take n xs ++ take k (drop n xs)
  take_split zero k m xs e = ap (λ (j : ℕ). take j xs) (omega arith)
  take_split (suc n) k zero xs e = absurd (omega arith)
  take_split (suc n) k (suc m) [] e = sym (take_nil k)
  take_split (suc n) k (suc m) (x ∷ xs) e = ap (◌∷◌ x) (take_split n k m xs (omega arith))

  take-drop : (n : ℕ) (xs : List A) → xs ≡ take n xs ++ drop n xs
  take-drop zero xs = refl
  take-drop (suc n) [] = refl
  take-drop (suc n) (x ∷ xs) = ap (◌∷◌ x) (take-drop n xs)

  pub take-append : (xs ys : List A) → take (length xs) (xs ++ ys) ≡ xs
  take-append [] ys = refl
  take-append (x ∷ xs) ys = ap (◌∷◌ x) (take-append xs ys)

  pub drop-append : (xs ys : List A) → drop (length xs) (xs ++ ys) ≡ ys
  drop-append [] ys = refl
  drop-append (x ∷ xs) ys = drop-append xs ys

  pub take_all : (n : ℕ) (xs : List A) → length xs ≤ n → take n xs ≡ xs
  take_all zero [] h = refl
  take_all zero (x ∷ xs) h = absurd (omega arith)
  take_all (suc n) [] h = refl
  take_all (suc n) (x ∷ xs) h = ap (◌∷◌ x) (take_all n xs (omega arith))

  pub drop_all : (n : ℕ) (xs : List A) → length xs ≤ n → drop n xs ≡ []
  drop_all zero [] h = refl
  drop_all zero (x ∷ xs) h = absurd (omega arith)
  drop_all (suc n) [] h = refl
  drop_all (suc n) (x ∷ xs) h = drop_all n xs (omega arith)

  pub length-drop : (n : ℕ) (xs : List A) → length (drop n xs) ≡ length xs - n
  length-drop zero xs = omega arith
  length-drop (suc n) [] = omega arith
  length-drop (suc n) (x ∷ xs) = omega (arith, length-drop n xs)

  -- A slice that ends where it starts, or before, is empty.
  pub slice_empty : (xs : List A) (i j : ℕ) → j ≤ i → slice xs i j ≡ []
  slice_empty xs i j h = let e : j - i ≡ 0 = omega arith in ap (λ (n : ℕ). take n (drop i xs)) e

  -- A slice to the end.
  pub slice_end : (xs : List A) (i : ℕ) → slice xs i (length xs) ≡ drop i xs
  slice_end xs i = take_all _ (drop i xs) (omega (arith, length-drop i xs))

  -- A slice grows by the elements that follow it.
  pub slice_extend :
      (xs ys rest : List A) (i j k : ℕ)
      → i ≤ j
      → k ≡ j + length ys
      → drop j xs ≡ ys ++ rest
      → slice xs i k ≡ slice xs i j ++ ys
  slice_extend xs ys rest i j k h e d =
      take_split (j - i) (length ys) (k - i) (drop i xs) (omega arith)
      ∙ ap (λ (zs : List A). slice xs i j ++ zs)
          (ap (take (length ys)) (drop-drop (j - i) i j xs (omega arith) ∙ d) ∙ take-append ys rest)

  pub drop-slice : (xs : List A) (i j : ℕ) → i ≤ j → drop i xs ≡ slice xs i j ++ drop j xs
  drop-slice xs i j h =
      take-drop (j - i) (drop i xs)
      ∙ ap (λ (zs : List A). slice xs i j ++ zs) (drop-drop (j - i) i j xs (omega arith))
