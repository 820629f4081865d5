-- ===== src/Diff3/Patience/Fuel.antt =====
-- The fuel of the searches of `longestIncreasingSubsequence` (src/merge/diff3.ts).
use opsblobs_obsidian.Base.{
  ℕ, zero, suc, ◌+◌, ◌-◌, ◌/◌, ◌≤◌, ◌<◌, ◌≡◌, refl, JsString, Option, none, some, List, [], ◌∷◌,
  ◌++◌, length, get_elem?, take, drop, slice, ltb, leb, arith, Bool-cases, Option-cases, inl, inr,
  length-append, slice_empty,
}
use opsblobs_obsidian.Diff3.Patience.{
  Anchor, count_lines, put, find_pile, Piles, predecessor, place, place_all, follow, no_piles,
  longest_increasing_subsequence, patience_anchors,
}
use opsblobs_obsidian.Diff3.Patience.Range.{
  CountsIn, Runs, then-Runs, InRange, count-CountsIn, unique-InRange, sort-InRange, get-InRange,
}

find_pile-Runs :
    (piles : List Anchor) (top : List ℕ) (b fuel lo hi : ℕ)
    → hi ≤ lo + fuel
    → Runs (λ m. Unit) (find_pile piles top b fuel lo hi)
unfolding find_pile
find_pile-Runs piles top b zero lo hi h = ground arith
find_pile-Runs piles top b (suc fuel) lo hi h = elim (Bool-cases (ltb lo hi)) [
  | inr e ↦ rw (e, find_pile) tt
  | inl e ↦
      rw (e, find_pile)
        (elim (Option-cases (get_elem? top ((lo + hi) / 2))) [
          | inl n ↦ rw (n, find_pile) tt
          | inr (t, n) ↦
              rw (n, find_pile)
                (elim (Option-cases (get_elem? piles t)) [
                  | inl m ↦ rw (m, find_pile) tt
                  | inr ((a, c), m) ↦
                      rw (m, find_pile)
                        (elim (Bool-cases (ltb c b)) [
                          | inl q ↦
                              rw (q, find_pile)
                                (find_pile-Runs piles top b fuel ((lo + hi) / 2 + 1) hi
                                  (ground arith))
                          | inr q ↦
                              rw (q, find_pile)
                                (find_pile-Runs piles top b fuel lo ((lo + hi) / 2) (ground arith))
                        ])
                ])
        ])
]

-- Each number is below the bound.
abbrev AllBelow : ℕ → List ℕ → Type 0
AllBelow n [] = Unit
AllBelow n (k ∷ ks) = (k < n) × AllBelow n ks

abbrev OptionBelow : ℕ → Option ℕ → Type 0
OptionBelow n none = Unit
OptionBelow n (some k) = k < n

-- Each link leads below its own index, from `n` on.
abbrev LinksBack : ℕ → List (Option ℕ) → Type 0
LinksBack n [] = Unit
LinksBack n (o ∷ links) = OptionBelow n o × LinksBack (suc n) links

abbrev Linked : ℕ → Piles → Type 0
Linked i s = AllBelow i s.pile_top × LinksBack 0 s.prev × (length s.prev ≡ i)

below_eq : (n m : ℕ) → n + 0 ≡ m → n ≡ m
below_eq n m e = omega (arith, e)

suc_eq : (i : ℕ) → suc i ≡ i + 1
suc_eq i = omega arith

weaken-OptionBelow : (n m : ℕ) (o : Option ℕ) → OptionBelow n o → n ≤ m → OptionBelow m o
weaken-OptionBelow n m none h k = tt
weaken-OptionBelow n m (some j) h k = omega (arith, h, k)

AllBelow-suc : (n : ℕ) (ks : List ℕ) → AllBelow n ks → AllBelow (suc n) ks
AllBelow-suc n [] h = tt
AllBelow-suc n (k ∷ ks) h = (omega (arith, h.0), AllBelow-suc n ks h.1)

put-AllBelow : (n : ℕ) (ks : List ℕ) (i v : ℕ) → AllBelow n ks → v < n → AllBelow n (put ks i v)
unfolding put
put-AllBelow n [] i v h k = (k, tt)
put-AllBelow n (x ∷ ks) zero v h k = (k, h.1)
put-AllBelow n (x ∷ ks) (suc i) v h k = (h.0, put-AllBelow n ks i v h.1 k)

get-AllBelow : (n : ℕ) (ks : List ℕ) (i : ℕ) → AllBelow n ks → OptionBelow n (get_elem? ks i)
get-AllBelow n [] i h = tt
get-AllBelow n (x ∷ ks) zero h = h.0
get-AllBelow n (x ∷ ks) (suc i) h = get-AllBelow n ks i h.1

predecessor-below : (n : ℕ) (ks : List ℕ) (i : ℕ) → AllBelow n ks → OptionBelow n (predecessor ks i)
predecessor-below n ks zero h = tt
predecessor-below n ks (suc i) h = get-AllBelow n ks i h

snoc-LinksBack :
    (n m : ℕ) (links : List (Option ℕ)) (o : Option ℕ)
    → LinksBack n links
    → n + length links ≡ m
    → OptionBelow m o
    → LinksBack n (links ++ (o ∷ []))
snoc-LinksBack n m [] o h e k = (rw (← below_eq n m e) at k, tt)
snoc-LinksBack n m (x ∷ links) o h e k =
    (h.0, snoc-LinksBack (suc n) m links o h.1 (omega (arith, e)) k)

place-Runs : (s : Piles) (i : ℕ) (p : Anchor) → Linked i s → Runs (Linked (suc i)) (place s i p)
unfolding place
place-Runs s i p (top, links, len) =
    then-Runs (λ m. Unit) (Linked (suc i))
      (find_pile s.piles s.pile_top p.1 (length s.piles) 0 (length s.piles)) _
      (find_pile-Runs s.piles s.pile_top p.1 (length s.piles) 0 (length s.piles) (omega arith))
      (λ lo _. (
        put-AllBelow (suc i) s.pile_top lo i (AllBelow-suc i s.pile_top top) (omega arith),
        snoc-LinksBack 0 i s.prev (predecessor s.pile_top lo) links (omega (arith, len))
            (predecessor-below i s.pile_top lo top),
        omega (arith, len, length-append s.prev (predecessor s.pile_top lo ∷ [])),
      ))

place_all-Runs :
    (s : Piles) (i n : ℕ) (ps : List Anchor)
    → Linked i s
    → i + length ps ≡ n
    → Runs (Linked n) (place_all s i ps)
unfolding place_all
place_all-Runs s i n [] h e = rw (← below_eq i n (omega (arith, e))) h
place_all-Runs s i n (p ∷ ps) h e =
    then-Runs (Linked (suc i)) (Linked n) (place s i p) _ (place-Runs s i p h)
      (λ s' k. place_all-Runs s' (i + 1) n ps (rw (suc_eq i) at k) (omega (arith, e)))

some_link : {a b : Option ℕ} → ◌≡◌ {A = Option (Option ℕ)} (some a) (some b) → a ≡ b
some_link e = cc

get-LinksBack :
    (n : ℕ) (links : List (Option ℕ)) (k : ℕ) (o : Option ℕ)
    → LinksBack n links
    → get_elem? links k ≡ some o
    → OptionBelow (n + k) o
get-LinksBack n [] k o h e = cc
get-LinksBack n (x ∷ links) zero o h e =
    rw (← some_link e) (weaken-OptionBelow n (n + 0) x h.0 (omega arith))
get-LinksBack n (x ∷ links) (suc k) o h e =
    weaken-OptionBelow (suc n + k) (n + suc k) o (get-LinksBack (suc n) links k o h.1 e)
      (omega arith)

follow-Runs :
    (lo hi : ℕ) (pairs : List Anchor) (prev : List (Option ℕ)) (fuel : ℕ) (k : Option ℕ)
    (result : List Anchor)
    → InRange lo hi pairs
    → LinksBack 0 prev
    → OptionBelow fuel k
    → InRange lo hi result
    → Runs (InRange lo hi) (follow pairs prev fuel k result)
unfolding follow
follow-Runs lo hi pairs prev fuel none result a b c d = d
follow-Runs lo hi pairs prev zero (some k) result a b c d = ground (arith, c)
follow-Runs lo hi pairs prev (suc fuel) (some k) result a b c d =
    elim (Option-cases (get_elem? pairs k)) [
      | inl e ↦ rw (e, follow) tt
      | inr (p, e) ↦
          rw (e, follow)
            (elim (Option-cases (get_elem? prev k)) [
              | inl f ↦ rw (f, follow) tt
              | inr (o, f) ↦
                  rw (f, follow)
                    (follow-Runs lo hi pairs prev fuel o (p ∷ result) a b
                      (weaken-OptionBelow (0 + k) fuel o (get-LinksBack 0 prev k o b f)
                        (omega (arith, c)))
                      ((get-InRange lo hi pairs k p a e).0, (get-InRange lo hi pairs k p a e).1, d))
            ])
    ]

lis-Runs :
    (lo hi : ℕ) (pairs : List Anchor)
    → InRange lo hi pairs
    → Runs (InRange lo hi) (longest_increasing_subsequence pairs)
unfolding longest_increasing_subsequence
lis-Runs lo hi [] h = tt
lis-Runs lo hi (p ∷ ps) h =
    then-Runs (Linked (length (p ∷ ps))) (InRange lo hi) (place_all no_piles 0 (p ∷ ps)) _
      (place_all-Runs no_piles 0 (length (p ∷ ps)) (p ∷ ps) (tt, tt, refl) (omega arith))
      (λ s (top, links, len).
        follow-Runs lo hi (p ∷ ps) s.prev (length (p ∷ ps))
          (get_elem? s.pile_top (length s.piles - 1)) [] h links
          (get-AllBelow (length (p ∷ ps)) s.pile_top (length s.piles - 1) top) tt)

length-take_le : {A : Type 0} (n : ℕ) (xs : List A) → length (take n xs) ≤ n
length-take_le zero xs = omega arith
length-take_le (suc n) [] = omega arith
length-take_le (suc n) (x ∷ xs) = omega (arith, length-take_le n xs)

slice-CountsIn :
    (a : List JsString) (lo hi : ℕ) → CountsIn lo hi (count_lines (slice a lo hi) lo [])
unfolding count_lines
slice-CountsIn a lo hi = elim (Bool-cases (leb hi lo)) [
  | inl e ↦ rw (slice_empty a lo hi (ground (arith, e))) tt
  | inr e ↦
      count-CountsIn lo hi (slice a lo hi) lo [] tt (omega arith)
        (let n = length-take_le (hi - lo) (drop lo a) in ground (arith, n, e))
]

pub patience_anchors-Runs :
    (a b : List JsString) (a_lo a_hi b_lo b_hi : ℕ)
    → Runs (InRange a_lo a_hi) (patience_anchors a a_lo a_hi b b_lo b_hi)
unfolding patience_anchors
patience_anchors-Runs a b a_lo a_hi b_lo b_hi =
    lis-Runs a_lo a_hi _
      (sort-InRange a_lo a_hi _ (unique-InRange a_lo a_hi _ _ (slice-CountsIn a a_lo a_hi)))
