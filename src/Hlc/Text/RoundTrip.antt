-- ===== src/Hlc/Text/RoundTrip.antt =====
-- `hlcFromString` after `hlcToString` (src/core/hlc.ts).
use opsblobs_obsidian.Base.{
  ℕ, zero, suc, ◌+◌, ◌-◌, ◌*◌, ◌/◌, ◌%◌, ◌<◌, ◌≡◌, refl, ◌∙◌, JsString, Bool, true, false, some,
  List, [], ◌∷◌, ◌++◌, ◌==◌, if◌then◌else◌, length, arith, ap, Bool-cases, inl, inr,
}
use opsblobs_obsidian.Hlc.{Hlc}
use opsblobs_obsidian.Hlc.Text.{
  digits_onto, to_decimal, zeros_onto, pad_start, hlc_to_string, cons_first, split_dash, join_dash,
  is_digit, digits_value, unsigned_value, skip_spaces, parse_int, from_parts, hlc_from_string,
}

is_digit-last : (n : ℕ) → is_digit (48 + n % 10) ≡ true
is_digit-last n = ground arith

digits_value-digit :
    (n v : ℕ) (acc : JsString)
    → digits_value ((48 + n % 10) ∷ acc) v ≡ digits_value acc (v * 10 + n % 10)
unfolding digits_value
digits_value-digit n v acc =
    let e : 48 + n % 10 - 48 ≡ n % 10 = omega arith in rw (is_digit-last n, e) refl

if_same :
    {A : Type 0} (f : JsString → A) (b : Bool) (x y : JsString) (t : A)
    → (b ≡ true → f x ≡ t)
    → (b ≡ false → f y ≡ t)
    → f (if b then x else y) ≡ t
if_same f true x y t h k = h refl
if_same f false x y t h k = k refl

if_same_parts :
    (b : Bool) (x y : List JsString) (t : JsString)
    → (b ≡ true → join_dash x ≡ t)
    → (b ≡ false → join_dash y ≡ t)
    → join_dash (if b then x else y) ≡ t
if_same_parts true x y t h k = h refl
if_same_parts false x y t h k = k refl

div_rest : (n : ℕ) → n / 10 * 10 + n % 10 ≡ n
div_rest n = omega arith

digits_value-onto :
    (fuel n : ℕ) (acc : JsString)
    → n < fuel
    → digits_value (digits_onto fuel n acc) 0 ≡ digits_value acc n
unfolding digits_onto
digits_value-onto zero n acc h = omega arith
digits_value-onto (suc fuel) n acc h =
    if_same (λ s. digits_value s 0) (n / 10 == 0) _ _ _
      (λ e.
        let q : 0 * 10 + n % 10 ≡ n = ground arith in
        digits_value-digit n 0 acc ∙ ap (digits_value acc) q)
      (λ e.
        digits_value-onto fuel (n / 10) ((48 + n % 10) ∷ acc) (ground arith)
        ∙ digits_value-digit n (n / 10) acc
        ∙ ap (digits_value acc) (div_rest n))

abbrev AllDigits : JsString → Type 0
AllDigits [] = Unit
AllDigits (c ∷ s) = (is_digit c ≡ true) × AllDigits s

if-AllDigits :
    (b : Bool) (x y : JsString) → AllDigits x → AllDigits y → AllDigits (if b then x else y)
if-AllDigits true x y h k = h
if-AllDigits false x y h k = k

digits_onto-AllDigits :
    (fuel n : ℕ) (acc : JsString) → AllDigits acc → AllDigits (digits_onto fuel n acc)
unfolding digits_onto
digits_onto-AllDigits zero n acc h = h
digits_onto-AllDigits (suc fuel) n acc h =
    if-AllDigits (n / 10 == 0) _ _ (is_digit-last n, h)
      (digits_onto-AllDigits fuel (n / 10) ((48 + n % 10) ∷ acc) (is_digit-last n, h))

zeros-AllDigits : (k : ℕ) (s : JsString) → AllDigits s → AllDigits (zeros_onto k s)
zeros-AllDigits zero s h = h
zeros-AllDigits (suc k) s h = (refl, zeros-AllDigits k s h)

digits_value-zeros : (k : ℕ) (s : JsString) → digits_value (zeros_onto k s) 0 ≡ digits_value s 0
unfolding digits_value
digits_value-zeros zero s = refl
digits_value-zeros (suc k) s = digits_value-zeros k s

-- A text of digits, at least one, is read as its value.
parse_int-digits :
    (c : ℕ) (s : JsString) → AllDigits (c ∷ s) → parse_int (c ∷ s) ≡ some (digits_value (c ∷ s) 0)
unfolding parse_int skip_spaces unsigned_value
parse_int-digits c s h = ground (arith, h.0)

abbrev HasMore : JsString → Type 0
HasMore [] = ⊥
HasMore (c ∷ s) = Unit

if-HasMore : (b : Bool) (x y : JsString) → HasMore x → HasMore y → HasMore (if b then x else y)
if-HasMore true x y h k = h
if-HasMore false x y h k = k

onto-HasMore : (fuel n : ℕ) (acc : JsString) → HasMore acc → HasMore (digits_onto fuel n acc)
unfolding digits_onto
onto-HasMore zero n acc h = h
onto-HasMore (suc fuel) n acc h =
    if-HasMore (n / 10 == 0) _ _ tt (onto-HasMore fuel (n / 10) ((48 + n % 10) ∷ acc) tt)

decimal-HasMore : (n : ℕ) → HasMore (to_decimal n)
unfolding to_decimal digits_onto
decimal-HasMore n =
    if-HasMore (n / 10 == 0) _ _ tt (onto-HasMore n (n / 10) ((48 + n % 10) ∷ []) tt)

zeros-HasMore : (k : ℕ) (s : JsString) → HasMore s → HasMore (zeros_onto k s)
zeros-HasMore zero s h = h
zeros-HasMore (suc k) s h = tt

decimal-AllDigits : (n : ℕ) → AllDigits (to_decimal n)
unfolding to_decimal
decimal-AllDigits n = digits_onto-AllDigits (suc n) n [] tt

parse_int-HasMore : (s : JsString) → AllDigits s → HasMore s → parse_int s ≡ some (digits_value s 0)
parse_int-HasMore [] h k = ground arith
parse_int-HasMore (c ∷ s) h k = parse_int-digits c s h

decimal_value : (n : ℕ) → digits_value (to_decimal n) 0 ≡ n
unfolding to_decimal digits_value
decimal_value n = digits_value-onto (suc n) n [] (omega arith)

parse_int-pad : (width n : ℕ) → parse_int (pad_start width (to_decimal n)) ≡ some n
unfolding pad_start
parse_int-pad width n =
    let k = width - length (to_decimal n) in
    parse_int-HasMore (zeros_onto k (to_decimal n))
      (zeros-AllDigits k (to_decimal n) (decimal-AllDigits n))
      (zeros-HasMore k (to_decimal n) (decimal-HasMore n))
    ∙ ap some (digits_value-zeros k (to_decimal n) ∙ decimal_value n)

split-digits : (s t : JsString) → AllDigits s → split_dash (s ++ (45 ∷ t)) ≡ s ∷ split_dash t
unfolding split_dash
split-digits [] t h = refl
split-digits (c ∷ s) t h = ground (arith, h.0, split-digits s t h.1)

join-cons_first :
    (c : ℕ) (parts : List JsString) → join_dash (cons_first c parts) ≡ c ∷ join_dash parts
unfolding join_dash
join-cons_first c [] = refl
join-cons_first c (p ∷ []) = refl
join-cons_first c (p ∷ q ∷ parts) = refl

cons_first_nonempty :
    (c : ℕ) (parts : List JsString)
    → (p : JsString) × (ps : List JsString) × (cons_first c parts ≡ p ∷ ps)
cons_first_nonempty c [] = (c ∷ [], [], refl)
cons_first_nonempty c (p ∷ ps) = (c ∷ p, ps, refl)

split_nonempty : (s : JsString) → (p : JsString) × (ps : List JsString) × (split_dash s ≡ p ∷ ps)
unfolding split_dash
split_nonempty [] = ([], [], refl)
split_nonempty (c ∷ s) = elim (Bool-cases (c == 45)) [
  | inl e ↦ ([], split_dash s, ground (arith, e))
  | inr e ↦ let (p, ps, q) = cons_first_nonempty c (split_dash s) in (p, ps, ground (arith, e, q))
]

-- The parts, joined again, are the text.
join-split : (s : JsString) → join_dash (split_dash s) ≡ s
unfolding join_dash split_dash
join-split [] = refl
join-split (c ∷ s) =
    if_same_parts (c == 45) _ _ _
      (λ e.
        let (p, ps, q) = split_nonempty s in
        let k : join_dash (p ∷ ps) ≡ s = rw (← q) (join-split s) in
        let d : c ≡ 45 = ground (arith, e) in rw (q, d) (ap (◌∷◌ 45) k))
      (λ e. join-cons_first c (split_dash s) ∙ ap (◌∷◌ c) (join-split s))

split-device :
    (w c device_id : JsString)
    → AllDigits w
    → AllDigits c
    → (p : JsString) × (ps : List JsString) × (split_dash (w ++ (45 ∷ (c ++ (45 ∷ device_id))))
        ≡ w ∷ c ∷ p ∷ ps)
      × (join_dash (p ∷ ps) ≡ device_id)
split-device w c device_id h k =
    let (p, ps, q) = split_nonempty device_id in
    (
      p,
      ps,
      split-digits w (c ++ (45 ∷ device_id)) h
          ∙ ap (◌∷◌ w) (split-digits c device_id k)
          ∙ ap (λ t. w ∷ c ∷ t) q,
      rw (← q) (join-split device_id),
    )

pad-AllDigits : (width n : ℕ) → AllDigits (pad_start width (to_decimal n))
unfolding pad_start
pad-AllDigits width n =
    zeros-AllDigits (width - length (to_decimal n)) (to_decimal n) (decimal-AllDigits n)

-- `hlcFromString` reads back each timestamp that `hlcToString` writes, whatever its device id is
-- (hyphens included) and however many digits its numbers have.
pub hlc_from_string-hlc_to_string : (h : Hlc) → hlc_from_string (hlc_to_string h) ≡ some h
unfolding hlc_from_string hlc_to_string from_parts
hlc_from_string-hlc_to_string h =
    let (p, ps, split, device) =
      split-device (pad_start 15 (to_decimal h.wall_time)) (pad_start 8 (to_decimal h.counter))
        h.device_id (pad-AllDigits 15 h.wall_time) (pad-AllDigits 8 h.counter) in
    rw (split, parse_int-pad 15 h.wall_time, parse_int-pad 8 h.counter, device) refl
