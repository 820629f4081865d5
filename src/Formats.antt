-- ===== src/Formats.antt =====
-- Encodings with the laws that the code relies on of `JSON` (src/core/file-registry.ts,
-- src/network/version-dag-store.ts), for concrete runs: a text is a list of numbers, each shifted past the
-- line feed, and a string stands behind its length.
use opsblobs_obsidian.Base.{
  ℕ, zero, suc, ◌+◌, ◌-◌, ◌≡◌, ◌≢◌, refl, JsString, Option, none, some, List, [], ◌∷◌, ◌++◌,
  append_assoc, append-nil, arith, length, take, drop, take-append, drop-append,
}
use opsblobs_obsidian.Lines.{split_lf}

-- A printer with its parser, which leaves the rest.
pub record Format (A : Type 0) : Type 0 where
  pub print : A → List ℕ
  pub parse : List ℕ → Option (A × List ℕ)
  pub parse-print : (a : A) (rest : List ℕ) → parse (print a ++ rest) ≡ some (a, rest)

unfoldable pub parse_number : List ℕ → Option (ℕ × List ℕ)
parse_number [] = none
parse_number (n ∷ rest) = some (n, rest)

unfoldable pub numbers : Format ℕ
unfolding parse_number
numbers = record { print = λ n. n ∷ []; parse = parse_number; parse-print = λ n rest. refl }

unfoldable pub parse_text : List ℕ → Option (JsString × List ℕ)
parse_text [] = none
parse_text (n ∷ rest) = some (take n rest, drop n rest)

pub text_back : (s rest : JsString) → parse_text ((length s ∷ s) ++ rest) ≡ some (s, rest)
unfolding parse_text
text_back s rest = rw (take-append s rest, drop-append s rest) refl

unfoldable pub texts : Format JsString
texts = record { print = λ s. length s ∷ s; parse = parse_text; parse-print = text_back }

module _ {A B : Type 0} where
  unfoldable pub parse_then : Format B → Option (A × List ℕ) → Option ((A × B) × List ℕ)
  parse_then g none = none
  parse_then g (some (a, rest)) = elim (g.parse rest) [
    | none ↦ none
    | some (b, rest') ↦ some ((a, b), rest')
  ]

  pub pair_back :
      (f : Format A) (g : Format B) (a : A) (b : B) (rest : List ℕ)
      → parse_then g (f.parse ((f.print a ++ g.print b) ++ rest)) ≡ some ((a, b), rest)
  unfolding parse_then
  pair_back f g a b rest =
      rw
        (
          append_assoc (f.print a) (g.print b) rest,
          f.parse-print a (g.print b ++ rest),
          parse_then,
          g.parse-print b rest,
        )
        refl

  unfoldable pub pairs : Format A → Format B → Format (A × B)
  pairs f g = record {
    print = λ (a, b). f.print a ++ g.print b;
    parse = λ s. parse_then g (f.parse s);
    parse-print = λ (a, b) rest. pair_back f g a b rest;
  }

module _ {A : Type 0} where
  unfoldable pub parse_option : Format A → List ℕ → Option (Option A × List ℕ)
  parse_option f [] = none
  parse_option f (zero ∷ rest) = some (none, rest)
  parse_option f (suc n ∷ rest) = elim (f.parse rest) [
    | none ↦ none
    | some (a, rest') ↦ some (some a, rest')
  ]

  unfoldable pub print_option : Format A → Option A → List ℕ
  print_option f none = 0 ∷ []
  print_option f (some a) = 1 ∷ f.print a

  pub option_back :
      (f : Format A) (o : Option A) (rest : List ℕ)
      → parse_option f (print_option f o ++ rest) ≡ some (o, rest)
  unfolding parse_option print_option
  option_back f none rest = refl
  option_back f (some a) rest = rw (f.parse-print a rest) refl

  unfoldable pub options : Format A → Format (Option A)
  options f = record { print = print_option f; parse = parse_option f; parse-print = option_back f }

  unfoldable pub print_items : Format A → List A → List ℕ
  print_items f [] = []
  print_items f (a ∷ items) = f.print a ++ print_items f items

  unfoldable pub parse_items : Format A → ℕ → List ℕ → Option (List A × List ℕ)
  parse_items f zero s = some ([], s)
  parse_items f (suc n) s = elim (f.parse s) [
    | none ↦ none
    | some (a, rest) ↦ elim (parse_items f n rest) [
      | none ↦ none
      | some (items, rest') ↦ some (a ∷ items, rest')
    ]
  ]

  pub items_back :
      (f : Format A) (items : List A) (rest : List ℕ)
      → parse_items f (length items) (print_items f items ++ rest) ≡ some (items, rest)
  unfolding parse_items print_items
  items_back f [] rest = refl
  items_back f (a ∷ items) rest =
      rw (append_assoc (f.print a) (print_items f items) rest)
        (rw (f.parse-print a (print_items f items ++ rest)) (rw (items_back f items rest) refl))

  unfoldable pub parse_list : Format A → List ℕ → Option (List A × List ℕ)
  parse_list f [] = none
  parse_list f (n ∷ rest) = parse_items f n rest

  pub list_back :
      (f : Format A) (items : List A) (rest : List ℕ)
      → parse_list f ((length items ∷ print_items f items) ++ rest) ≡ some (items, rest)
  unfolding parse_list
  list_back f items rest = items_back f items rest

  unfoldable pub lists : Format A → Format (List A)
  lists f = record {
    print = λ items. length items ∷ print_items f items;
    parse = parse_list f;
    parse-print = list_back f;
  }

module _ {A B : Type 0} where
  unfoldable pub mapped : (A → B) → Option (A × List ℕ) → Option (B × List ℕ)
  mapped to none = none
  mapped to (some (a, rest)) = some (to a, rest)

  pub mapped_back :
      (f : Format A) (to : A → B) (from : B → A)
      → ((b : B) → to (from b) ≡ b)
      → (b : B) (rest : List ℕ) → mapped to (f.parse (f.print (from b) ++ rest)) ≡ some (b, rest)
  unfolding mapped
  mapped_back f to from back b rest = rw (f.parse-print (from b) rest) (rw (back b) refl)

  unfoldable pub via :
      Format A → (to : A → B) (from : B → A) → ((b : B) → to (from b) ≡ b) → Format B
  via f to from back = record {
    print = λ b. f.print (from b);
    parse = λ s. mapped to (f.parse s);
    parse-print = mapped_back f to from back;
  }

-- Past the line feed, behind a mark that keeps the text non-empty.
unfoldable pub shift : List ℕ → List ℕ
shift [] = []
shift (n ∷ s) = (n + 11) ∷ shift s

unfoldable pub unshift : List ℕ → List ℕ
unshift [] = []
unshift (n ∷ s) = (n - 11) ∷ unshift s

pub unshift-shift : (s : List ℕ) → unshift (shift s) ≡ s
unfolding shift unshift
unshift-shift [] = refl
unshift-shift (n ∷ s) = ground (arith, unshift-shift s)

pub split_lf-shift : (s : List ℕ) → split_lf (shift s) ≡ shift s ∷ []
unfolding shift split_lf
split_lf-shift [] = refl
split_lf-shift (n ∷ s) = ground (arith, split_lf-shift s)

module _ {A : Type 0} where
  unfoldable pub whole_text : Option (A × List ℕ) → Option A
  whole_text none = none
  whole_text (some (a, [])) = some a
  whole_text (some (a, n ∷ rest)) = none

  unfoldable pub write_text : Format A → A → JsString
  write_text f a = shift (0 ∷ f.print a)

  unfoldable pub parse_body : Format A → List ℕ → Option A
  parse_body f [] = none
  parse_body f (n ∷ s) = whole_text (f.parse s)

  unfoldable pub read_text : Format A → JsString → Option A
  read_text f s = parse_body f (unshift s)

  pub text_law : (f : Format A) (a : A) → read_text f (write_text f a) ≡ some a
  unfolding read_text write_text parse_body whole_text
  text_law f a =
      rw (unshift-shift (0 ∷ f.print a))
        (rw (← append-nil (f.print a)) (rw (f.parse-print a []) refl))

  pub text_nonempty : (f : Format A) (a : A) → write_text f a ≢ []
  unfolding write_text shift
  text_nonempty f a e = cc
