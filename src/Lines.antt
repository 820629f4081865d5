-- ===== src/Lines.antt =====
-- Text and its lines: `normalizeLines` of src/merge/diff3.ts (`splitLines` of src/merge/state-merge.ts
-- is the same), and `join('\n')`. A line feed is the code unit 10, a carriage return 13.
use opsblobs_obsidian.Base.{
  ℕ, ◌≡◌, ◌≢◌, ◌⊎◌, refl, ap, append-nil, JsString, true, false, ◌&&◌, List, [], ◌∷◌, ◌++◌, arith,
  ◌==◌, if◌then◌else◌,
}

-- `.replace(/\r\n/g, '\n')`
unfoldable pub replace_crlf : JsString → JsString
replace_crlf [] = []
replace_crlf (c ∷ []) = c ∷ []
replace_crlf (c ∷ d ∷ s) = elim (c == 13 && d == 10) [
  | true ↦ 10 ∷ replace_crlf s
  | false ↦ c ∷ replace_crlf (d ∷ s)
]

-- `.replace(/\r/g, '\n')`
unfoldable pub replace_cr : JsString → JsString
replace_cr [] = []
replace_cr (c ∷ s) = (if c == 13 then 10 else c) ∷ replace_cr s

abbrev pub extend_head : ℕ → List JsString → List JsString
extend_head c [] = (c ∷ []) ∷ []
extend_head c (l ∷ ls) = (c ∷ l) ∷ ls

-- `.split('\n')`
unfoldable pub split_lf : JsString → List JsString
split_lf [] = [] ∷ []
split_lf (c ∷ s) = let rest = split_lf s in if c == 10 then [] ∷ rest else extend_head c rest

unfoldable pub normalize_lines : JsString → List JsString
unfolding replace_crlf replace_cr split_lf
normalize_lines text = split_lf (replace_cr (replace_crlf text))

-- `.join('\n')`
unfoldable pub join_lf : List JsString → JsString
join_lf [] = []
join_lf (l ∷ []) = l
join_lf (l ∷ m ∷ ls) = l ++ (10 ∷ join_lf (m ∷ ls))

-- A line holds no line feed and no carriage return.
abbrev pub IsLine : JsString → Type 0
IsLine [] = Unit
IsLine (c ∷ s) = (c ≢ 10) × (c ≢ 13) × IsLine s

abbrev pub AreLines : List JsString → Type 0
AreLines [] = Unit
AreLines (l ∷ ls) = IsLine l × AreLines ls

-- A text without carriage returns.
abbrev HasNoCr : JsString → Type 0
HasNoCr [] = Unit
HasNoCr (c ∷ s) = (c ≢ 13) × HasNoCr s

replace_crlf_same : (s : JsString) → HasNoCr s → replace_crlf s ≡ s
unfolding replace_crlf
replace_crlf_same [] h = refl
replace_crlf_same (c ∷ []) h = refl
replace_crlf_same (c ∷ d ∷ s) h = ground (arith, replace_crlf_same (d ∷ s) h.1)

replace_cr_same : (s : JsString) → HasNoCr s → replace_cr s ≡ s
unfolding replace_cr
replace_cr_same [] h = refl
replace_cr_same (c ∷ s) h = ground (arith, replace_cr_same s h.1)

line-HasNoCr : (l s : JsString) → IsLine l → HasNoCr s → HasNoCr (l ++ s)
line-HasNoCr [] s h k = k
line-HasNoCr (c ∷ l) s h k = (h.1, line-HasNoCr l s h.2 k)

join_lf-HasNoCr : (ls : List JsString) → AreLines ls → HasNoCr (join_lf ls)
unfolding join_lf
join_lf-HasNoCr [] h = tt
join_lf-HasNoCr (l ∷ []) h = rw (← append-nil l) (line-HasNoCr l [] h.0 tt)
join_lf-HasNoCr (l ∷ m ∷ ls) h = line-HasNoCr l _ h.0 (omega arith, join_lf-HasNoCr (m ∷ ls) h.1)

split_lf_line : (l : JsString) → IsLine l → split_lf l ≡ l ∷ []
unfolding split_lf
split_lf_line [] h = refl
split_lf_line (c ∷ l) h = ground (arith, split_lf_line l h.2)

split_lf_line_append : (l s : JsString) → IsLine l → split_lf (l ++ (10 ∷ s)) ≡ l ∷ split_lf s
unfolding split_lf
split_lf_line_append [] s h = refl
split_lf_line_append (c ∷ l) s h = ground (arith, split_lf_line_append l s h.2)

split_lf-join_lf :
    (l : JsString) (ls : List JsString) → AreLines (l ∷ ls) → split_lf (join_lf (l ∷ ls)) ≡ l ∷ ls
unfolding join_lf
split_lf-join_lf l [] h = split_lf_line l h.0
split_lf-join_lf l (m ∷ ls) h =
    rw (split_lf_line_append l (join_lf (m ∷ ls)) h.0) (ap (◌∷◌ l) (split_lf-join_lf m ls h.1))

-- Joining lines and normalising the text gives the lines back.
pub normalize_lines-join_lf :
    (l : JsString) (ls : List JsString)
    → AreLines (l ∷ ls)
    → normalize_lines (join_lf (l ∷ ls)) ≡ l ∷ ls
unfolding normalize_lines
normalize_lines-join_lf l ls h =
    let clean = join_lf-HasNoCr (l ∷ ls) h in
    rw (replace_crlf_same _ clean, replace_cr_same _ clean) (split_lf-join_lf l ls h)

pub AreLines-append : (xs ys : List JsString) → AreLines xs → AreLines ys → AreLines (xs ++ ys)
AreLines-append [] ys h k = k
AreLines-append (x ∷ xs) ys h k = (h.0, AreLines-append xs ys h.1 k)

pub append-AreLines : (xs ys : List JsString) → AreLines (xs ++ ys) → AreLines ys
append-AreLines [] ys h = h
append-AreLines (x ∷ xs) ys h = append-AreLines xs ys h.1

extend_head-append :
    (c : ℕ) (xs ys : List JsString) → xs ≢ [] → extend_head c (xs ++ ys) ≡ extend_head c xs ++ ys
extend_head-append c [] ys n = absurd (n refl)
extend_head-append c (x ∷ xs) ys n = refl

split_lf_nonempty : (s : JsString) → split_lf s ≢ []
unfolding split_lf
split_lf_nonempty [] e = cc
split_lf_nonempty (c ∷ s) e = ground (arith, split_lf_nonempty s)

-- A line feed ends the lines before it.
pub split_lf-append : (a b : JsString) → split_lf (a ++ (10 ∷ b)) ≡ split_lf a ++ split_lf b
unfolding split_lf
split_lf-append [] b = refl
split_lf-append (c ∷ a) b =
    rw (split_lf-append a b)
      (ground (arith, extend_head-append c (split_lf a) (split_lf b) (split_lf_nonempty a)))

-- The empty text, and one whose last line is ended.
abbrev pub IsWhole : JsString → Type 0
IsWhole text = (text ≡ []) ⊎ ((body : JsString) × (text ≡ body ++ (10 ∷ [])))
