-- ===== src/Hlc/Text.antt =====
-- `hlcToString` and `hlcFromString` of src/core/hlc.ts. The numbers are whole and small enough for
-- JavaScript to print them without an exponent (below 10 ^ 21).
pub mod RoundTrip
use opsblobs_obsidian.Base.{
  ℕ, zero, suc, ◌+◌, ◌-◌, ◌*◌, ◌/◌, ◌%◌, JsString, Bool, true, false, ◌&&◌, ◌||◌, Option, none,
  some, List, [], ◌∷◌, ◌++◌, leb, ◌==◌, if◌then◌else◌, length,
}
use opsblobs_obsidian.Hlc.{Hlc}

-- The decimal digits of a number, in front of a text; the fuel exceeds the number.
unfoldable pub digits_onto : ℕ → ℕ → JsString → JsString
digits_onto zero n acc = acc
digits_onto (suc fuel) n acc =
    let more = digits_onto fuel (n / 10) ((48 + n % 10) ∷ acc) in
    if n / 10 == 0 then (48 + n % 10) ∷ acc else more

unfoldable pub to_decimal : ℕ → JsString
unfolding digits_onto
to_decimal n = digits_onto (suc n) n []

abbrev pub zeros_onto : ℕ → JsString → JsString
zeros_onto zero s = s
zeros_onto (suc n) s = 48 ∷ zeros_onto n s

-- `s.padStart(width, '0')`
unfoldable pub pad_start : ℕ → JsString → JsString
pad_start width s = zeros_onto (width - length s) s

unfoldable pub hlc_to_string : Hlc → JsString
unfolding to_decimal pad_start
hlc_to_string h =
    pad_start 15 (to_decimal h.wall_time)
    ++ (45 ∷ (pad_start 8 (to_decimal h.counter) ++ (45 ∷ h.device_id)))

-- `s.split('-')`
abbrev pub cons_first : ℕ → List JsString → List JsString
cons_first c [] = (c ∷ []) ∷ []
cons_first c (part ∷ parts) = (c ∷ part) ∷ parts

unfoldable pub split_dash : JsString → List JsString
split_dash [] = [] ∷ []
split_dash (c ∷ s) = if c == 45 then [] ∷ split_dash s else cons_first c (split_dash s)

-- `parts.join('-')`
unfoldable pub join_dash : List JsString → JsString
join_dash [] = []
join_dash (part ∷ []) = part
join_dash (part ∷ next ∷ parts) = part ++ (45 ∷ join_dash (next ∷ parts))

abbrev pub is_digit : ℕ → Bool
is_digit c = leb 48 c && leb c 57

-- The white space and line ends that `parseInt` skips.
abbrev pub is_space : ℕ → Bool
is_space c =
    leb 9 c && leb c 13
    || c == 32
    || c == 160
    || c == 5760
    || leb 8192 c && leb c 8202
    || c == 8232
    || c == 8233
    || c == 8239
    || c == 8287
    || c == 12288
    || c == 65279

unfoldable pub digits_value : JsString → ℕ → ℕ
digits_value [] v = v
digits_value (c ∷ s) v = if is_digit c then digits_value s (v * 10 + (c - 48)) else v

-- At least one digit; `none` stands for NaN.
unfoldable pub unsigned_value : JsString → Option ℕ
unfolding digits_value
unsigned_value [] = none
unsigned_value (c ∷ s) = if is_digit c then some (digits_value (c ∷ s) 0) else none

abbrev pub after_sign : JsString → JsString
after_sign [] = []
after_sign (c ∷ s) = if c == 43 then s else c ∷ s

unfoldable pub skip_spaces : JsString → JsString
skip_spaces [] = []
skip_spaces (c ∷ s) = if is_space c then skip_spaces s else c ∷ s

-- `parseInt(s, 10)` of a text without `-`, as the parts of a split at `-` are.
unfoldable pub parse_int : JsString → Option ℕ
unfolding skip_spaces unsigned_value
parse_int s = unsigned_value (after_sign (skip_spaces s))

abbrev pub from_numbers : Option ℕ → Option ℕ → JsString → Option Hlc
from_numbers (some w) (some c) device_id =
    some (record { wall_time = w; counter = c; device_id = device_id })
from_numbers none c device_id = none
from_numbers (some w) none device_id = none

-- `none` where the source throws.
unfoldable pub from_parts : List JsString → Option Hlc
unfolding parse_int join_dash
from_parts [] = none
from_parts (w ∷ []) = none
from_parts (w ∷ c ∷ []) = none
from_parts (w ∷ c ∷ d ∷ rest) = from_numbers (parse_int w) (parse_int c) (join_dash (d ∷ rest))

unfoldable pub hlc_from_string : JsString → Option Hlc
unfolding split_dash from_parts
hlc_from_string s = from_parts (split_dash s)
