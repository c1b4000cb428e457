-- ===== src/Text.antt =====
-- Text as the list of its code points, and what the tools use of Python's text: `int(text, base)`
-- over ASCII, and the format `{n:0wx}`.
pub mod Hex
pub mod Equal
pub mod Members
use open_rv.Prelude.{
  ℕ, zero, suc, ◌+◌, ◌-◌, ◌*◌, ◌/◌, ◌%◌, Bool, true, false, ◌&&◌, ◌||◌, Option, none, some, List,
  [], ◌∷◌, ◌++◌, ltb, leb, ◌==◌, if◌then◌else◌,
}

abbrev pub Text : Type 0
Text = List ℕ

abbrev pub text_eq : Text → Text → Bool
text_eq [] [] = true
text_eq (x ∷ xs) (y ∷ ys) = x == y && text_eq xs ys
text_eq [] (y ∷ ys) = false
text_eq (x ∷ xs) [] = false

-- Whether a header names all of some columns.
abbrev pub has_text : Text → List Text → Bool
has_text name [] = false
has_text name (other ∷ names) = text_eq name other || has_text name names

abbrev pub has_all : List Text → List Text → Bool
has_all [] header = true
has_all (name ∷ names) header = has_text name header && has_all names header

-- The value of a digit, up to `z` for 35.
unfoldable pub digit_value : ℕ → Option ℕ
digit_value c =
    if leb b'0' c && leb c b'9'
    then some (c - b'0')
    else if leb b'a' c && leb c b'z'
    then some (c - b'a' + 10)
    else if leb b'A' c && leb c b'Z'
    then some (c - b'A' + 10)
    else none

-- The digits of a number, where single underscores may separate them; `after` tells whether the last
-- character was a digit.
unfoldable pub digits_value : ℕ → ℕ → Bool → Text → Option ℕ
digits_value base acc after [] = if after then some acc else none
digits_value base acc after (c ∷ cs) =
    let separated = digits_value base acc false cs in
    let more = λ (d : ℕ). digits_value base (acc * base + d) true cs in
    if c == b'_'
    then if after then separated else none
    else elim (digit_value c) [ none ↦ none | some d ↦ if ltb d base then more d else none ]

-- The prefix `0x` of base 16, behind which an underscore may stand.
abbrev skip_separator : Text → Text
skip_separator [] = []
skip_separator (c ∷ cs) = if c == b'_' then cs else c ∷ cs

abbrev without_prefix : ℕ → Text → Text
without_prefix base (c ∷ d ∷ cs) =
    if base == 16 && (c == b'0' && (d == b'x' || d == b'X')) then skip_separator cs else c ∷ d ∷ cs
without_prefix base (c ∷ []) = c ∷ []
without_prefix base [] = []

unfoldable pub is_space : ℕ → Bool
is_space c = c == 32 || (leb 9 c && leb c 13)

unfoldable pub skip_spaces : Text → Text
unfolding is_space
skip_spaces [] = []
skip_spaces (c ∷ cs) = if is_space c then skip_spaces cs else c ∷ cs

unfoldable pub reverse_onto : Text → Text → Text
reverse_onto [] done = done
reverse_onto (c ∷ cs) done = reverse_onto cs (c ∷ done)

unfoldable pub strip : Text → Text
unfolding skip_spaces reverse_onto
strip text = reverse_onto (skip_spaces (reverse_onto (skip_spaces text) [])) []

-- What `int` makes of a text: a `ValueError`, a number below zero, or a natural number.
pub data Integer : Type 0 where
  invalid : Integer
  negative : ℕ → Integer
  uint : ℕ → Integer

abbrev pub natural : Option ℕ → Integer
natural none = invalid
natural (some n) = uint n

abbrev pub negated : Option ℕ → Integer
negated none = invalid
negated (some zero) = uint 0
negated (some (suc n)) = negative (suc n)

unfoldable pub signed_value : ℕ → Text → Integer
signed_value base [] = invalid
signed_value base (c ∷ cs) =
    if c == b'-'
    then negated (digits_value base 0 false (without_prefix base cs))
    else if c == b'+'
    then natural (digits_value base 0 false (without_prefix base cs))
    else natural (digits_value base 0 false (without_prefix base (c ∷ cs)))

unfoldable pub int_of : ℕ → Text → Integer
int_of base text = signed_value base (strip text)

-- The lower-case digit of a value below 16.
unfoldable pub hex_digit : ℕ → ℕ
hex_digit d = if ltb d 10 then b'0' + d else b'a' + (d - 10)

-- The digits from the last on: `width` at least, and as many as the number has.
unfoldable pub hex_reversed : ℕ → ℕ → ℕ → Text
unfolding hex_digit
hex_reversed (suc width) fuel n = hex_digit (n % 16) ∷ hex_reversed width fuel (n / 16)
hex_reversed zero (suc fuel) n =
    let rest = hex_reversed zero fuel (n / 16) in if n == 0 then [] else hex_digit (n % 16) ∷ rest
hex_reversed zero zero n = []

-- `f"{n:0{width}x}"`, with a width of 1 for `f"{n:x}"`.
unfoldable pub format_hex : ℕ → ℕ → Text
format_hex width n = reverse_onto (hex_reversed width n n) []

-- The decimal digits from the last on.
unfoldable pub decimal_reversed : ℕ → ℕ → Text
decimal_reversed zero n = []
decimal_reversed (suc fuel) n =
    let rest = decimal_reversed fuel (n / 10) in
    if ltb n 10 then (b'0' + n) ∷ [] else (b'0' + n % 10) ∷ rest

-- `f"{n}"`
unfoldable pub format_decimal : ℕ → Text
format_decimal n = reverse_onto (decimal_reversed (suc n) n) []

-- `",".join(parts)`
abbrev pub join_commas : List Text → Text
join_commas [] = []
join_commas (part ∷ []) = part
join_commas (part ∷ next ∷ parts) = part ++ (b',' ∷ join_commas (next ∷ parts))
