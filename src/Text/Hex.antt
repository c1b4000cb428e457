-- ===== src/Text/Hex.antt =====
-- `int` reads back what `format_hex` prints.
use open_rv.Prelude.{
  ℕ, zero, suc, ◌+◌, ◌*◌, ◌/◌, ◌%◌, ◌≤◌, ◌<◌, ◌≡◌, refl, sym, ap, ◌∙◌, inl, inr, Bool, true, false,
  ◌&&◌, ◌||◌, none, some, [], ◌∷◌, ◌++◌, append-nil, arith, not, ltb, leb, ◌==◌, if◌then◌else◌,
  Bool-cases, All,
}
use open_rv.Text.{
  Text, digit_value, digits_value, is_space, skip_spaces, reverse_onto, strip, natural, uint,
  signed_value, int_of, hex_digit, hex_reversed, format_hex,
}

digit_value-hex_digit : (d : ℕ) → d < 16 → digit_value (hex_digit d) ≡ some d
unfolding digit_value hex_digit
digit_value-hex_digit d h = ground arith

abbrev pub is_hex_char : ℕ → Bool
is_hex_char c = (leb b'0' c && leb c b'9') || (leb b'a' c && leb c b'f')

abbrev pub IsHexText : Text → Type 0
IsHexText = All (λ c. is_hex_char c ≡ true)

pub hex_digit_lem : (d : ℕ) → d < 16 → is_hex_char (hex_digit d) ≡ true
unfolding hex_digit
hex_digit_lem d h = ground arith

pub digits_value_step :
    (acc d : ℕ) (after : Bool) (tail : Text)
    → d < 16
    → digits_value 16 acc after (hex_digit d ∷ tail) ≡ digits_value 16 (acc * 16 + d) true tail
unfolding digits_value
digits_value_step acc d after tail h =
    let plain : hex_digit d == b'_' ≡ false = let c = hex_digit_lem d h in ground arith in
    let small : ltb d 16 ≡ true = ground arith in rw (plain, digit_value-hex_digit d h, small)

-- The digits of `n`, whatever stands behind them.
digits_value-hex_reversed :
    (width fuel n : ℕ) (tail : Text)
    → n ≤ fuel
    → digits_value 16 0 false (reverse_onto (hex_reversed width fuel n) tail)
      ≡ digits_value 16 n (not (width == 0 && n == 0)) tail
unfolding hex_reversed reverse_onto
digits_value-hex_reversed (suc width) fuel n tail le =
    let split : n / 16 * 16 + n % 16 ≡ n = omega arith in
    let busy : not (suc width == 0 && n == 0) ≡ true = ground arith in
    digits_value-hex_reversed width fuel (n / 16) (hex_digit (n % 16) ∷ tail) (omega arith)
    ∙ digits_value_step (n / 16) (n % 16) _ tail (omega arith)
    ∙ rw (split, busy)
digits_value-hex_reversed zero (suc fuel) n tail le = elim (Bool-cases (n == 0)) [
  | inl e ↦ let z : n ≡ 0 = ground arith in rw e (ap (λ k. digits_value 16 k false tail) (sym z))
  | inr e ↦
      let split : n / 16 * 16 + n % 16 ≡ n = omega arith in
      rw e (
        digits_value-hex_reversed zero fuel (n / 16) (hex_digit (n % 16) ∷ tail) (omega arith)
        ∙ digits_value_step (n / 16) (n % 16) _ tail (omega arith)
        ∙ rw split)
]
digits_value-hex_reversed zero zero n tail le = let z : n ≡ 0 = omega arith in rw z

reverse_onto-reverse_onto :
    (xs ys zs : Text) → reverse_onto (reverse_onto xs ys) zs ≡ reverse_onto ys (xs ++ zs)
unfolding reverse_onto
reverse_onto-reverse_onto [] ys zs = refl
reverse_onto-reverse_onto (c ∷ cs) ys zs = reverse_onto-reverse_onto cs (c ∷ ys) zs

reverse_onto-IsHexText :
    (xs ys : Text) → IsHexText xs → IsHexText ys → IsHexText (reverse_onto xs ys)
unfolding reverse_onto
reverse_onto-IsHexText [] ys h k = k
reverse_onto-IsHexText (c ∷ cs) ys (first, h) k = reverse_onto-IsHexText cs (c ∷ ys) h (first, k)

hex_reversed-IsHexText : (width fuel n : ℕ) → IsHexText (hex_reversed width fuel n)
unfolding hex_reversed
hex_reversed-IsHexText (suc width) fuel n =
    (hex_digit_lem (n % 16) (omega arith), hex_reversed-IsHexText width fuel (n / 16))
hex_reversed-IsHexText zero (suc fuel) n = elim (Bool-cases (n == 0)) [
  | inl e ↦ rw e tt
  | inr e ↦ rw e (hex_digit_lem (n % 16) (omega arith), hex_reversed-IsHexText zero fuel (n / 16))
]
hex_reversed-IsHexText zero zero n = tt

pub format_hex-IsHexText : (width n : ℕ) → IsHexText (format_hex width n)
unfolding format_hex
format_hex-IsHexText width n =
    reverse_onto-IsHexText (hex_reversed width n n) [] (hex_reversed-IsHexText width n n) tt

skip_spaces-IsHexText : (xs : Text) → IsHexText xs → skip_spaces xs ≡ xs
unfolding skip_spaces is_space
skip_spaces-IsHexText [] h = refl
skip_spaces-IsHexText (c ∷ cs) (first, h) = ground arith

strip-IsHexText : (xs : Text) → IsHexText xs → strip xs ≡ xs
unfolding strip
strip-IsHexText xs h =
    let back = reverse_onto-IsHexText xs [] h tt in
    ap (λ ys. reverse_onto (skip_spaces (reverse_onto ys [])) []) (skip_spaces-IsHexText xs h)
    ∙ ap (λ ys. reverse_onto ys []) (skip_spaces-IsHexText (reverse_onto xs []) back)
    ∙ reverse_onto-reverse_onto xs [] []
    ∙ append-nil xs

-- No sign, no prefix.
signed_value-IsHexText :
    (c : ℕ) (cs : Text)
    → IsHexText (c ∷ cs)
    → signed_value 16 (c ∷ cs) ≡ natural (digits_value 16 0 false (c ∷ cs))
unfolding signed_value
signed_value-IsHexText c [] (first, h) =
    let plain : c == b'-' ≡ false = ground arith in
    let plus : c == b'+' ≡ false = ground arith in rw (plain, plus)
signed_value-IsHexText c (d ∷ cs) (first, (second, h)) =
    let plain : c == b'-' ≡ false = ground arith in
    let plus : c == b'+' ≡ false = ground arith in
    let prefix : (c == b'0' && (d == b'x' || d == b'X')) ≡ false = ground arith in
    rw (plain, plus, prefix)

-- A text of no characters is not among those that are printed.
pub int_of_reads :
    (text : Text) (n : ℕ)
    → IsHexText text
    → digits_value 16 0 false text ≡ some n
    → int_of 16 text ≡ uint n
unfolding int_of digits_value
int_of_reads [] n h read = cc
int_of_reads (c ∷ cs) n h read =
    ap (signed_value 16) (strip-IsHexText (c ∷ cs) h)
    ∙ signed_value-IsHexText c cs h
    ∙ ap natural read

pub int_of-format_hex : (width n : ℕ) → 0 < width → int_of 16 (format_hex width n) ≡ uint n
unfolding format_hex digits_value
int_of-format_hex zero n positive = elim positive [ ]
int_of-format_hex (suc width) n positive = int_of_reads _ n (format_hex-IsHexText (suc width) n) (
    digits_value-hex_reversed (suc width) n n [] (omega arith)
    ∙ ap (λ b. if b then some n else none) busy)
  where
    busy : not (suc width == 0 && n == 0) ≡ true
    busy = ground arith
