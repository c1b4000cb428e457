-- ===== src/ElfImage/Memh/Values.antt =====
-- The hexadecimal digits of a word read back as its little-endian value.
use open_rv.Prelude.{
  ℕ, ◌+◌, ◌*◌, ◌/◌, ◌%◌, ◌<◌, ◌≡◌, refl, sym, ap, ◌∙◌, arith, true, false, some, [], ◌∷◌, All,
  length, subst, ◌==◌,
}
use open_rv.Buffer.{Bytes, from_le}
use open_rv.Text.{
  Text, digits_value, reverse_onto, hex_digit, int_of, signed_value, strip, skip_spaces, invalid,
  uint,
}
use open_rv.Text.Hex.{digits_value_step, hex_digit_lem, IsHexText, int_of_reads}
use open_rv.ElfImage.Memh.{hex_bytes}

abbrev pub IsByteList : Bytes → Type 0
IsByteList = All (λ b. b < 256)

-- The value of bytes that stand in the order of the digits.
from_be : ℕ → Bytes → ℕ
from_be acc [] = acc
from_be acc (b ∷ bs) = from_be (acc * 256 + b) bs

digits_value-hex_bytes :
    (acc : ℕ) (bs : Bytes)
    → IsByteList bs
    → digits_value 16 acc true (hex_bytes bs) ≡ some (from_be acc bs)
unfolding hex_bytes from_be digits_value
digits_value-hex_bytes acc [] h = refl
digits_value-hex_bytes acc (b ∷ bs) (first, h) =
    let whole : (acc * 16 + b / 16) * 16 + b % 16 ≡ acc * 256 + b = omega arith in
    digits_value_step acc (b / 16) true (hex_digit (b % 16) ∷ hex_bytes bs) (omega arith)
    ∙ digits_value_step (acc * 16 + b / 16) (b % 16) true (hex_bytes bs) (omega arith)
    ∙ ap (λ n. digits_value 16 n true (hex_bytes bs)) whole
    ∙ digits_value-hex_bytes (acc * 256 + b) bs h

hex_bytes-IsHexText : (bs : Bytes) → IsByteList bs → IsHexText (hex_bytes bs)
unfolding hex_bytes
hex_bytes-IsHexText [] h = tt
hex_bytes-IsHexText (b ∷ bs) (first, h) = (
  hex_digit_lem (b / 16) (omega arith),
  (hex_digit_lem (b % 16) (omega arith), hex_bytes-IsHexText bs h),
)

from_be-reverse_onto :
    (acc : ℕ) (xs ys : Bytes)
    → from_be acc (reverse_onto xs ys) ≡ from_be (from_be acc (reverse_onto xs [])) ys
unfolding from_be reverse_onto
from_be-reverse_onto acc [] ys = refl
from_be-reverse_onto acc (x ∷ xs) ys =
    from_be-reverse_onto acc xs (x ∷ ys)
    ∙ ap (λ n. from_be n ys) (sym (from_be-reverse_onto acc xs (x ∷ [])))

from_be-from_le : (word : Bytes) → from_be 0 (reverse_onto word []) ≡ from_le word
unfolding from_be reverse_onto from_le
from_be-from_le [] = refl
from_be-from_le (b ∷ word) =
    let rest = from_be-from_le word in from_be-reverse_onto 0 word (b ∷ []) ∙ omega (arith, rest)

reverse_onto-IsByteList :
    (xs ys : Bytes) → IsByteList xs → IsByteList ys → IsByteList (reverse_onto xs ys)
unfolding reverse_onto
reverse_onto-IsByteList [] ys h k = k
reverse_onto-IsByteList (x ∷ xs) ys (first, h) k = reverse_onto-IsByteList xs (x ∷ ys) h (first, k)

-- A text of at least one byte.
length-reverse_onto : (xs ys : Bytes) → length (reverse_onto xs ys) ≡ length xs + length ys
unfolding reverse_onto
length-reverse_onto [] ys = omega arith
length-reverse_onto (x ∷ xs) ys = let rest = length-reverse_onto xs (x ∷ ys) in omega (arith, rest)

int_of-hex_bytes :
    (b : ℕ) (bs : Bytes)
    → IsByteList (b ∷ bs)
    → int_of 16 (hex_bytes (b ∷ bs)) ≡ uint (from_be 0 (b ∷ bs))
unfolding hex_bytes from_be
int_of-hex_bytes b bs (first, h) = int_of_reads _ _ (hex_bytes-IsHexText (b ∷ bs) (first, h)) (
    digits_value_step 0 (b / 16) false (hex_digit (b % 16) ∷ hex_bytes bs) (omega arith)
    ∙ digits_value_step (0 * 16 + b / 16) (b % 16) true (hex_bytes bs) (omega arith)
    ∙ ap (λ n. digits_value 16 n true (hex_bytes bs)) (omega arith)
    ∙ digits_value-hex_bytes (0 * 256 + b) bs h)

-- The line of a word.
pub int_of-word :
    (word : Bytes)
    → 0 < length word
    → IsByteList word
    → int_of 16 (hex_bytes (reverse_onto word [])) ≡ uint (from_le word)
unfolding reverse_onto
int_of-word word some_bytes h = at_least_one (reverse_onto word []) refl
  where
    size : length (reverse_onto word []) ≡ length word
    size = length-reverse_onto word [] ∙ omega arith

    at_least_one :
        (bs : Bytes)
        → reverse_onto word [] ≡ bs
        → int_of 16 (hex_bytes (reverse_onto word [])) ≡ uint (from_le word)
    at_least_one [] e =
        let none_there : length {A = ℕ} (reverse_onto word []) ≡ 0 = ap length e in
        absurd (omega (arith, none_there, size))
    at_least_one (b ∷ bs) e =
        ap (λ (xs : Bytes). int_of 16 (hex_bytes xs)) e
        ∙ int_of-hex_bytes b bs (subst IsByteList e (reverse_onto-IsByteList word [] h tt))
        ∙ ap (λ (xs : Bytes). uint (from_be 0 xs)) (sym e)
        ∙ ap uint (from_be-from_le word)

int_of_nil : int_of 16 [] ≡ invalid
unfolding int_of signed_value strip skip_spaces reverse_onto
int_of_nil = refl

-- A line of digits is no line of an address.
pub word_line_plain :
    (word : Bytes)
    → 0 < length word
    → IsByteList word
    → (c : ℕ) × (cs : Text) × (hex_bytes (reverse_onto word []) ≡ c ∷ cs) × (c == b'@' ≡ false)
word_line_plain word some_bytes h =
    first_char (hex_bytes (reverse_onto word [])) refl
      (hex_bytes-IsHexText _ (reverse_onto-IsByteList word [] h tt))
  where
    first_char :
        (line : Text)
        → hex_bytes (reverse_onto word []) ≡ line
        → IsHexText line
        → (c : ℕ) × (cs : Text) × (hex_bytes (reverse_onto word []) ≡ c ∷ cs) × (c == b'@' ≡ false)
    first_char [] e hex =
        let read : int_of 16 [] ≡ uint (from_le word) =
          ap (int_of 16) (sym e) ∙ int_of-word word some_bytes h in
        let none_read = int_of_nil in cc
    first_char (c ∷ cs) e (first, hex) = (c, cs, e, ground arith)
