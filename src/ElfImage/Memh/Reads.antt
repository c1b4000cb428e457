-- ===== src/ElfImage/Memh/Reads.antt =====
-- The memory file of tools/elf2mem.py as `$readmemh` reads it.
use open_rv.Prelude.{
  ℕ, ◌+◌, ◌<◌, ◌≡◌, Option, none, some, List, [], ◌∷◌, ◌==◌, if◌then◌else◌, length, All,
}
use open_rv.Buffer.{Bytes, from_le}
use open_rv.Text.{Text, Integer, invalid, negative, uint, int_of}
use open_rv.ElfImage.Memh.Values.{IsByteList}

-- A line sets the address, or is a word for it.
pub data Token : Type 0 where
  address : ℕ → Token
  word : ℕ → Token
  bad : Token

abbrev address_token : Integer → Token
address_token invalid = bad
address_token (negative n) = bad
address_token (uint n) = address n

abbrev word_token : Integer → Token
word_token invalid = bad
word_token (negative n) = bad
word_token (uint n) = word n

unfoldable pub token : Text → Token
token [] = bad
token (c ∷ cs) = if c == b'@' then address_token (int_of 16 cs) else word_token (int_of 16 (c ∷ cs))

abbrev pub prepend : ℕ × ℕ → Option (List (ℕ × ℕ)) → Option (List (ℕ × ℕ))
prepend item none = none
prepend item (some items) = some (item ∷ items)

abbrev pub take_token : Token → ℕ → (ℕ → Option (List (ℕ × ℕ))) → Option (List (ℕ × ℕ))
take_token (address a) at rest = rest a
take_token (word v) at rest = prepend (at, v) (rest (at + 1))
take_token bad at rest = none

-- The addresses that the lines fill, each with its word; none for a line that is neither.
unfoldable pub readmemh : ℕ → List Text → Option (List (ℕ × ℕ))
unfolding token
readmemh at [] = some []
readmemh at (line ∷ lines) = take_token (token line) at (λ next. readmemh next lines)

abbrev pub value_at : ℕ → List (ℕ × ℕ) → ℕ
value_at index [] = 0
value_at index ((i, v) ∷ memory) = if i == index then v else value_at index memory

abbrev pub IsWordList : List (ℕ × Bytes) → Type 0
IsWordList = All (λ (item : ℕ × Bytes). (0 < length item.1) × IsByteList item.1)

values : List (ℕ × Bytes) → List (ℕ × ℕ)
values [] = []
values ((i, w) ∷ words) = (i, from_le w) ∷ values words

-- The reader stands where the next word is expected, if any is.
IsAt : Option ℕ → ℕ → Type 0
IsAt none at = Unit
IsAt (some e) at = e ≡ at
