-- ===== src/ElfImage/Memh.antt =====
-- `write_memh` of tools/elf2mem.py: the lines of the memory file.
mod Values
pub mod Reads
use open_rv.Prelude.{
  ℕ, zero, suc, ◌+◌, ◌/◌, ◌%◌, Bool, true, false, Option, none, some, List, [], ◌∷◌, ltb, ◌==◌,
  if◌then◌else◌,
}
use open_rv.Buffer.{Bytes}
use open_rv.Text.{Text, reverse_onto, hex_digit, format_hex}

-- `sorted(words)`, each index with its word.
unfoldable pub insert_word : ℕ × Bytes → List (ℕ × Bytes) → List (ℕ × Bytes)
insert_word item [] = item ∷ []
insert_word (index, word) ((i, w) ∷ words) =
    let rest = insert_word (index, word) words in
    if ltb i index then (i, w) ∷ rest else (index, word) ∷ (i, w) ∷ words

unfoldable pub sort_words : List (ℕ × Bytes) → List (ℕ × Bytes)
unfolding insert_word
sort_words [] = []
sort_words (item ∷ words) = insert_word item (sort_words words)

-- `word.hex()`
unfoldable pub hex_bytes : Bytes → Text
hex_bytes [] = []
hex_bytes (b ∷ bs) = hex_digit (b / 16) ∷ hex_digit (b % 16) ∷ hex_bytes bs

abbrev pub is_expected_index : Option ℕ → ℕ → Bool
is_expected_index none index = false
is_expected_index (some expected) index = index == expected

-- The loop of `write_memh`; `expected` is `previous + 1`, and none before the first word.
unfoldable pub memh_lines : Option ℕ → List (ℕ × Bytes) → List Text
unfolding hex_bytes
memh_lines expected [] = []
memh_lines expected ((index, word) ∷ words) =
    let line = hex_bytes (reverse_onto word []) in
    let rest = line ∷ memh_lines (some (index + 1)) words in
    if is_expected_index expected index then rest else (b'@' ∷ format_hex 1 index) ∷ rest

unfoldable pub write_memh : List (ℕ × Bytes) → List Text
unfolding memh_lines sort_words
write_memh words = memh_lines none (sort_words words)
