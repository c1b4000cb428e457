-- ===== src/MemWords.antt =====
-- tools/bin2mem.py: a flat binary as the lines of a memory file, one little-endian word to a line.
pub mod Contents
use Prim.Native.Nat.{bit_and}
use open_rv.Prelude.{
  ℕ, zero, suc, ◌+◌, ◌-◌, ◌*◌, ◌/◌, ◌%◌, Bool, true, false, not, ◌||◌, List, [], ◌∷◌, Result, ok,
  ◌>>=◌, ◌>>◌, refuse_if, ltb, ◌==◌, length,
}
use open_rv.Buffer.{Bytes, Buffer, zeros, slice, splice, from_le}
use open_rv.Text.{Text, format_hex}

pub data MemError : Type 0 where
  bad_word_size bad_memory_size too_large : MemError

-- `left` lines from `offset` on.
unfoldable pub word_lines : Buffer → ℕ → ℕ → ℕ → List Text
word_lines image word_bytes zero offset = []
word_lines image word_bytes (suc left) offset =
    format_hex (word_bytes * 2) (from_le (slice image offset word_bytes))
    ∷ word_lines image word_bytes left (offset + word_bytes)

-- The bytes that are loaded, and the lines that are written. Sizes below zero are refused with zero.
unfoldable pub convert : Bytes → ℕ → ℕ → Result MemError (ℕ × List Text)
unfolding word_lines
convert source size word_bytes = do
  refuse_if (word_bytes == 0 || not (bit_and word_bytes (word_bytes - 1) == 0)) bad_word_size
  refuse_if (size == 0 || not (size % word_bytes == 0)) bad_memory_size
  refuse_if (ltb size (length source)) too_large
  ok (length source, word_lines (splice (zeros size) 0 source) word_bytes (size / word_bytes) 0)
