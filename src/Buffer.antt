-- ===== src/Buffer.antt =====
-- `bytes` and `bytearray` values with random access: a size and a byte at each offset.
-- Slices follow the source's language: a read is cut at the end, a write of as many bytes as it
-- replaces changes these bytes alone, and a write past the end extends the buffer.
pub mod Laws
use open_rv.Prelude.{
  ℕ, zero, suc, ◌+◌, ◌-◌, ◌*◌, ◌/◌, ◌%◌, min, max, Bool, true, false, List, [], ◌∷◌, ◌==◌, leb, ltb,
  ◌&&◌, if◌then◌else◌, length, get_or,
}

abbrev pub Bytes : Type 0
Bytes = List ℕ

pub record Buffer : Type 0 where
  pub size : ℕ
  pub byte : ℕ → ℕ

-- `bytearray(n)`
unfoldable pub zeros : ℕ → Buffer
zeros n = record { size = n; byte = λ i. 0 }

-- the buffer that holds these bytes
unfoldable pub of_list : Bytes → Buffer
of_list bs = record { size = length bs; byte = λ i. get_or bs i 0 }

-- `n` bytes from `off` on
unfoldable pub read : Buffer → ℕ → ℕ → Bytes
read b off zero = []
read b off (suc n) = b.byte off ∷ read b (off + 1) n

-- `b[off:off + n]`
unfoldable pub slice : Buffer → ℕ → ℕ → Bytes
slice b off n = read b off (min n (b.size - off))

-- `b[off:off + len(bs)] = bs`, for `off` within the buffer
unfoldable pub splice : Buffer → ℕ → Bytes → Buffer
splice b off bs = record {
  size = max b.size (off + length bs);
  byte = λ i. if leb off i && ltb i (off + length bs) then get_or bs (i - off) 0 else b.byte i;
}

-- `value.to_bytes(n, "little")`, and the little-endian fields of `struct`
unfoldable pub to_le : ℕ → ℕ → Bytes
to_le zero v = []
to_le (suc n) v = (v % 256) ∷ to_le n (v / 256)

-- `int.from_bytes(bs, "little")`
unfoldable pub from_le : Bytes → ℕ
from_le [] = 0
from_le (x ∷ bs) = x + 256 * from_le bs

-- `b[off:off + n] = bytes(n)`
unfoldable pub clear : Buffer → ℕ → ℕ → Buffer
clear b off n = record {
  size = max b.size (off + n);
  byte = λ i. if leb off i && ltb i (off + n) then 0 else b.byte i;
}

-- `b[:n]`
unfoldable pub prefix : Buffer → ℕ → Buffer
prefix b n = record { size = min n b.size; byte = b.byte }

-- The `==` of two byte strings.
unfoldable pub bytes_eq : Bytes → Bytes → Bool
bytes_eq [] [] = true
bytes_eq (x ∷ xs) (y ∷ ys) = x == y && bytes_eq xs ys
bytes_eq [] (y ∷ ys) = false
bytes_eq (x ∷ xs) [] = false
