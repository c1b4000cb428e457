-- ===== src/Tests/Elf.antt =====
-- An ELF file of one segment, and the words of two segments that share bytes.
use open_rv.Prelude.{
  zero, suc, ◌-◌, ℕ, ◌+◌, ◌≤◌, ◌<◌, ◌≡◌, refl, inl, ◌⊎◌, none, List, [], ◌∷◌, ◌++◌, ok, arith,
  get_or, some, codes, replicate, All,
}
use open_rv.Buffer.{Bytes, Buffer, of_list, read, from_le, to_le, bytes_eq}
use open_rv.ElfImage.{
  payload_of, Segment, unpack, load_segment, load_segments, load_elf, set_lane, store_byte,
  store_bytes, store_segments, image_words,
}
use open_rv.Text.{format_hex, reverse_onto, hex_reversed, hex_digit}
use open_rv.ElfImage.Memh.{write_memh}
use open_rv.ElfImage.Load.{IsLoaded, load_elf-IsLoaded}
use open_rv.ElfImage.Present.{byte_at}
use open_rv.ElfImage.Succeeds.{IsPartOf, image_words_succeeds}
use open_rv.ElfImage.Image.{SharesWord, image_words-byte_at, image_words_outside}

-- Bytes 2 and 3 of the first segment are bytes 0 and 1 of the second, whose last two are zero.
abbrev first_segment : Segment
first_segment = record { address = 0x8000_0004; data_bytes = 1 ∷ 2 ∷ 3 ∷ 4 ∷ []; memory_size = 4 }

abbrev second_segment : Segment
second_segment = record { address = 0x8000_0006; data_bytes = 3 ∷ 4 ∷ []; memory_size = 4 }

abbrev two_segments : List Segment
two_segments = first_segment ∷ second_segment ∷ []

abbrev two_words : List (ℕ × Bytes)
two_words = (0, 0 ∷ 0 ∷ 0 ∷ 0 ∷ 1 ∷ 2 ∷ 3 ∷ 4 ∷ []) ∷ (1, 0 ∷ 0 ∷ 0 ∷ 0 ∷ 0 ∷ 0 ∷ 0 ∷ 0 ∷ []) ∷ []

image_words-two_segments : image_words two_segments 0x8000_0000 0x1000 8 ≡ ok two_words
unfolding image_words store_segments store_bytes store_byte set_lane
image_words-two_segments = refl

image_words-byte_at_example :
    (0x8000_0000 ≤ 0x8000_0006)
    × (0x8000_0006 + 4 ≤ 0x8000_0000 + 0x1000)
    × (byte_at 0x8000_0000 8 two_words (0x8000_0006 + 3) ≡ some (get_or {A = ℕ} (3 ∷ 4 ∷ []) 3 0))
image_words-byte_at_example =
    image_words-byte_at two_segments 0x8000_0000 0x1000 8 two_words 1 3 second_segment
      image_words-two_segments refl (omega arith)

image_words_outside_example :
    ((byte_at 0x8000_0000 8 two_words 0x8000_0002 ≡ some 0)
      × SharesWord 0x8000_0000 8 two_segments 0x8000_0002)
    ⊎ ((byte_at 0x8000_0000 8 two_words 0x8000_0002 ≡ none)
        × ¬ SharesWord 0x8000_0000 8 two_segments 0x8000_0002)
image_words_outside_example =
    image_words_outside two_segments 0x8000_0000 0x1000 8 0x8000_0002 two_words
      image_words-two_segments (omega arith) (inl (omega arith), (inl (omega arith), tt))

-- Word 1 is all zeros, and there; there is no word 2.
byte_at-two_words : byte_at 0x8000_0000 8 two_words 0x8000_0008 ≡ some 0
byte_at-two_words = refl

byte_at-two_words_behind : byte_at 0x8000_0000 8 two_words 0x8000_0010 ≡ none
byte_at-two_words_behind = refl

-- The memory that both segments are part of.
abbrev memory_image : ℕ → ℕ
memory_image a = get_or {A = ℕ} (1 ∷ 2 ∷ 3 ∷ 4 ∷ []) (a - 0x8000_0004) 0

first_bytes :
    (k : ℕ) → k < 4 → get_or (payload_of first_segment) k 0 ≡ memory_image (0x8000_0004 + k)
first_bytes zero h = refl
first_bytes (suc zero) h = refl
first_bytes (suc (suc zero)) h = refl
first_bytes (suc (suc (suc zero))) h = refl
first_bytes (suc (suc (suc (suc k)))) h = absurd (omega arith)

second_bytes :
    (k : ℕ) → k < 4 → get_or (payload_of second_segment) k 0 ≡ memory_image (0x8000_0006 + k)
second_bytes zero h = refl
second_bytes (suc zero) h = refl
second_bytes (suc (suc zero)) h = refl
second_bytes (suc (suc (suc zero))) h = refl
second_bytes (suc (suc (suc (suc k)))) h = absurd (omega arith)

two_parts : All (IsPartOf memory_image 0x8000_0000 (0x8000_0000 + 0x1000)) two_segments
two_parts = (
  record { above = omega arith; below = omega arith; fits = omega arith; bytes = first_bytes },
  (
    record { above = omega arith; below = omega arith; fits = omega arith; bytes = second_bytes },
    tt,
  ),
)

image_words_succeeds_example :
    (words : List (ℕ × Bytes)) × (image_words two_segments 0x8000_0000 0x1000 8 ≡ ok words)
image_words_succeeds_example =
    image_words_succeeds memory_image two_segments 0x8000_0000 0x1000 8 refl two_parts

-- The file header, one program header and four bytes of code.
abbrev elf_bytes : Bytes
elf_bytes =
    (0x7F ∷ 0x45 ∷ 0x4C ∷ 0x46 ∷ 2 ∷ 1 ∷ 1 ∷ [])
    ++ replicate 9 0
    ++ to_le 2 2
    ++ to_le 2 243
    ++ to_le 4 1
    ++ to_le 8 0x8000_0000
    ++ to_le 8 64
    ++ to_le 8 0
    ++ to_le 4 0
    ++ to_le 2 64
    ++ to_le 2 56
    ++ to_le 2 1
    ++ replicate 6 0
    ++ to_le 4 1
    ++ to_le 4 5
    ++ to_le 8 120
    ++ to_le 8 0x8000_0000
    ++ to_le 8 0x8000_0000
    ++ to_le 8 4
    ++ to_le 8 8
    ++ to_le 8 4096
    ++ (0x13 ∷ 0 ∷ 0 ∷ 0 ∷ [])

abbrev elf_file : Buffer
elf_file = of_list elf_bytes

abbrev code_segment : Segment
code_segment = record { address = 0x8000_0000; data_bytes = 0x13 ∷ 0 ∷ 0 ∷ 0 ∷ []; memory_size = 8 }

load_elf-elf_file : load_elf elf_file ≡ ok (0x8000_0000, code_segment ∷ [])
unfolding load_elf load_segments load_segment unpack of_list read from_le to_le bytes_eq
load_elf-elf_file = refl

load_elf-IsLoaded_example :
    (unpack elf_file 18 2 ≡ 243)
    × (0x8000_0000 ≡ unpack elf_file 24 8)
    × (0 < 1)
    × All (IsLoaded elf_file) (code_segment ∷ [])
load_elf-IsLoaded_example =
    load_elf-IsLoaded elf_file 0x8000_0000 (code_segment ∷ []) load_elf-elf_file

-- Words 3 and 4 of a memory, in the other order.
abbrev swapped_words : List (ℕ × Bytes)
swapped_words = (4, 1 ∷ 2 ∷ []) ∷ (3, 0xAB ∷ 0xCD ∷ []) ∷ []

write_memh-swapped_words : write_memh swapped_words ≡ codes "@3" ∷ codes "cdab" ∷ codes "0201" ∷ []
unfolding write_memh format_hex reverse_onto hex_reversed hex_digit
write_memh-swapped_words = refl
