-- ===== src/ElfImage.antt =====
-- tools/elf2mem.py: the loadable segments of an ELF file, and the memory words that they fill. A
-- dictionary is the list of its items; `owner` is a function of the address.
pub mod Memh
pub mod Load
pub mod Words
pub mod Present
pub mod Stored
pub mod Image
pub mod Succeeds
use open_rv.Prelude.{
  ℕ, zero, suc, ◌+◌, ◌-◌, ◌*◌, ◌/◌, ◌%◌, Bool, true, false, not, ◌||◌, Option, none, some, List, [],
  ◌∷◌, ◌++◌, Result, ok, err, ◌>>=◌, ◌>>◌, refuse_if, ltb, leb, ◌==◌, if◌then◌else◌, length, get_or,
  set, replicate,
}
use open_rv.Buffer.{Bytes, Buffer, read, from_le, bytes_eq}

-- b"\x7fELF"
abbrev pub elf_magic : Bytes
elf_magic = 0x7F ∷ b'E' ∷ b'L' ∷ b'F' ∷ []

abbrev pub pt_load : ℕ
pt_load = 1

pub record Segment : Type 0 where
  pub address : ℕ
  pub data_bytes : Bytes
  pub memory_size : ℕ

-- The exceptions, with the index or the address that the message names.
pub data ElfError : Type 0 where
  not_elf not_elf64 not_little_endian : ElfError
  wrong_machine bad_header_size : ℕ → ElfError
  truncated_header invalid_segment : ℕ → ElfError
  no_segments : ElfError
  bad_word_size negative_padding : ElfError
  outside_ram : ℕ → ℕ → ElfError
  conflict : ℕ → ElfError

-- A field of `struct.unpack_from`.
unfoldable pub unpack : Buffer → ℕ → ℕ → ℕ
unpack blob offset width = from_le (read blob offset width)

-- The segment of a program header at `offset`, if it loads anything.
unfoldable pub load_segment : Buffer → ℕ → ℕ → Result ElfError (Option Segment)
load_segment blob offset index =
    let p_type = unpack blob offset 4 in
    let p_offset = unpack blob (offset + 8) 8 in
    let p_vaddr = unpack blob (offset + 16) 8 in
    let p_paddr = unpack blob (offset + 24) 8 in
    let p_filesz = unpack blob (offset + 32) 8 in
    let p_memsz = unpack blob (offset + 40) 8 in
    if ltb blob.size (offset + 56)
    then err (truncated_header index)
    else if not (p_type == pt_load) || p_memsz == 0
    then ok none
    else if ltb p_memsz p_filesz || ltb blob.size (p_offset + p_filesz)
    then err (invalid_segment index)
    else ok (
        some record {
          address = if p_paddr == 0 then p_vaddr else p_paddr;
          data_bytes = read blob p_offset p_filesz;
          memory_size = p_memsz;
        })

abbrev pub append_found : Option Segment → List Segment → List Segment
append_found none segments = segments
append_found (some segment) segments = segment ∷ segments

-- `left` rounds of the loop over the program headers, from `index` on.
unfoldable pub load_segments : Buffer → ℕ → ℕ → ℕ → ℕ → Result ElfError (List Segment)
load_segments blob phoff phentsize zero index = ok []
load_segments blob phoff phentsize (suc left) index = do
  found ← load_segment blob (phoff + index * phentsize) index
  rest ← load_segments blob phoff phentsize left (index + 1)
  ok (append_found found rest)

-- The entry point and the segments.
unfoldable pub load_elf : Buffer → Result ElfError (ℕ × List Segment)
load_elf blob = do
  refuse_if (ltb blob.size 64 || not (bytes_eq (read blob 0 4) elf_magic)) not_elf
  refuse_if (not (blob.byte 4 == 2)) not_elf64
  refuse_if (not (blob.byte 5 == 1)) not_little_endian
  let machine = unpack blob 18 2
  let entry = unpack blob 24 8
  let phoff = unpack blob 32 8
  let phentsize = unpack blob 54 2
  let phnum = unpack blob 56 2
  refuse_if (not (machine == 243)) (wrong_machine machine)
  refuse_if (ltb phentsize 56) (bad_header_size phentsize)
  segments ← load_segments blob phoff phentsize phnum 0
  refuse_if (length segments == 0) no_segments
  ok (entry, segments)

-- `owner` and `words` of `image_words`.
pub record Memory : Type 0 where
  pub owner : ℕ → Option (ℕ × ℕ)
  pub words : List (ℕ × Bytes)

abbrev pub is_conflict : Option (ℕ × ℕ) → ℕ → Bool
is_conflict none value = false
is_conflict (some (_, previous)) value = not (previous == value)

-- `words.setdefault(index, bytearray(word_bytes))[lane] = value`
unfoldable pub set_lane : ℕ → ℕ → ℕ → ℕ → List (ℕ × Bytes) → List (ℕ × Bytes)
set_lane word_bytes index lane value [] = (index, set (replicate word_bytes 0) lane value) ∷ []
set_lane word_bytes index lane value ((i, word) ∷ words) =
    if i == index
    then (i, set word lane value) ∷ words
    else (i, word) ∷ set_lane word_bytes index lane value words

module _ (base word_bytes : ℕ) where
  unfoldable pub store_byte : ℕ → ℕ → ℕ → Memory → Memory
  store_byte segment_index absolute value m = record {
    owner = λ a. if a == absolute then some (segment_index, value) else m.owner a;
    words =
        set_lane word_bytes ((absolute - base) / word_bytes) ((absolute - base) % word_bytes) value
          m.words;
  }

  -- The loop over the payload, from `absolute` on.
  unfoldable pub store_bytes : ℕ → ℕ → Bytes → Memory → Result ElfError Memory
  store_bytes segment_index absolute [] m = ok m
  store_bytes segment_index absolute (value ∷ payload) m = do
    refuse_if (is_conflict (m.owner absolute) value) (conflict absolute)
    store_bytes segment_index (absolute + 1) payload (store_byte segment_index absolute value m)

abbrev pub payload_of : Segment → Bytes
payload_of segment =
    segment.data_bytes ++ replicate (segment.memory_size - length segment.data_bytes) 0

-- The loop over the segments, from `index` on.
unfoldable pub store_segments : ℕ → ℕ → ℕ → ℕ → List Segment → Memory → Result ElfError Memory
store_segments base limit word_bytes index [] m = ok m
store_segments base limit word_bytes index (segment ∷ segments) m = do
  let end = segment.address + segment.memory_size
  refuse_if (ltb segment.address base || (ltb limit end || ltb end segment.address))
      (outside_ram segment.address end)
  refuse_if (ltb segment.memory_size (length segment.data_bytes)) negative_padding
  m' ← store_bytes base word_bytes index segment.address (payload_of segment) m
  store_segments base limit word_bytes (index + 1) segments m'

unfoldable pub image_words : List Segment → ℕ → ℕ → ℕ → Result ElfError (List (ℕ × Bytes))
image_words segments base size word_bytes = do
  refuse_if (not (word_bytes == 8 || word_bytes == 32)) bad_word_size
  m ←
      store_segments base (base + size) word_bytes 0 segments
        (record { owner = λ a. none; words = [] })
  ok m.words
