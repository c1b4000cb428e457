-- ===== src/SdImage.antt =====
-- tools/make-fpga-sd-image.py: the layout of the FPGA boot card, its header, and the verifier.
-- `zlib.crc32` is a parameter. A payload is its bytes, an image a buffer; the paths, the device
-- tree compiler and the JSON manifest are not modelled.
pub mod Verify
pub mod Build
pub mod Sound
pub mod Header
pub mod Decode
pub mod Layout
pub mod RoundTrip
pub mod Boot
pub mod Written
pub mod Apart
use open_rv.Prelude.{
  ℕ, zero, suc, ◌+◌, ◌-◌, ◌*◌, ◌/◌, ◌^◌, ◌%◌, Bool, true, false, not, ◌&&◌, ◌||◌, List, [], ◌∷◌,
  ◌++◌, Result, ok, err, ◌>>=◌, ◌>>◌, refuse_if, ltb, leb, ◌==◌, if◌then◌else◌, length, replicate,
  take, drop, codes,
}
use open_rv.Buffer.{Bytes, Buffer, zeros, read, slice, splice, to_le, from_le, bytes_eq, prefix}

abbrev pub sector_bytes : ℕ
sector_bytes = 512

abbrev pub first_payload_lba : ℕ
first_payload_lba = 8

-- b"ORV64SD1"
abbrev pub magic : Bytes
magic = b'O' ∷ b'R' ∷ b'V' ∷ b'6' ∷ b'4' ∷ b'S' ∷ b'D' ∷ b'1' ∷ []

abbrev pub version : ℕ
version = 1

abbrev pub header_bytes : ℕ
header_bytes = sector_bytes

abbrev pub header_crc_offset : ℕ
header_crc_offset = header_bytes - 4

abbrev pub entry_offset : ℕ
entry_offset = 64

abbrev pub entry_bytes : ℕ
entry_bytes = 32

abbrev pub maximum_entries : ℕ
maximum_entries = (header_crc_offset - entry_offset) / entry_bytes

pub record InputImage : Type 0 where
  pub tag : Bytes
  pub load_address : ℕ

pub record Entry : Type 0 where
  pub tag : Bytes
  pub lba : ℕ
  pub sector_count : ℕ
  pub load_address : ℕ
  pub byte_length : ℕ
  pub crc32 : ℕ

-- The exceptions, in the order in which the source raises them.
pub data SdError : Type 0 where
  unequal_lengths tag_not_ascii tag_too_long struct_error : SdError
  short_header bad_magic bad_version bad_sizes bad_count bad_image_length bad_header_crc : SdError
  raw_tag_not_ascii zero_field : ℕ → SdError
  entry_too_long outside_payload_area : Bytes → SdError
  overlap : Bytes → Bytes → SdError
  ragged_image : SdError
  bad_payload_crc bad_padding : Bytes → SdError
  empty_opensbi empty_linux no_linux_magic : SdError

unfoldable pub sectors_for : ℕ → ℕ
sectors_for byte_length = (byte_length + sector_bytes - 1) / sector_bytes

-- A tag is the list of its code points.
unfoldable pub is_ascii : Bytes → Bool
is_ascii [] = true
is_ascii (c ∷ cs) = ltb c 128 && is_ascii cs

-- `raw.rstrip(b"\0")`
abbrev strip_one : ℕ → Bytes → Bytes
strip_one c [] = if c == 0 then [] else c ∷ []
strip_one c (d ∷ ds) = c ∷ d ∷ ds

unfoldable pub rstrip : Bytes → Bytes
rstrip [] = []
rstrip (c ∷ cs) = strip_one c (rstrip cs)

-- The field `8s` of `struct`: padded with zero bytes.
unfoldable pub pad8 : Bytes → Bytes
pad8 tag = tag ++ replicate (8 - length tag) 0

-- A little-endian field.
unfoldable pub field : Buffer → ℕ → ℕ → ℕ
field b offset width = from_le (read b offset width)

unfoldable pub store : Buffer → ℕ → ℕ → ℕ → Buffer
store b offset width value = splice b offset (to_le width value)

-- `any(bs)`
unfoldable pub any_nonzero : Bytes → Bool
any_nonzero [] = false
any_nonzero (c ∷ cs) = not (c == 0) || any_nonzero cs

module _ (crc : Bytes → ℕ) where
  -- The loop over the inputs and their payloads, from `next_lba` on; `zip` is strict.
  pub make_entries : ℕ → List InputImage → List Bytes → Result SdError (List Entry)
  make_entries next_lba [] [] = ok []
  make_entries next_lba (item ∷ inputs) (payload ∷ payloads) = do
    let sector_count = sectors_for (length payload)
    rest ← make_entries (next_lba + sector_count) inputs payloads
    ok (
        record {
          tag = item.tag;
          lba = next_lba;
          sector_count = sector_count;
          load_address = item.load_address;
          byte_length = length payload;
          crc32 = crc payload;
        }
        ∷ rest)
  make_entries next_lba [] (payload ∷ payloads) = err unequal_lengths
  make_entries next_lba (item ∷ inputs) [] = err unequal_lengths

-- `ENTRY_STRUCT.pack_into`, whose fields are refused where they do not fit.
entry_fits : Entry → ℕ → Bool
entry_fits e offset =
    ltb e.lba (2 ^ 32)
    && (ltb e.sector_count (2 ^ 32)
        && (ltb e.load_address (2 ^ 64)
            && (ltb e.byte_length (2 ^ 32)
                && (ltb e.crc32 (2 ^ 32) && leb (offset + entry_bytes) header_bytes))))

write_entry : Buffer → ℕ → Entry → Buffer
write_entry header offset e =
    let tagged = splice header offset (pad8 e.tag) in
    let placed = store (store tagged (offset + 8) 4 e.lba) (offset + 12) 4 e.sector_count in
    let loaded = store placed (offset + 16) 8 e.load_address in
    store (store loaded (offset + 24) 4 e.byte_length) (offset + 28) 4 e.crc32

pub encode_entries : Buffer → ℕ → List Entry → Result SdError Buffer
encode_entries header index [] = ok header
encode_entries header index (e ∷ entries) = do
  let offset = entry_offset + index * entry_bytes
  refuse_if (not (is_ascii e.tag)) tag_not_ascii
  refuse_if (ltb 8 (length e.tag)) tag_too_long
  refuse_if (not (entry_fits e offset)) struct_error
  encode_entries (write_entry header offset e) (index + 1) entries

-- `HEADER_STRUCT.pack_into`
pub write_header : ℕ → ℕ → Buffer
write_header count image_bytes =
    let b₀ = splice (zeros header_bytes) 0 magic in
    let b₁ = store (store b₀ 8 4 version) 12 4 header_bytes in
    let b₂ = store (store b₁ 16 4 entry_bytes) 20 4 count in store b₂ 24 8 image_bytes

module _ (crc : Bytes → ℕ) where
  pub encode_header : List Entry → ℕ → Result SdError Buffer
  encode_header entries image_bytes = do
    refuse_if (leb (2 ^ 32) (length entries) || leb (2 ^ 64) image_bytes) struct_error
    header ← encode_entries (write_header (length entries) image_bytes) 0 entries
    refuse_if (leb (2 ^ 32) (crc (read header 0 header_crc_offset))) struct_error
    ok (store header header_crc_offset 4 (crc (read header 0 header_crc_offset)))
