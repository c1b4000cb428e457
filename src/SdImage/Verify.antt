-- ===== src/SdImage/Verify.antt =====
-- The reader of tools/make-fpga-sd-image.py: `decode_header` and `verify_bytes`.
use open_rv.Prelude.{
  ℕ, zero, suc, ◌+◌, ◌-◌, ◌*◌, ◌%◌, Bool, true, false, not, ◌&&◌, ◌||◌, List, [], ◌∷◌, Result, ok,
  ◌>>=◌, ◌>>◌, refuse_if, ltb, ◌==◌, if◌then◌else◌, length,
}
use open_rv.Buffer.{Bytes, Buffer, read, slice, bytes_eq, prefix}
use open_rv.SdImage.{
  sector_bytes, first_payload_lba, magic, version, header_bytes, header_crc_offset, entry_offset,
  entry_bytes, maximum_entries, Entry, SdError, overlap, ragged_image, is_ascii, rstrip, field,
  any_nonzero, short_header, bad_magic, bad_version, bad_sizes, bad_count, bad_image_length,
  bad_header_crc, raw_tag_not_ascii, zero_field, entry_too_long, outside_payload_area,
  bad_payload_crc, bad_padding,
}

-- One round of the loop of `decode_header`.
unfoldable pub decode_entry : Buffer → ℕ → ℕ → Result SdError Entry
decode_entry header actual index = do
  let offset = entry_offset + index * entry_bytes
  let tag = rstrip (read header offset 8)
  let lba = field header (offset + 8) 4
  let sector_count = field header (offset + 12) 4
  let load_address = field header (offset + 16) 8
  let byte_length = field header (offset + 24) 4
  let crc32 = field header (offset + 28) 4
  refuse_if (not (is_ascii tag)) (raw_tag_not_ascii index)
  refuse_if (length tag == 0 || (sector_count == 0 || byte_length == 0)) (zero_field index)
  refuse_if (ltb (sector_count * sector_bytes) byte_length) (entry_too_long tag)
  refuse_if
      (ltb lba first_payload_lba || ltb actual (lba * sector_bytes + sector_count * sector_bytes))
      (outside_payload_area tag)
  ok (record {
    tag = tag;
    lba = lba;
    sector_count = sector_count;
    load_address = load_address;
    byte_length = byte_length;
    crc32 = crc32;
  })

-- `left` rounds, from `index` on.
unfoldable pub decode_entries : Buffer → ℕ → ℕ → ℕ → Result SdError (List Entry)
decode_entries header actual zero index = ok []
decode_entries header actual (suc left) index = do
  e ← decode_entry header actual index
  rest ← decode_entries header actual left (index + 1)
  ok (e ∷ rest)

pub record Range : Type 0 where
  pub start : ℕ
  pub end : ℕ
  pub tag : Bytes

-- The order of the tuples `(start, end, tag)`.
tag_le : Bytes → Bytes → Bool
tag_le [] ys = true
tag_le (x ∷ xs) [] = false
tag_le (x ∷ xs) (y ∷ ys) = ltb x y || (x == y && tag_le xs ys)

unfoldable pub range_le : Range → Range → Bool
unfolding tag_le
range_le a b =
    ltb a.start b.start
    || (a.start == b.start && (ltb a.end b.end || (a.end == b.end && tag_le a.tag b.tag)))

unfoldable pub insert_range : Range → List Range → List Range
insert_range r [] = r ∷ []
insert_range r (s ∷ rest) = if range_le r s then r ∷ s ∷ rest else s ∷ insert_range r rest

abbrev pub range_of : Entry → Range
range_of e = record { start = e.lba; end = e.lba + e.sector_count; tag = e.tag }

-- `sorted((entry.lba, entry.lba + entry.sector_count, entry.tag) for entry in entries)`
unfoldable pub sort_ranges : List Entry → List Range
sort_ranges [] = []
sort_ranges (e ∷ entries) = insert_range (range_of e) (sort_ranges entries)

-- The loop over the neighbours.
unfoldable pub check_overlap : List Range → Result SdError (Unit {0})
check_overlap [] = ok tt
check_overlap (previous ∷ []) = ok tt
check_overlap (previous ∷ current ∷ rest) = do
  refuse_if (ltb current.start previous.end) (overlap previous.tag current.tag)
  check_overlap (current ∷ rest)

module _ (crc : Bytes → ℕ) where
  -- The tests of `decode_header` before its loop; the result is the entry count.
  unfoldable pub check_header : Buffer → ℕ → Result SdError ℕ
  check_header header actual = do
    refuse_if (not (header.size == header_bytes)) short_header
    refuse_if (not (bytes_eq (read header 0 8) magic)) bad_magic
    refuse_if (not (field header 8 4 == version)) bad_version
    refuse_if (not (field header 12 4 == header_bytes) || not (field header 16 4 == entry_bytes))
        bad_sizes
    let count = field header 20 4
    refuse_if (ltb count 1 || ltb maximum_entries count) bad_count
    refuse_if (not (field header 24 8 == actual)) bad_image_length
    refuse_if (not (field header 508 4 == crc (read header 0 header_crc_offset))) bad_header_crc
    ok count

  unfoldable pub decode_header : Buffer → ℕ → Result SdError (List Entry)
  decode_header header actual = do
    count ← check_header header actual
    entries ← decode_entries header actual count 0
    check_overlap (sort_ranges entries)
    ok entries

  -- The loop of `verify_bytes` over the entries.
  unfoldable pub verify_entries : Buffer → List Entry → Result SdError (Unit {0})
  verify_entries image [] = ok tt
  verify_entries image (e ∷ entries) = do
    let start = e.lba * sector_bytes
    let padding = e.sector_count * sector_bytes - e.byte_length
    refuse_if (not (crc (slice image start e.byte_length) == e.crc32)) (bad_payload_crc e.tag)
    refuse_if (any_nonzero (slice image (start + e.byte_length) padding)) (bad_padding e.tag)
    verify_entries image entries

  -- The header is `image[:HEADER_BYTES]`.
  unfoldable pub verify_bytes : Buffer → Result SdError (List Entry)
  verify_bytes image = do
    refuse_if (not (image.size % sector_bytes == 0)) ragged_image
    entries ← decode_header (prefix image header_bytes) image.size
    verify_entries image entries
    ok entries
