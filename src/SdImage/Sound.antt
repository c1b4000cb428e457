-- ===== src/SdImage/Sound.antt =====
-- What an accepted image satisfies.
use open_rv.Prelude.{
  ℕ, zero, suc, ◌+◌, ◌-◌, ◌*◌, ◌%◌, ◌≤◌, ◌<◌, ◌≡◌, refl, sym, true, false, List, [], ◌∷◌, ok,
  >>=-eq-ok, refuse_if-eq-ok, arith, subst, length, All, not, ◌==◌,
}
use open_rv.Buffer.{Bytes, Buffer, read, slice, prefix}
use open_rv.Buffer.Laws.{length-read}
use open_rv.SdImage.{
  sector_bytes, first_payload_lba, maximum_entries, Entry, ragged_image, is_ascii, rstrip, field,
  any_nonzero, header_bytes,
}
use open_rv.SdImage.Verify.{
  decode_entry, decode_entries, sort_ranges, check_overlap, check_header, decode_header,
  verify_entries, verify_bytes,
}
use open_rv.SdImage.Apart.{
  sort_ranges-IsForward, check_overlap-AllApart, AllDisjoint, AllApart-sort_ranges,
}

-- An entry that lies in the payload area of an image of `actual` bytes.
pub record IsPlaced (actual : ℕ) (e : Entry) : Type 0 where
  pub tag_nonempty : 0 < length e.tag
  pub tag_short : length e.tag ≤ 8
  pub tag_ascii : is_ascii e.tag ≡ true
  pub payload_nonempty : 0 < e.byte_length
  pub payload_fits : e.byte_length ≤ e.sector_count * sector_bytes
  pub after_header : first_payload_lba ≤ e.lba
  pub inside : (e.lba + e.sector_count) * sector_bytes ≤ actual

length-rstrip : (bs : Bytes) → length (rstrip bs) ≤ length bs
unfolding rstrip
length-rstrip [] = omega arith
length-rstrip (c ∷ cs) = ground (arith, length-rstrip cs)

decode_entry-IsPlaced :
    (header : Buffer) (actual index : ℕ) {e : Entry}
    → decode_entry header actual index ≡ ok e
    → IsPlaced actual e
unfolding decode_entry
decode_entry-IsPlaced header actual index h =
    ground (
      arith,
      length-rstrip (read header (64 + index * 32) 8),
      length-read header (64 + index * 32) 8,
    )

decode_entries-IsPlaced :
    (header : Buffer) (actual left index : ℕ) {entries : List Entry}
    → decode_entries header actual left index ≡ ok entries
    → All (IsPlaced actual) entries × (length entries ≡ left)
unfolding decode_entries
decode_entries-IsPlaced header actual zero index {entries = []} h = (tt, refl)
decode_entries-IsPlaced header actual zero index {entries = e ∷ entries} h = cc
decode_entries-IsPlaced header actual (suc left) index {entries = entries} h =
    let (e, first, more) = >>=-eq-ok (decode_entry header actual index) _ h in
    let (rest, decoded, done) = >>=-eq-ok (decode_entries header actual left (index + 1)) _ more in
    let (placed, counted) = decode_entries-IsPlaced header actual left (index + 1) decoded in
    let same : e ∷ rest ≡ entries = cc in
    subst (λ es. All (IsPlaced actual) es × (length es ≡ suc left)) same
      ((decode_entry-IsPlaced header actual index first, placed), omega (arith, counted))

-- The bytes of an entry: the payload has the stored checksum, and the rest of the last sector is
-- zero.
pub record IsIntact (crc : Bytes → ℕ) (image : Buffer) (e : Entry) : Type 0 where
  pub checksum : crc (slice image (e.lba * sector_bytes) e.byte_length) ≡ e.crc32
  pub padding :
      any_nonzero (
        slice image
          (e.lba * sector_bytes + e.byte_length)
          (e.sector_count * sector_bytes - e.byte_length))
      ≡ false

eq_of_test : (a b : ℕ) → not (a == b) ≡ false → b ≡ a
eq_of_test a b h = ground arith

module _ (crc : Bytes → ℕ) where
  verify_step :
      (image : Buffer) (e : Entry) (entries : List Entry)
      → verify_entries crc image (e ∷ entries) ≡ ok tt
      → (crc (slice image (e.lba * sector_bytes) e.byte_length) ≡ e.crc32)
        × (any_nonzero (
              slice image
                (e.lba * sector_bytes + e.byte_length)
                (e.sector_count * sector_bytes - e.byte_length))
            ≡ false)
        × (verify_entries crc image entries ≡ ok tt)
  unfolding verify_entries
  verify_step image e entries h = ground arith

  verify_entries-IsIntact :
      (image : Buffer) (entries : List Entry)
      → verify_entries crc image entries ≡ ok tt
      → All (IsIntact crc image) entries
  unfolding verify_entries
  verify_entries-IsIntact image [] h = tt
  verify_entries-IsIntact image (e ∷ entries) h =
      let (summed, clean, rest) = verify_step image e entries h in
      (record { checksum = summed; padding = clean }, verify_entries-IsIntact image entries rest)

  check_header_sound :
      (header : Buffer) (actual : ℕ) {count : ℕ}
      → check_header crc header actual ≡ ok count
      → (0 < count) × (count ≤ maximum_entries) × (crc (read header 0 508) ≡ field header 508 4)
  unfolding check_header
  check_header_sound header actual h = ground arith

  decode_header_sound :
      (header : Buffer) (actual : ℕ) {entries : List Entry}
      → decode_header crc header actual ≡ ok entries
      → All (IsPlaced actual) entries
        × AllDisjoint entries
        × (0 < length entries)
        × (length entries ≤ maximum_entries)
        × (crc (read header 0 508) ≡ field header 508 4)
  unfolding decode_header
  decode_header_sound header actual {entries = entries} h =
      let (count, checked, h₁) = >>=-eq-ok (check_header crc header actual) _ h in
      let (found, decoded, h₂) = >>=-eq-ok (decode_entries header actual count 0) _ h₁ in
      let (_, apart, h₃) = >>=-eq-ok (check_overlap (sort_ranges found)) _ h₂ in
      let same : found ≡ entries = cc in
      let (placed, size) = decode_entries-IsPlaced header actual count 0 decoded in
      let (lower, upper, summed) = check_header_sound header actual checked in
      let disjoint =
        AllApart-sort_ranges found
          (check_overlap-AllApart (sort_ranges found) (sort_ranges-IsForward found) apart) in
      subst
        (λ es.
          All (IsPlaced actual) es
          × AllDisjoint es
          × (0 < length es)
          × (length es ≤ maximum_entries)
          × (crc (read header 0 508) ≡ field header 508 4))
        same (placed, disjoint, omega (arith, lower, size), omega (arith, upper, size), summed)

-- An image that `verify_bytes` accepts is a whole number of sectors with 1 to 13 entries. Each
-- entry has an ASCII tag of 1 to 8 characters and a payload of at least one byte that fits its
-- sectors; these lie behind the header area and inside the image, and no two entries share a
-- sector. The header and each payload have their stored checksums, and the rest of each payload's
-- last sector is zero.
pub verify_bytes_sound :
    (crc : Bytes → ℕ) (image : Buffer) (entries : List Entry)
    → verify_bytes crc image ≡ ok entries
    → (image.size % sector_bytes ≡ 0)
      × (0 < length entries)
      × (length entries ≤ maximum_entries)
      × All (IsPlaced image.size) entries
      × AllDisjoint entries
      × (crc (read (prefix image header_bytes) 0 508) ≡ field (prefix image header_bytes) 508 4)
      × All (IsIntact crc image) entries
unfolding verify_bytes
verify_bytes_sound crc image entries h =
    let (whole, h₁) = refuse_if-eq-ok (not (image.size % sector_bytes == 0)) ragged_image _ h in
    let (found, decoded, h₂) =
      >>=-eq-ok (decode_header crc (prefix image header_bytes) image.size) _ h₁ in
    let (_, intact, h₃) = >>=-eq-ok (verify_entries crc image found) _ h₂ in
    let same : found ≡ entries = cc in
    let (placed, disjoint, lower, upper, summed) = decode_header_sound crc _ image.size decoded in
    subst
      (λ es.
        (image.size % sector_bytes ≡ 0)
        × (0 < length es)
        × (length es ≤ maximum_entries)
        × All (IsPlaced image.size) es
        × AllDisjoint es
        × (crc (read (prefix image header_bytes) 0 508) ≡ field (prefix image header_bytes) 508 4)
        × All (IsIntact crc image) es)
      same
      (
        sym (eq_of_test _ _ whole),
        lower,
        upper,
        placed,
        disjoint,
        summed,
        verify_entries-IsIntact crc image found intact,
      )
