-- ===== src/SdImage/RoundTrip.antt =====
-- The verifier accepts what the builder writes.
use open_rv.Prelude.{
  ℕ, ◌+◌, ◌*◌, ◌%◌, ◌^◌, ◌≤◌, ◌<◌, ◌≡◌, refl, sym, ◌∙◌, ap, subst, inl, inr, true, List, [], ◌∷◌,
  ok, arith, length, All,
}
use open_rv.Buffer.{Bytes, Buffer, zeros, read, splice, prefix, from_le, bytes_eq}
use open_rv.Buffer.Laws.{
  read-splice_copy, read_congr, read-prefix, bytes_eq_refl, length-read, byte-zeros,
}
use open_rv.SdImage.{
  sector_bytes, first_payload_lba, magic, maximum_entries, InputImage, Entry, field, store,
  write_header, encode_header, make_entries,
}
use open_rv.SdImage.Verify.{check_header, decode_header, verify_entries, verify_bytes}
use open_rv.SdImage.Build.{place_payloads, image_size, build_image}
use open_rv.SdImage.Sound.{IsPlaced, IsIntact}
use open_rv.SdImage.Header.{
  IsEntry, AllHold, AllHold-congr, encode_entries_lem, field-store_self, read-store_ne, size-store,
}
use open_rv.SdImage.Decode.{Consecutive, decode_entries-AllHold, check_overlap-sort_ranges}
use open_rv.SdImage.Layout.{
  total_sectors, IsInput, IsNonempty, make_entries-IsLayout, place_payloads_lem,
  image_size-Consecutive, LaidOut, byte-splice_ne,
}
use open_rv.SdImage.Written.{IsHeader, IsHeader-congr, write_header-IsHeader}

field_congr :
    (b c : Buffer) (off n : ℕ) → read b off n ≡ read c off n → field b off n ≡ field c off n
unfolding field
field_congr b c off n h = ap from_le h

placed_size :
    {total : ℕ} (entries : List Entry)
    → 0 < length entries
    → All (IsPlaced total) entries
    → 512 ≤ total
placed_size [] some placed = absurd (omega arith)
placed_size (e ∷ entries) some (first, placed) = omega (arith, first.inside, first.after_header)

module _ (crc : Bytes → ℕ) (bound : (bs : Bytes) → crc bs < 2 ^ 32) where
  encode_header_lem :
      (entries : List Entry) (total : ℕ)
      → length entries ≤ maximum_entries
      → total < 2 ^ 64
      → All IsEntry entries
      → (header : Buffer) × (encode_header crc entries total ≡ ok header)
        × (header.size ≡ 512)
        × IsHeader header (length entries) total
        × AllHold header 0 entries
        × (field header 508 4 ≡ crc (read header 0 508))
  unfolding encode_header
  encode_header_lem entries total few small fit =
      let start = write_header (length entries) total in
      let (fixed, size) = write_header-IsHeader (length entries) total (omega arith) small in
      let (b, encoded, holds, size', below) =
        encode_entries_lem start 0 entries size (omega arith) fit in
      let sum = crc (read b 0 508) in
      let header = store b 508 4 sum in
      let same = λ (off n : ℕ) (h : off + n ≤ 508). read-store_ne b 508 4 sum off n (inl h) in
      (
        header,
        ground (arith, encoded, bound (read b 0 508)),
        size-store b 508 4 sum (omega (arith, size')) ∙ size',
        IsHeader-congr b header (length entries) total (λ off n h. same off n (omega arith))
            (IsHeader-congr start b (length entries) total (λ off n h. below off n (omega arith))
              fixed),
        AllHold-congr b header 0 entries (omega arith) (λ off n lo hi. same off n (omega arith))
            holds,
        field-store_self b 508 4 sum (bound (read b 0 508))
            ∙ ap crc (sym (same 0 508 (omega arith))),
      )

  check_header_lem :
      (b : Buffer) (n total : ℕ)
      → b.size ≡ 512
      → IsHeader b n total
      → 0 < n
      → n ≤ maximum_entries
      → field b 508 4 ≡ crc (read b 0 508)
      → check_header crc b total ≡ ok n
  unfolding check_header
  check_header_lem b n total size fixed lo hi sum =
      let marked : bytes_eq (read b 0 8) magic ≡ true = rw fixed.mark (bytes_eq_refl magic) in
      ground (arith, marked)

  verify_entries_lem :
      (image : Buffer) (entries : List Entry)
      → All (IsIntact crc image) entries
      → verify_entries crc image entries ≡ ok tt
  unfolding verify_entries
  verify_entries_lem image [] h = refl
  verify_entries_lem image (e ∷ entries) (intact, h) =
      ground (arith, intact.checksum, intact.padding, verify_entries_lem image entries h)

  decode_header_lem :
      (b : Buffer) (total lba : ℕ) (entries : List Entry)
      → check_header crc b total ≡ ok (length entries)
      → AllHold b 0 entries
      → All IsEntry entries
      → All (IsPlaced total) entries
      → Consecutive lba entries
      → decode_header crc b total ≡ ok entries
  unfolding decode_header
  decode_header_lem b total lba entries checked holds fit placed consecutive =
      let (sorted, apart) = check_overlap-sort_ranges lba entries consecutive in
      rw (checked, decode_entries-AllHold b total 0 entries holds fit placed, sorted, apart)

  verify_bytes_lem :
      (image : Buffer) (total : ℕ) (entries : List Entry)
      → image.size ≡ total
      → total % sector_bytes ≡ 0
      → decode_header crc (prefix image 512) total ≡ ok entries
      → All (IsIntact crc image) entries
      → verify_bytes crc image ≡ ok entries
  unfolding verify_bytes
  verify_bytes_lem image total entries size whole decoded intact =
      let here : decode_header crc (prefix image 512) image.size ≡ ok entries =
        subst (λ n. decode_header crc (prefix image 512) n ≡ ok entries) (sym size) decoded in
      let even : image.size % sector_bytes ≡ 0 = ap (λ n. n % sector_bytes) size ∙ whole in
      rw (even, here, verify_entries_lem image entries intact)

  -- The payloads placed behind a good header.
  assemble :
      (entries : List Entry) (payloads : List Bytes) (header : Buffer) (total lba : ℕ)
      → (first_payload_lba + total_sectors payloads) * sector_bytes ≡ total
      → 0 < length entries
      → length entries ≤ maximum_entries
      → LaidOut crc first_payload_lba entries payloads
      → Consecutive lba entries
      → All IsEntry entries
      → All (IsPlaced total) entries
      → header.size ≡ 512
      → IsHeader header (length entries) total
      → AllHold header 0 entries
      → field header 508 4 ≡ crc (read header 0 508)
      → (image : Buffer) × (place_payloads
            (splice (zeros total) 0 (read header 0 header.size))
            entries
            payloads
          ≡ ok image)
        × (verify_bytes crc image ≡ ok entries)
  assemble entries payloads header total lba sized some few laid consecutive fit placed whole fixed
        holds sum =
      let base = splice (zeros total) 0 (read header 0 header.size) in
      let base_size : base.size ≡ total =
        unfold splice zeros in omega (arith, length-read header 0 header.size, whole) in
      let clean = λ (i : ℕ) (lo : first_payload_lba * sector_bytes ≤ i).
        byte-splice_ne (zeros total) 0 (read header 0 header.size) i
          (inr (omega (arith, length-read header 0 header.size, whole)))
        ∙ byte-zeros total i in
      let (image, done, size, below, intact) =
        place_payloads_lem crc base first_payload_lba entries payloads laid
          (omega (arith, base_size)) clean in
      let front = λ (off n : ℕ) (h : off + n ≤ 512).
        read-prefix image 512 off n
        ∙ read_congr image base off n (λ i lo hi. below i (omega arith))
        ∙ read-splice_copy (zeros total) header header.size off n (omega (arith, whole)) in
      let b = prefix image 512 in
      let b_size : b.size ≡ 512 =
        unfold prefix in omega (arith, size, base_size, placed_size entries some placed) in
      let checked : check_header crc b total ≡ ok (length entries) =
        check_header_lem b (length entries) total b_size
          (IsHeader-congr header b (length entries) total (λ off n h. front off n (omega arith))
            fixed)
          some few
          (field_congr b header 508 4 (front 508 4 (omega arith))
            ∙ sum
            ∙ ap crc (sym (front 0 508 (omega arith)))) in
      let decoded : decode_header crc b total ≡ ok entries =
        decode_header_lem b total lba entries checked
          (AllHold-congr header b 0 entries (omega arith) (λ off n lo hi. front off n (omega arith))
            holds)
          fit placed consecutive in
      (
        image,
        done,
        verify_bytes_lem image total entries (size ∙ base_size) (omega arith) decoded intact,
      )

  build_image_lem :
      (inputs : List InputImage) (payloads : List Bytes) (entries : List Entry)
      (header image : Buffer) (total : ℕ)
      → make_entries crc first_payload_lba inputs payloads ≡ ok entries
      → image_size 0 entries ≡ total
      → encode_header crc entries total ≡ ok header
      → place_payloads (splice (zeros total) 0 (read header 0 header.size)) entries payloads
        ≡ ok image
      → build_image crc inputs payloads ≡ ok image
  unfolding build_image
  build_image_lem inputs payloads entries header image total made sized encoded placed =
      rw (made, sized, encoded) placed

image_size_of_nonempty :
    (a b : ℕ) (entries : List Entry)
    → 0 < length entries
    → image_size a entries ≡ image_size b entries
unfolding image_size
image_size_of_nonempty a b [] h = absurd (omega arith)
image_size_of_nonempty a b (e ∷ entries) h = refl

-- For any checksum below 2 ^ 32 and 1 to 13 inputs with ASCII tags of 1 to 8 characters that do
-- not end in NUL, 64-bit load addresses and nonempty payloads that make an image below 4 GiB, the
-- builder succeeds, and the verifier accepts its image with exactly the entries that were laid
-- out.
pub verify_bytes-build_image :
    (crc : Bytes → ℕ) (inputs : List InputImage) (payloads : List Bytes)
    → ((bs : Bytes) → crc bs < 2 ^ 32)
    → 0 < length inputs
    → length inputs ≤ maximum_entries
    → length inputs ≡ length payloads
    → All IsInput inputs
    → All IsNonempty payloads
    → (first_payload_lba + total_sectors payloads) * sector_bytes < 2 ^ 32
    → (entries : List Entry) × (image : Buffer) × (make_entries crc first_payload_lba inputs
          payloads
        ≡ ok entries)
      × (build_image crc inputs payloads ≡ ok image)
      × (verify_bytes crc image ≡ ok entries)
verify_bytes-build_image crc inputs payloads bound some few same tags full small =
    let total = (first_payload_lba + total_sectors payloads) * sector_bytes in
    let (entries, layout) =
      make_entries-IsLayout crc bound first_payload_lba total inputs payloads same tags full
        (omega arith) (omega arith) small in
    let count = layout.count in
    let sized : image_size 0 entries ≡ total =
      image_size_of_nonempty 0 first_payload_lba entries (omega (arith, count))
      ∙ image_size-Consecutive crc first_payload_lba entries payloads layout.laid_out in
    let (header, encoded, whole, fixed, holds, sum) =
      encode_header_lem crc bound entries total (omega (arith, count)) (omega arith) layout.fit in
    let (image, placed, verified) =
      assemble crc bound entries payloads header total first_payload_lba refl (omega (arith, count))
        (omega (arith, count)) layout.laid_out layout.consecutive layout.fit layout.placed whole
        fixed holds sum in
    (
      entries,
      image,
      layout.made,
      build_image_lem crc bound inputs payloads entries header image total layout.made sized encoded
          placed,
      verified,
    )
