-- ===== src/Tests/Images.antt =====
-- The image builders on small inputs.
use open_rv.Prelude.{
  some, get_elem?, ◌/◌, ℕ, ◌+◌, ◌*◌, ◌%◌, ◌^◌, ◌≤◌, ◌<◌, ◌≡◌, refl, inl, true, false, List, [], ◌∷◌,
  ◌++◌, arith, ok, ltb, if◌then◌else◌, length, replicate, take, drop, All, codes,
}
use open_rv.Text.{Text, uint, int_of}
use open_rv.MemWords.{convert}
use open_rv.MemWords.Contents.{convert_holds}
use open_rv.Buffer.{Bytes, Buffer, of_list, bytes_eq, read, prefix, to_le}
use open_rv.Sv39.{physical_base, pte_flags_rwxad, load_physical, load_u64, walk}
use open_rv.Sv39.Window.{window}
use open_rv.Sv39.Shared
use open_rv.Sv39.FourHart
use open_rv.Sv39.Shared.Translation.{build_translates, target_page, target_flags}
use open_rv.Sv39.Shared.Contents.{build_contents, build_tlbi_contents}
use open_rv.Sv39.FourHart.Translation.{build_translates_per_hart}
use open_rv.SdImage.{
  InputImage, Entry, sector_bytes, first_payload_lba, maximum_entries, header_bytes, is_ascii,
  rstrip, sectors_for, field, make_entries,
}
use open_rv.SdImage.Verify.{verify_bytes}
use open_rv.SdImage.Build.{
  build_image, pack_words, linux_magic, linux_magic_offset, boot_inputs, build,
}
use open_rv.SdImage.Layout.{total_sectors, IsInput}
use open_rv.SdImage.Sound.{IsPlaced, IsIntact, verify_bytes_sound}
use open_rv.SdImage.Apart.{AllDisjoint}
use open_rv.SdImage.RoundTrip.{verify_bytes-build_image}
use open_rv.SdImage.Boot.{boot_payloads, build_succeeds}

-- Eight bytes of code.
abbrev template : Buffer
template = of_list (0x13 ∷ 0 ∷ 0 ∷ 0 ∷ 0x73 ∷ 0 ∷ 0x50 ∷ 0x10 ∷ [])

template_fits : template.size ≤ 0x2_3000
unfolding of_list
template_fits = omega arith

build_translates_example :
    (image : Buffer) × (Shared.build template true ≡ ok image)
    × (walk (load_physical image) 3 (physical_base + Shared.root_offset) 0x4001_F008
        ≡ window (λ i. physical_base + target_page true i) (target_flags true) 0x4001_F008)
build_translates_example = build_translates template true 0x4001_F008 template_fits (omega arith)

build_translates_per_hart_example :
    (image : Buffer) × (FourHart.build template ≡ ok image)
    × (walk
          (load_physical image)
          3
          (physical_base + 2 * FourHart.prefix_stride + FourHart.root_offset)
          0x4000_3010
        ≡ window
            (λ i. physical_base + 2 * FourHart.prefix_stride + i * 0x1000)
            (λ i. pte_flags_rwxad)
            0x4000_3010)
build_translates_per_hart_example =
    build_translates_per_hart template 2 0x4000_3010 template_fits (omega arith) (omega arith)

build_contents_example :
    (image : Buffer) × (Shared.build template false ≡ ok image)
    × (image.size ≡ Shared.image_bytes)
    × (image.byte 4 ≡ (if ltb 4 template.size then template.byte 4 else 0))
build_contents_example = build_contents template 4 template_fits (omega arith)

build_tlbi_contents_example :
    (image : Buffer) × (Shared.build template true ≡ ok image)
    × (image.size ≡ Shared.image_bytes)
    × (image.byte 4 ≡ (if ltb 4 template.size then template.byte 4 else 0))
    × (load_u64 image 0x18000 ≡ Shared.tlbi_old_value)
    × (load_u64 image 0x1C000 ≡ Shared.tlbi_new_value)
build_tlbi_contents_example =
    build_tlbi_contents template 4 template_fits (omega arith) (inl (omega arith))
      (inl (omega arith))

-- A checksum for the tests.
abbrev sum32 : Bytes → ℕ
sum32 [] = 0
sum32 (b ∷ bs) = (b + sum32 bs) % 2 ^ 32

sum32_bound : (bs : Bytes) → sum32 bs < 2 ^ 32
sum32_bound [] = omega arith
sum32_bound (b ∷ bs) = omega arith

abbrev card_inputs : List InputImage
card_inputs =
    record { tag = codes "TRAMP"; load_address = 0x8000_0000 }
    ∷ record { tag = codes "FDT"; load_address = 0x8FF0_0000 }
    ∷ []

abbrev card_payloads : List Bytes
card_payloads = (0x13 ∷ 0 ∷ 0 ∷ 0 ∷ []) ∷ (0xD0 ∷ 0x0D ∷ 0xFE ∷ 0xED ∷ []) ∷ []

card_inputs-IsInput : All IsInput card_inputs
unfolding is_ascii rstrip
card_inputs-IsInput = (
  ((omega arith, omega arith, refl, refl), omega arith),
  (((omega arith, omega arith, refl, refl), omega arith), tt),
)

card_fits : (first_payload_lba + total_sectors card_payloads) * sector_bytes < 2 ^ 32
unfolding sectors_for
card_fits = omega arith

verify_bytes-build_image_example :
    (entries : List Entry) × (image : Buffer) × (make_entries sum32 first_payload_lba card_inputs
        card_payloads
      ≡ ok entries)
    × (build_image sum32 card_inputs card_payloads ≡ ok image)
    × (verify_bytes sum32 image ≡ ok entries)
verify_bytes-build_image_example =
    verify_bytes-build_image sum32 card_inputs card_payloads sum32_bound (omega arith) (omega arith)
      refl card_inputs-IsInput (omega arith, (omega arith, tt)) card_fits

-- The card that the builder makes of them, which the verifier accepts.
card :
    (entries : List Entry) × (image : Buffer) × (make_entries sum32 first_payload_lba card_inputs
        card_payloads
      ≡ ok entries)
    × (build_image sum32 card_inputs card_payloads ≡ ok image)
    × (verify_bytes sum32 image ≡ ok entries)
card =
    verify_bytes-build_image sum32 card_inputs card_payloads sum32_bound (omega arith) (omega arith)
      refl card_inputs-IsInput (omega arith, (omega arith, tt)) card_fits

verify_bytes_sound_example :
    (card.1.size % sector_bytes ≡ 0)
    × (0 < length card.0)
    × (length card.0 ≤ maximum_entries)
    × All (IsPlaced card.1.size) card.0
    × AllDisjoint card.0
    × (sum32 (read (prefix card.1 header_bytes) 0 508) ≡ field (prefix card.1 header_bytes) 508 4)
    × All (IsIntact sum32 card.1) card.0
verify_bytes_sound_example = verify_bytes_sound sum32 card.1 card.0 card.4

abbrev linux : Bytes
linux = replicate 56 0 ++ linux_magic

linux_marked : bytes_eq (take 4 (drop linux_magic_offset linux)) linux_magic ≡ true
unfolding bytes_eq
linux_marked = refl

boot_fits :
    (first_payload_lba + total_sectors (boot_payloads (0xD0 ∷ []) (0x13 ∷ []) linux)) * sector_bytes
    < 2 ^ 32
unfolding sectors_for pack_words to_le
boot_fits = omega arith

build_succeeds_example :
    (entries : List Entry) × (image : Buffer) × (build sum32 (0xD0 ∷ []) (0x13 ∷ []) linux
      ≡ ok (entries, image))
    × (make_entries sum32 first_payload_lba boot_inputs
          (boot_payloads (0xD0 ∷ []) (0x13 ∷ []) linux)
        ≡ ok entries)
    × (length entries ≡ 4)
build_succeeds_example =
    build_succeeds sum32 (0xD0 ∷ []) (0x13 ∷ []) linux sum32_bound (omega arith) (omega arith)
      (omega arith) linux_marked boot_fits

-- Three bytes in a memory of two words.
convert_holds_example :
    (lines : List Text) × (line : Text) × (word : ℕ) × (convert (1 ∷ 2 ∷ 3 ∷ []) 16 8
      ≡ ok (3, lines))
    × (length lines ≡ 16 / 8)
    × (get_elem? lines (2 / 8) ≡ some line)
    × (int_of 16 line ≡ uint word)
    × (word / 256 ^ (2 % 8) % 256 ≡ 3)
convert_holds_example =
    convert_holds (1 ∷ 2 ∷ 3 ∷ []) 16 8 2 (omega arith) refl (omega arith) refl (omega arith)
      (omega arith, (omega arith, (omega arith, tt))) (omega arith)
