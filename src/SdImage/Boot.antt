-- ===== src/SdImage/Boot.antt =====
-- `build` succeeds on the inputs of a boot.
use open_rv.Prelude.{
  ℕ, ◌+◌, ◌*◌, ◌^◌, ◌<◌, ◌≡◌, refl, true, List, [], ◌∷◌, take, drop, length-append, >>=-eq-ok, ok,
  arith, length, All,
}
use open_rv.Buffer.{Bytes, Buffer, to_le, bytes_eq}
use open_rv.Buffer.Laws.{length-to_le}
use open_rv.SdImage.{
  sector_bytes, first_payload_lba, InputImage, Entry, make_entries, is_ascii, rstrip, sectors_for,
}
use open_rv.SdImage.Build.{
  pack_words, trampoline_words, linux_magic, linux_magic_offset, boot_inputs, build,
}
use open_rv.SdImage.Layout.{total_sectors, IsInput}
use open_rv.SdImage.RoundTrip.{verify_bytes-build_image}

length-pack_words : (words : List ℕ) → length (pack_words words) ≡ length words * 4
unfolding pack_words
length-pack_words [] = refl
length-pack_words (w ∷ words) = omega (
  arith,
  length-append {0} (to_le 4 w) (pack_words words),
  length-to_le 4 w,
  length-pack_words words,
)

-- The trampoline, the two files and the device tree as payloads.
abbrev pub boot_payloads : Bytes → Bytes → Bytes → List Bytes
boot_payloads dtb opensbi linux = pack_words trampoline_words ∷ opensbi ∷ linux ∷ dtb ∷ []

boot_inputs-IsInput : All IsInput boot_inputs
unfolding is_ascii rstrip
boot_inputs-IsInput = (
  ((omega arith, omega arith, refl, refl), omega arith),
  (
    ((omega arith, omega arith, refl, refl), omega arith),
    (
      ((omega arith, omega arith, refl, refl), omega arith),
      (((omega arith, omega arith, refl, refl), omega arith), tt),
    ),
  ),
)

length-make_entries :
    (crc : Bytes → ℕ) (lba : ℕ) (inputs : List InputImage) (payloads : List Bytes)
    {entries : List Entry}
    → make_entries crc lba inputs payloads ≡ ok entries
    → length entries ≡ length inputs
unfolding make_entries
length-make_entries crc lba [] [] h = ground arith
length-make_entries crc lba [] (p ∷ payloads) h = cc
length-make_entries crc lba (item ∷ inputs) [] h = cc
length-make_entries crc lba (item ∷ inputs) (p ∷ payloads) h =
    let (rest, made, done) =
      >>=-eq-ok (make_entries crc (lba + sectors_for (length p)) inputs payloads) _ h in
    let counted = length-make_entries crc (lba + sectors_for (length p)) inputs payloads made in
    ground (arith, counted)

-- For any checksum below 2 ^ 32, with a nonempty device tree and nonempty files, the Linux magic
-- at offset 0x38 and payloads that make an image below 4 GiB, `build` raises nothing: it writes
-- an image, and the entries that it reads back from it are those of the four inputs.
pub build_succeeds :
    (crc : Bytes → ℕ) (dtb opensbi linux : Bytes)
    → ((bs : Bytes) → crc bs < 2 ^ 32)
    → 0 < length dtb
    → 0 < length opensbi
    → 0 < length linux
    → bytes_eq (take 4 (drop linux_magic_offset linux)) linux_magic ≡ true
    → (first_payload_lba + total_sectors (boot_payloads dtb opensbi linux)) * sector_bytes < 2 ^ 32
    → (entries : List Entry) × (image : Buffer) × (build crc dtb opensbi linux
        ≡ ok (entries, image))
      × (make_entries crc first_payload_lba boot_inputs (boot_payloads dtb opensbi linux)
          ≡ ok entries)
      × (length entries ≡ 4)
unfolding build
build_succeeds crc dtb opensbi linux bound some_dtb some_opensbi some_linux marked small =
    let payloads = boot_payloads dtb opensbi linux in
    let (entries, image, made, built, verified) =
      verify_bytes-build_image crc boot_inputs payloads bound (omega arith) (omega arith) refl
        boot_inputs-IsInput
        (
          omega (arith, length-pack_words trampoline_words),
          (some_opensbi, (some_linux, (some_dtb, tt))),
        )
        small in
    (
      entries,
      image,
      ground (arith, built, verified),
      made,
      length-make_entries crc first_payload_lba boot_inputs payloads made,
    )
