-- ===== src/SdImage/Build.antt =====
-- `build` of tools/make-fpga-sd-image.py, from the inputs that it has read on.
use open_rv.Prelude.{
  ℕ, ◌+◌, ◌*◌, not, List, [], ◌∷◌, ◌++◌, Result, ok, err, ◌>>=◌, ◌>>◌, refuse_if, ◌==◌, length,
  take, drop, codes,
}
use open_rv.Buffer.{Bytes, Buffer, zeros, read, splice, to_le, bytes_eq}
use open_rv.SdImage.{
  sector_bytes, first_payload_lba, InputImage, Entry, SdError, make_entries, encode_header,
  unequal_lengths, empty_opensbi, empty_linux, no_linux_magic,
}
use open_rv.SdImage.Verify.{verify_bytes}

-- The loop of `build` that places the payloads; `zip` is strict.
unfoldable pub place_payloads : Buffer → List Entry → List Bytes → Result SdError Buffer
place_payloads image [] [] = ok image
place_payloads image (e ∷ entries) (payload ∷ payloads) =
    place_payloads (splice image (e.lba * sector_bytes) payload) entries payloads
place_payloads image [] (payload ∷ payloads) = err unequal_lengths
place_payloads image (e ∷ entries) [] = err unequal_lengths

-- `(entries[-1].lba + entries[-1].sector_count) * SECTOR_BYTES`
unfoldable pub image_size : ℕ → List Entry → ℕ
image_size end [] = end * sector_bytes
image_size end (e ∷ entries) = image_size (e.lba + e.sector_count) entries

module _ (crc : Bytes → ℕ) where
  -- The image that `build` writes, from the inputs that it has read.
  unfoldable pub build_image : List InputImage → List Bytes → Result SdError Buffer
  build_image inputs payloads = do
    entries ← make_entries crc first_payload_lba inputs payloads
    let image_bytes = image_size 0 entries
    header ← encode_header crc entries image_bytes
    place_payloads (splice (zeros image_bytes) 0 (read header 0 header.size)) entries payloads

-- `struct.pack("<8I", *TRAMPOLINE_WORDS)`
unfoldable pub pack_words : List ℕ → Bytes
pack_words [] = []
pack_words (w ∷ words) = to_le 4 w ++ pack_words words

abbrev pub trampoline_words : List ℕ
trampoline_words =
    0x000015B7 ∷ 0x8FF5859B ∷ 0x01459593 ∷ 0x00000613 ∷ 0x000012B7 ∷ 0x8012829B ∷ 0x01429293
    ∷ 0x00028067 ∷ []

abbrev pub linux_magic_offset : ℕ
linux_magic_offset = 0x38

-- b"RSC\x05"
abbrev pub linux_magic : Bytes
linux_magic = b'R' ∷ b'S' ∷ b'C' ∷ 5 ∷ []

-- The tags and the load addresses of the four inputs.
abbrev pub boot_inputs : List InputImage
boot_inputs =
    record { tag = codes "TRAMP"; load_address = 0x80000000 }
    ∷ record { tag = codes "OPENSBI"; load_address = 0x80100000 }
    ∷ record { tag = codes "LINUX"; load_address = 0x80200000 }
    ∷ record { tag = codes "FDT"; load_address = 0x8FF00000 }
    ∷ []

module _ (crc : Bytes → ℕ) where
  -- `build`, from the compiled device tree and the two files on: the verified entries and the
  -- image.
  unfoldable pub build : Bytes → Bytes → Bytes → Result SdError (List Entry × Buffer)
  build dtb opensbi linux = do
    refuse_if (length opensbi == 0) empty_opensbi
    refuse_if (length linux == 0) empty_linux
    refuse_if (not (bytes_eq (take 4 (drop linux_magic_offset linux)) linux_magic)) no_linux_magic
    image ← build_image crc boot_inputs (pack_words trampoline_words ∷ opensbi ∷ linux ∷ dtb ∷ [])
    verified ← verify_bytes crc image
    ok (verified, image)
