-- ===== src/Sv39.antt =====
-- What the two page-table tools share (tools/make_shared_sv39_image.py and
-- tools/make_4h_sv39_image.py): `pte`, `put_u64` and the loop that maps the pages of the window.
-- `walk` is no code of the tools: it is the address translation of the Sv39 architecture, by which
-- the images are judged.
pub mod Tables
pub mod Walk
pub mod Window
pub mod Shared
pub mod FourHart
use open_rv.Prelude.{
  ℕ, zero, suc, ◌+◌, ◌-◌, ◌*◌, ◌/◌, ◌%◌, ◌^◌, Bool, Option, none, some, ==_iff, ◌==◌, ◌&&◌,
  if◌then◌else◌,
}
use open_rv.Buffer.{Buffer, read, splice, to_le, from_le}

abbrev pub physical_base : ℕ
physical_base = 0x8000_0000

abbrev pub virtual_base : ℕ
virtual_base = 0x4000_0000

abbrev pub mapped_bytes : ℕ
mapped_bytes = 0x2_0000

abbrev pub pte_flags_rwxad : ℕ
pte_flags_rwxad = 0xCF

-- `((pointer_or_page >> 12) << 10) | flags`; the flags fit the ten bits that the shift clears.
unfoldable pub pte : ℕ → ℕ → ℕ
pte pointer_or_page flags = pointer_or_page / 2 ^ 12 * 2 ^ 10 + flags

-- The tools only store values below 2 ^ 64, where `to_bytes` does not raise.
unfoldable pub put_u64 : Buffer → ℕ → ℕ → Buffer
put_u64 image offset value = splice image offset (to_le 8 value)

-- `left` rounds of the page loop, from `page` on.
pub map_pages : ℕ → ℕ → ℕ → ℕ → Buffer → Buffer
map_pages level0 physical zero page image = image
map_pages level0 physical (suc left) page image =
    map_pages level0 physical left (page + 1)
      (put_u64 image (level0 + page * 8) (pte (physical + page * 0x1000) pte_flags_rwxad))

-- The 64-bit word that the memory holds at an offset of the image.
unfoldable pub load_u64 : Buffer → ℕ → ℕ
load_u64 image offset = from_le (read image offset 8)

-- A hart's load of a page-table entry: the image lies at `physical_base`.
unfoldable pub load_physical : Buffer → ℕ → ℕ
load_physical image address = load_u64 image (address - physical_base)

-- Translation with `levels` levels of tables left: the physical address and the flags of the leaf,
-- or `none` for a page fault.
unfoldable pub walk : (ℕ → ℕ) → ℕ → ℕ → ℕ → Option (ℕ × ℕ)
walk load zero table va = none
walk load (suc level) table va =
    let entry = load (table + va / 2 ^ (12 + 9 * level) % 512 * 8) in
    let ppn = entry / 2 ^ 10 % 2 ^ 44 in
    let below = walk load level (ppn * 2 ^ 12) va in
    if entry % 2 == 0
    then none
    else if entry / 2 % 4 == 2
    then none
    else if entry / 2 % 8 == 0
    then below
    else if ppn % 2 ^ (9 * level) == 0
    then some (ppn * 2 ^ 12 + va % 2 ^ (12 + 9 * level), entry % 2 ^ 8)
    else none
