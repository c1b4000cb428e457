-- ===== src/Sv39/Shared.antt =====
-- `build` of tools/make_shared_sv39_image.py: one Sv39 root for the four harts.
pub mod Translation
pub mod Contents
use open_rv.Prelude.{ℕ, ◌+◌, ◌*◌, ◌-◌, ◌/◌, Bool, true, false, Result, ok, err, ltb, if◌then◌else◌}
use open_rv.Buffer.{Buffer, zeros, splice, clear, read}
use open_rv.Sv39.{physical_base, mapped_bytes, pte, put_u64, map_pages}

abbrev pub root_offset : ℕ
root_offset = 0x2_0000

abbrev pub level1_offset : ℕ
level1_offset = 0x2_1000

abbrev pub level0_offset : ℕ
level0_offset = 0x2_2000

abbrev pub image_bytes : ℕ
image_bytes = level0_offset + 0x1000

abbrev pub pte_flags_rwad : ℕ
pte_flags_rwad = 0xC7

abbrev pub tlbi_target_page : ℕ
tlbi_target_page = 24

abbrev pub tlbi_new_page : ℕ
tlbi_new_page = 28

abbrev pub tlbi_pte_alias_page : ℕ
tlbi_pte_alias_page = 31

abbrev pub tlbi_old_value : ℕ
tlbi_old_value = 0x1111_2222_3333_4444

abbrev pub tlbi_new_value : ℕ
tlbi_new_value = 0xAAAA_BBBB_CCCC_DDDD

-- The `ValueError` for a template that does not fit, with its size.
pub data ImageError : Type 0 where
  template_too_large : ℕ → ImageError

-- The image with the three tables installed.
pub install_tables : Buffer → Buffer
install_tables template =
    let image = splice (zeros image_bytes) 0 (read template 0 template.size) in
    let cleared = clear image root_offset (image_bytes - root_offset) in
    let rooted = put_u64 cleared (root_offset + 1 * 8) (pte (physical_base + level1_offset) 0x1) in
    let linked = put_u64 rooted level1_offset (pte (physical_base + level0_offset) 0x1) in
    map_pages level0_offset physical_base (mapped_bytes / 0x1000) 0 linked

-- The writable alias of the level-0 table, and the old and the new data page.
pub install_tlbi : Buffer → Buffer
install_tlbi image =
    let aliased =
      put_u64 image (level0_offset + tlbi_pte_alias_page * 8)
        (pte (physical_base + level0_offset) pte_flags_rwad) in
    let old = put_u64 aliased (tlbi_target_page * 0x1000) tlbi_old_value in
    put_u64 old (tlbi_new_page * 0x1000) tlbi_new_value

pub build : Buffer → Bool → Result ImageError Buffer
build template tlbi_test =
    if ltb image_bytes template.size
    then err (template_too_large template.size)
    else let image = install_tables template in ok (if tlbi_test then install_tlbi image else image)
