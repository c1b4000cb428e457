-- ===== src/Sv39/FourHart.antt =====
-- `build` of tools/make_4h_sv39_image.py: one Sv39 root under each of four physical prefixes.
pub mod Translation
use open_rv.Prelude.{ℕ, zero, suc, ◌+◌, ◌*◌, ◌-◌, ◌/◌, Result, ok, err, ltb, if◌then◌else◌}
use open_rv.Buffer.{Buffer, zeros, splice, clear, read}
use open_rv.Sv39.{physical_base, mapped_bytes, pte, put_u64, map_pages}

abbrev pub harts : ℕ
harts = 4

abbrev pub prefix_stride : ℕ
prefix_stride = 0x10_0000

abbrev pub root_offset : ℕ
root_offset = 0x2_0000

abbrev pub level1_offset : ℕ
level1_offset = 0x2_1000

abbrev pub level0_offset : ℕ
level0_offset = 0x2_2000

abbrev pub image_bytes : ℕ
image_bytes = (harts - 1) * prefix_stride + level0_offset + 0x1000

-- The `ValueError` for a template that does not fit, with its size.
pub data ImageError : Type 0 where
  template_too_large : ℕ → ImageError

-- One round of the loop over the harts.
pub install_hart : Buffer → ℕ → Buffer → Buffer
install_hart template hart image =
    let prefix = hart * prefix_stride in
    let physical_prefix = physical_base + prefix in
    let placed = splice image prefix (read template 0 template.size) in
    let root = prefix + root_offset in
    let level1 = prefix + level1_offset in
    let level0 = prefix + level0_offset in
    let cleared = clear (clear (clear placed root 0x1000) level1 0x1000) level0 0x1000 in
    let rooted = put_u64 cleared (root + 1 * 8) (pte (physical_prefix + level1_offset) 0x1) in
    let linked = put_u64 rooted level1 (pte (physical_prefix + level0_offset) 0x1) in
    map_pages level0 physical_prefix (mapped_bytes / 0x1000) 0 linked

-- `left` rounds, from `hart` on.
pub install_harts : Buffer → ℕ → ℕ → Buffer → Buffer
install_harts template zero hart image = image
install_harts template (suc left) hart image =
    install_harts template left (hart + 1) (install_hart template hart image)

pub build : Buffer → Result ImageError Buffer
build template =
    if ltb (level0_offset + 0x1000) template.size
    then err (template_too_large template.size)
    else ok (install_harts template harts 0 (zeros image_bytes))
