-- ===== src/Sv39/Shared/Contents.antt =====
-- What the shared image holds below its tables.
use open_rv.Prelude.{
  ℕ, ◌+◌, ◌-◌, ◌*◌, ◌%◌, ◌≤◌, ◌<◌, ◌≡◌, refl, ◌∙◌, ◌⊎◌, inl, true, false, ok, arith, ltb,
  if◌then◌else◌,
}
use open_rv.Buffer.{Buffer, zeros, splice, clear, read}
use open_rv.Buffer.Laws.{get_or-read, length-read}
use open_rv.Sv39.{physical_base, pte, put_u64, load_u64}
use open_rv.Sv39.Tables.{
  load_u64-put_u64, byte-put_u64, byte-map_pages, size-put_u64, size-map_pages,
}
use open_rv.Sv39.Shared.{
  root_offset, level1_offset, level0_offset, image_bytes, pte_flags_rwad, tlbi_target_page,
  tlbi_new_page, tlbi_old_value, tlbi_new_value, tlbi_pte_alias_page, install_tables, install_tlbi,
  build,
}

-- The bytes below the tables are the template's, and zero behind it.
byte-install_tables :
    (t : Buffer) (i : ℕ)
    → t.size ≤ image_bytes
    → i < root_offset
    → (install_tables t).byte i ≡ (if ltb i t.size then t.byte i else 0)
unfolding install_tables clear splice zeros
byte-install_tables t i fits h =
    byte-map_pages level0_offset physical_base 32 0 _ i (omega arith)
    ∙ byte-put_u64 _ level1_offset _ i (inl (omega arith))
    ∙ byte-put_u64 _ (root_offset + 8) _ i (inl (omega arith))
    ∙ ground (arith, get_or-read t 0 t.size i, length-read t 0 t.size)

size-install_tables : (t : Buffer) → t.size ≤ image_bytes → (install_tables t).size ≡ image_bytes
unfolding install_tables
size-install_tables t fits =
    let image = splice (zeros image_bytes) 0 (read t 0 t.size) in
    let cleared = clear image root_offset (image_bytes - root_offset) in
    let whole : cleared.size ≡ image_bytes =
      unfold clear splice zeros in omega (arith, length-read t 0 t.size) in
    let rooted =
      size-put_u64 cleared (root_offset + 8) (pte (physical_base + level1_offset) 1)
        (omega (arith, whole)) in
    let linked =
      size-put_u64 (put_u64 cleared (root_offset + 8) (pte (physical_base + level1_offset) 1))
        level1_offset (pte (physical_base + level0_offset) 1) (omega (arith, rooted, whole)) in
    size-map_pages level0_offset physical_base 32 0 _ (omega (arith, linked, rooted, whole))
    ∙ linked
    ∙ rooted
    ∙ whole

-- The words that the directed test finds in its old and its new page.
load_u64-install_tlbi_pages :
    (b : Buffer)
    → (load_u64 (install_tlbi b) (tlbi_target_page * 0x1000) ≡ tlbi_old_value)
      × (load_u64 (install_tlbi b) (tlbi_new_page * 0x1000) ≡ tlbi_new_value)
unfolding install_tlbi
load_u64-install_tlbi_pages b =
    let aliased =
      put_u64 b (level0_offset + tlbi_pte_alias_page * 8)
        (pte (physical_base + level0_offset) pte_flags_rwad) in
    let old = put_u64 aliased (tlbi_target_page * 0x1000) tlbi_old_value in
    let at = λ (k : ℕ) (hk : k % 8 ≡ 0).
      load_u64-put_u64 old (tlbi_new_page * 0x1000) tlbi_new_value k (omega arith) refl hk in
    let before =
      load_u64-put_u64 aliased (tlbi_target_page * 0x1000) tlbi_old_value
        (tlbi_target_page * 0x1000) (omega arith) refl refl in
    (at (tlbi_target_page * 0x1000) refl ∙ before, at (tlbi_new_page * 0x1000) refl)

size-install_tlbi : (b : Buffer) → b.size ≡ image_bytes → (install_tlbi b).size ≡ image_bytes
unfolding install_tlbi
size-install_tlbi b e =
    let aliased =
      put_u64 b (level0_offset + tlbi_pte_alias_page * 8)
        (pte (physical_base + level0_offset) pte_flags_rwad) in
    let s₁ =
      size-put_u64 b (level0_offset + tlbi_pte_alias_page * 8)
        (pte (physical_base + level0_offset) pte_flags_rwad) (omega arith) in
    let s₂ = size-put_u64 aliased (tlbi_target_page * 0x1000) tlbi_old_value (omega (arith, s₁)) in
    size-put_u64 _ (tlbi_new_page * 0x1000) tlbi_new_value (omega (arith, s₁, s₂)) ∙ s₂ ∙ s₁ ∙ e

byte-install_tlbi :
    (b : Buffer) (i : ℕ)
    → i < root_offset
    → (i < tlbi_target_page * 0x1000) ⊎ (tlbi_target_page * 0x1000 + 8 ≤ i)
    → (i < tlbi_new_page * 0x1000) ⊎ (tlbi_new_page * 0x1000 + 8 ≤ i)
    → (install_tlbi b).byte i ≡ b.byte i
unfolding install_tlbi
byte-install_tlbi b i h target new =
    byte-put_u64 _ (tlbi_new_page * 0x1000) _ i new
    ∙ byte-put_u64 _ (tlbi_target_page * 0x1000) _ i target
    ∙ byte-put_u64 b _ _ i (inl (omega arith))

-- Without the directed test a template of at most `image_bytes` bytes becomes an image of
-- `image_bytes` bytes, of which each byte below the tables is the template's, or zero behind its
-- end.
pub build_contents :
    (t : Buffer) (i : ℕ)
    → t.size ≤ image_bytes
    → i < root_offset
    → (image : Buffer) × (build t false ≡ ok image)
      × (image.size ≡ image_bytes)
      × (image.byte i ≡ (if ltb i t.size then t.byte i else 0))
unfolding build
build_contents t i fits h =
    (install_tables t, ground arith, size-install_tables t fits, byte-install_tables t i fits h)

-- With the directed test a template of at most `image_bytes` bytes becomes an image of
-- `image_bytes` bytes; each byte below the tables but the first eight of page 24 and of page 28
-- is the template's, or zero behind its end, and those eight hold the old and the new value.
pub build_tlbi_contents :
    (t : Buffer) (i : ℕ)
    → t.size ≤ image_bytes
    → i < root_offset
    → (i < 0x18000) ⊎ (0x18008 ≤ i)
    → (i < 0x1C000) ⊎ (0x1C008 ≤ i)
    → (image : Buffer) × (build t true ≡ ok image)
      × (image.size ≡ image_bytes)
      × (image.byte i ≡ (if ltb i t.size then t.byte i else 0))
      × (load_u64 image 0x18000 ≡ tlbi_old_value)
      × (load_u64 image 0x1C000 ≡ tlbi_new_value)
unfolding build
build_tlbi_contents t i fits h target new =
    let (old, fresh) = load_u64-install_tlbi_pages (install_tables t) in
    (
      install_tlbi (install_tables t),
      ground arith,
      size-install_tlbi _ (size-install_tables t fits),
      byte-install_tlbi _ i h target new ∙ byte-install_tables t i fits h,
      old,
      fresh,
    )
