-- ===== src/Sv39/Shared/Translation.antt =====
-- The shared image translates the window, and nothing else, for a hart that walks its tables.
use open_rv.Prelude.{
  ℕ, ◌+◌, ◌-◌, ◌*◌, ◌/◌, ◌%◌, ◌^◌, ◌≤◌, ◌<◌, ◌≡◌, refl, ◌∙◌, Bool, ap, ok, arith, leb, ltb, ◌==◌,
  ◌&&◌, if◌then◌else◌,
}
use open_rv.Buffer.{Buffer, zeros, splice, clear, read}
use open_rv.Sv39.{physical_base, pte_flags_rwxad, pte, put_u64, load_u64, load_physical, walk}
use open_rv.Sv39.Tables.{load_u64-put_u64, load_u64-clear, load_u64-map_pages, pte-lt}
use open_rv.Sv39.Window.{IsWindow, window, walk-window}
use open_rv.Sv39.Shared.{
  root_offset, level1_offset, level0_offset, image_bytes, pte_flags_rwad, tlbi_target_page,
  tlbi_new_page, tlbi_old_value, tlbi_new_value, tlbi_pte_alias_page, install_tables, install_tlbi,
  build,
}

-- The words of the table area.
load_u64-install_tables :
    (t : Buffer) (k : ℕ)
    → k % 8 ≡ 0
    → root_offset ≤ k
    → k < image_bytes
    → load_u64 (install_tables t) k ≡ (
        if leb level0_offset k && ltb k (level0_offset + 32 * 8)
        then pte (physical_base + (k - level0_offset) / 8 * 0x1000) pte_flags_rwxad
        else if level1_offset == k
        then pte (physical_base + level0_offset) 1
        else if root_offset + 8 == k
        then pte (physical_base + level1_offset) 1
        else 0)
unfolding install_tables
load_u64-install_tables t k hk lo hi =
    let image = splice (zeros image_bytes) 0 (read t 0 t.size) in
    let cleared = clear image root_offset (image_bytes - root_offset) in
    let root_entry = pte (physical_base + level1_offset) 1 in
    let level1_entry = pte (physical_base + level0_offset) 1 in
    let rooted = put_u64 cleared (root_offset + 1 * 8) root_entry in
    let linked = put_u64 rooted level1_offset level1_entry in
    ground (
      arith,
      load_u64-map_pages level0_offset physical_base 32 0 linked k refl hk (omega arith),
      load_u64-put_u64 rooted level1_offset level1_entry k (pte-lt _ _ (omega arith) (omega arith))
          refl hk,
      load_u64-put_u64 cleared (root_offset + 8) root_entry k
          (pte-lt _ _ (omega arith) (omega arith)) refl hk,
      load_u64-clear image root_offset (image_bytes - root_offset) k refl refl hk,
    )

-- The entry that the flag of the directed test changes.
load_u64-install_tlbi :
    (b : Buffer) (k : ℕ)
    → k % 8 ≡ 0
    → root_offset ≤ k
    → load_u64 (install_tlbi b) k ≡ (
        if level0_offset + 31 * 8 == k
        then pte (physical_base + level0_offset) pte_flags_rwad
        else load_u64 b k)
unfolding install_tlbi
load_u64-install_tlbi b k hk lo =
    let aliased =
      put_u64 b (level0_offset + tlbi_pte_alias_page * 8)
        (pte (physical_base + level0_offset) pte_flags_rwad) in
    let old = put_u64 aliased (tlbi_target_page * 0x1000) tlbi_old_value in
    ground (
      arith,
      load_u64-put_u64 old (tlbi_new_page * 0x1000) tlbi_new_value k (omega arith) refl hk,
      load_u64-put_u64 aliased (tlbi_target_page * 0x1000) tlbi_old_value k (omega arith) refl hk,
      load_u64-put_u64 b (level0_offset + 31 * 8)
          (pte (physical_base + level0_offset) pte_flags_rwad) k
          (pte-lt _ _ (omega arith) (omega arith)) refl hk,
    )

-- The physical page of a page of the window, and its flags.
abbrev pub target_page : Bool → ℕ → ℕ
target_page tlbi_test page =
    if tlbi_test && page == tlbi_pte_alias_page then level0_offset else page * 0x1000

abbrev pub target_flags : Bool → ℕ → ℕ
target_flags tlbi_test page =
    if tlbi_test && page == tlbi_pte_alias_page then pte_flags_rwad else pte_flags_rwxad

module _ (t : Buffer) (tlbi_test : Bool) where
  abbrev image : Buffer
  image = if tlbi_test then install_tlbi (install_tables t) else install_tables t

  root_entry :
      (i : ℕ)
      → i < 512
      → load_u64 image (root_offset + i * 8)
        ≡ (if i == 1 then pte (physical_base + level1_offset) 1 else 0)
  root_entry i h =
      let k = root_offset + i * 8 in
      ground (
        arith,
        load_u64-install_tables t k (omega arith) (omega arith) (omega arith),
        load_u64-install_tlbi (install_tables t) k (omega arith) (omega arith),
      )

  level1_entry :
      (i : ℕ)
      → i < 512
      → load_u64 image (level1_offset + i * 8)
        ≡ (if i == 0 then pte (physical_base + level0_offset) 1 else 0)
  level1_entry i h =
      let k = level1_offset + i * 8 in
      ground (
        arith,
        load_u64-install_tables t k (omega arith) (omega arith) (omega arith),
        load_u64-install_tlbi (install_tables t) k (omega arith) (omega arith),
      )

  level0_entry :
      (i : ℕ)
      → i < 512
      → load_u64 image (level0_offset + i * 8) ≡ (
          if ltb i 32
          then pte (physical_base + target_page tlbi_test i) (target_flags tlbi_test i)
          else 0)
  level0_entry i h =
      let k = level0_offset + i * 8 in
      let e : (k - level0_offset) / 8 ≡ i = omega arith in
      let page = ap (λ p. pte (physical_base + p * 0x1000) pte_flags_rwxad) e in
      ground (
        arith,
        page,
        load_u64-install_tables t k (omega arith) (omega arith) (omega arith),
        load_u64-install_tlbi (install_tables t) k (omega arith) (omega arith),
      )

  -- The same entries, at their physical addresses.
  physical : (offset : ℕ) → load_physical image (physical_base + offset) ≡ load_u64 image offset
  unfolding load_physical
  physical offset = ap (load_u64 image) (omega arith)

  at :
      (offset i : ℕ)
      → load_physical image (physical_base + offset + i * 8) ≡ load_u64 image (offset + i * 8)
  at offset i = ap (load_physical image) (omega arith) ∙ physical (offset + i * 8)

  image-IsWindow :
      IsWindow
        (load_physical image)
        (physical_base + root_offset)
        (physical_base + level1_offset)
        (physical_base + level0_offset)
        (λ i. physical_base + target_page tlbi_test i)
        (target_flags tlbi_test)
  image-IsWindow = record {
    level1_aligned = refl;
    level1_bound = omega arith;
    level0_aligned = refl;
    level0_bound = omega arith;
    page_aligned = λ i. ground arith;
    page_bound = λ i h. ground arith;
    flags_bound = λ i. ground arith;
    flags_leaf = λ i. ground arith;
    root_entry = λ i h. at root_offset i ∙ root_entry i h;
    level1_entry = λ i h. at level1_offset i ∙ level1_entry i h;
    level0_entry = λ i h. at level0_offset i ∙ level0_entry i h;
  }

-- A template of at most `image_bytes` bytes is built, and the three-level walk of the image from
-- its root sends every address of the window to the page of the same number (page 31 to the
-- level-0 table, writable and not executable, if the directed test is asked for), and faults at
-- every other address below 2 ^ 39.
pub build_translates :
    (t : Buffer) (tlbi_test : Bool) (va : ℕ)
    → t.size ≤ image_bytes
    → va < 2 ^ 39
    → (image : Buffer) × (build t tlbi_test ≡ ok image)
      × (walk (load_physical image) 3 (physical_base + root_offset) va
          ≡ window (λ i. physical_base + target_page tlbi_test i) (target_flags tlbi_test) va)
unfolding build
build_translates t tlbi_test va fits bound =
    (image t tlbi_test, ground arith, walk-window (image-IsWindow t tlbi_test) va bound)
