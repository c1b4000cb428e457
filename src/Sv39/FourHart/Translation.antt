-- ===== src/Sv39/FourHart/Translation.antt =====
-- Each hart's root in the four-hart image translates the window into the hart's own prefix.
use open_rv.Prelude.{
  ℕ, zero, suc, ◌+◌, ◌-◌, ◌*◌, ◌/◌, ◌%◌, ◌^◌, ◌≤◌, ◌<◌, ◌≡◌, refl, ◌∙◌, ap, ◌⊎◌, inl, inr, ok,
  arith, leb, ltb, ◌==◌, ◌&&◌, if◌then◌else◌, Bool-cases,
}
use open_rv.Buffer.{Buffer, zeros, splice, clear, read}
use open_rv.Buffer.Laws.{read-splice_disjoint, length-read}
use open_rv.Sv39.{physical_base, pte_flags_rwxad, pte, put_u64, load_u64, load_physical, walk}
use open_rv.Sv39.Tables.{load_u64-put_u64, load_u64-clear, load_u64-map_pages, pte-lt}
use open_rv.Sv39.Window.{IsWindow, window, walk-window}
use open_rv.Sv39.FourHart.{
  harts, prefix_stride, root_offset, level1_offset, level0_offset, image_bytes, install_hart,
  install_harts, build,
}

-- The table entry at an offset of a hart's area.
abbrev table_word : ℕ → ℕ → ℕ
table_word hart k =
    if leb (hart * prefix_stride + level0_offset) k
      && ltb k (hart * prefix_stride + level0_offset + 32 * 8)
    then pte
        (physical_base
          + hart * prefix_stride
          + (k - (hart * prefix_stride + level0_offset)) / 8 * 0x1000)
        pte_flags_rwxad
    else if hart * prefix_stride + level1_offset == k
    then pte (physical_base + hart * prefix_stride + level0_offset) 1
    else if hart * prefix_stride + root_offset + 8 == k
    then pte (physical_base + hart * prefix_stride + level1_offset) 1
    else 0

-- The words of a hart's table area after its round.
load_u64-install_hart :
    (t : Buffer) (hart : ℕ) (b : Buffer) (k : ℕ)
    → hart < harts
    → k % 8 ≡ 0
    → hart * prefix_stride + root_offset ≤ k
    → k < hart * prefix_stride + level0_offset + 0x1000
    → load_u64 (install_hart t hart b) k ≡ table_word hart k
unfolding install_hart
load_u64-install_hart t hart b k hh hk lo hi =
    let prefix = hart * prefix_stride in
    let image = splice b prefix (read t 0 t.size) in
    let root = prefix + root_offset in
    let level1 = prefix + level1_offset in
    let level0 = prefix + level0_offset in
    let c₁ = clear image root 0x1000 in
    let c₂ = clear c₁ level1 0x1000 in
    let cleared = clear c₂ level0 0x1000 in
    let root_entry = pte (physical_base + prefix + level1_offset) 1 in
    let level1_entry = pte (physical_base + prefix + level0_offset) 1 in
    let rooted = put_u64 cleared (root + 1 * 8) root_entry in
    let linked = put_u64 rooted level1 level1_entry in
    ground (
      arith,
      load_u64-map_pages level0 (physical_base + prefix) 32 0 linked k (omega arith) hk
          (omega arith),
      load_u64-put_u64 rooted level1 level1_entry k (pte-lt _ _ (omega arith) (omega arith))
          (omega arith) hk,
      load_u64-put_u64 cleared (root + 8) root_entry k (pte-lt _ _ (omega arith) (omega arith))
          (omega arith) hk,
      load_u64-clear c₂ level0 0x1000 k (omega arith) refl hk,
      load_u64-clear c₁ level1 0x1000 k (omega arith) refl hk,
      load_u64-clear image root 0x1000 k (omega arith) refl hk,
    )

-- A round changes no word outside of its hart's area.
load_u64-install_hart_other :
    (t : Buffer) (hart : ℕ) (b : Buffer) (k : ℕ)
    → t.size ≤ level0_offset + 0x1000
    → hart < harts
    → k % 8 ≡ 0
    → (k + 8 ≤ hart * prefix_stride) ⊎ (hart * prefix_stride + level0_offset + 0x1000 ≤ k)
    → load_u64 (install_hart t hart b) k ≡ load_u64 b k
unfolding install_hart
load_u64-install_hart_other t hart b k fits hh hk out =
    let prefix = hart * prefix_stride in
    let image = splice b prefix (read t 0 t.size) in
    let root = prefix + root_offset in
    let level1 = prefix + level1_offset in
    let level0 = prefix + level0_offset in
    let c₁ = clear image root 0x1000 in
    let c₂ = clear c₁ level1 0x1000 in
    let cleared = clear c₂ level0 0x1000 in
    let root_entry = pte (physical_base + prefix + level1_offset) 1 in
    let level1_entry = pte (physical_base + prefix + level0_offset) 1 in
    let rooted = put_u64 cleared (root + 1 * 8) root_entry in
    let linked = put_u64 rooted level1 level1_entry in
    ground (
      arith,
      load_u64-map_pages level0 (physical_base + prefix) 32 0 linked k (omega arith) hk
          (omega arith),
      load_u64-put_u64 rooted level1 level1_entry k (pte-lt _ _ (omega arith) (omega arith))
          (omega arith) hk,
      load_u64-put_u64 cleared (root + 8) root_entry k (pte-lt _ _ (omega arith) (omega arith))
          (omega arith) hk,
      load_u64-clear c₂ level0 0x1000 k (omega arith) refl hk,
      load_u64-clear c₁ level1 0x1000 k (omega arith) refl hk,
      load_u64-clear image root 0x1000 k (omega arith) refl hk,
      placed,
    )
  where
    placed : load_u64 (splice b (hart * prefix_stride) (read t 0 t.size)) k ≡ load_u64 b k
    placed =
        unfold load_u64 in
        rw (
          read-splice_disjoint b (hart * prefix_stride) (read t 0 t.size) k 8
            (omega (arith, length-read t 0 t.size)))

-- The later rounds leave the words of an earlier hart.
load_u64-install_harts_other :
    (t : Buffer) (left hart h : ℕ) (b : Buffer) (k : ℕ)
    → t.size ≤ level0_offset + 0x1000
    → hart + left ≤ harts
    → h < hart
    → k % 8 ≡ 0
    → k < h * prefix_stride + level0_offset + 0x1000
    → load_u64 (install_harts t left hart b) k ≡ load_u64 b k
unfolding install_harts
load_u64-install_harts_other t zero hart h b k fits hh lt hk hi = refl
load_u64-install_harts_other t (suc left) hart h b k fits hh lt hk hi =
    load_u64-install_harts_other t left (hart + 1) h _ k fits (omega arith) (omega arith) hk hi
    ∙ load_u64-install_hart_other t hart b k fits (omega arith) hk (omega arith)

load_u64-install_harts :
    (t : Buffer) (left hart h : ℕ) (b : Buffer) (k : ℕ)
    → t.size ≤ level0_offset + 0x1000
    → hart + left ≤ harts
    → hart ≤ h
    → h < hart + left
    → k % 8 ≡ 0
    → h * prefix_stride + root_offset ≤ k
    → k < h * prefix_stride + level0_offset + 0x1000
    → load_u64 (install_harts t left hart b) k ≡ table_word h k
unfolding install_harts
load_u64-install_harts t zero hart h b k fits hh lo lt hk from to = absurd (omega arith)
load_u64-install_harts t (suc left) hart h b k fits hh lo lt hk from to =
    elim (Bool-cases (hart == h)) [
      | inl e ↦
          let same : hart ≡ h = ground arith in
          load_u64-install_harts_other t left (hart + 1) h _ k fits (omega arith) (omega arith) hk
            to
          ∙ load_u64-install_hart t hart b k (omega arith) hk (omega arith) (omega arith)
          ∙ ap (λ j. table_word j k) same
      | inr e ↦
          load_u64-install_harts t left (hart + 1) h _ k fits (omega arith) (ground arith)
            (omega arith) hk from to
    ]

module _ (t : Buffer) (fits : t.size ≤ level0_offset + 0x1000) (hart : ℕ) (hh : hart < harts) where
  abbrev image : Buffer
  image = install_harts t harts 0 (zeros image_bytes)

  abbrev prefix : ℕ
  prefix = hart * prefix_stride

  word :
      (k : ℕ)
      → k % 8 ≡ 0
      → prefix + root_offset ≤ k
      → k < prefix + level0_offset + 0x1000
      → load_u64 image k ≡ table_word hart k
  word k hk lo hi =
      load_u64-install_harts t harts 0 hart _ k fits (omega arith) (omega arith) (omega arith) hk lo
        hi

  at :
      (offset i : ℕ)
      → load_physical image (physical_base + prefix + offset + i * 8)
        ≡ load_u64 image (prefix + offset + i * 8)
  unfolding load_physical
  at offset i = ap (load_u64 image) (omega arith)

  root_entry :
      (i : ℕ)
      → i < 512
      → load_u64 image (prefix + root_offset + i * 8)
        ≡ (if i == 1 then pte (physical_base + prefix + level1_offset) 1 else 0)
  root_entry i h =
      ground (arith, word (prefix + root_offset + i * 8) (omega arith) (omega arith) (omega arith))

  level1_entry :
      (i : ℕ)
      → i < 512
      → load_u64 image (prefix + level1_offset + i * 8)
        ≡ (if i == 0 then pte (physical_base + prefix + level0_offset) 1 else 0)
  level1_entry i h =
      ground
        (arith, word (prefix + level1_offset + i * 8) (omega arith) (omega arith) (omega arith))

  level0_entry :
      (i : ℕ)
      → i < 512
      → load_u64 image (prefix + level0_offset + i * 8)
        ≡ (if ltb i 32 then pte (physical_base + prefix + i * 0x1000) pte_flags_rwxad else 0)
  level0_entry i h =
      let k = prefix + level0_offset + i * 8 in
      let page =
        ap {A = ℕ} (λ p. pte (physical_base + prefix + p * 0x1000) pte_flags_rwxad)
          (let e : (k - (prefix + level0_offset)) / 8 ≡ i = omega arith in e) in
      ground (arith, page, word k (omega arith) (omega arith) (omega arith))

  image-IsWindow :
      IsWindow
        (load_physical image)
        (physical_base + prefix + root_offset)
        (physical_base + prefix + level1_offset)
        (physical_base + prefix + level0_offset)
        (λ i. physical_base + prefix + i * 0x1000)
        (λ i. pte_flags_rwxad)
  image-IsWindow = record {
    level1_aligned = omega arith;
    level1_bound = omega arith;
    level0_aligned = omega arith;
    level0_bound = omega arith;
    page_aligned = λ i. omega arith;
    page_bound = λ i h. omega arith;
    flags_bound = λ i. omega arith;
    flags_leaf = λ i. refl;
    root_entry = λ i h. at root_offset i ∙ root_entry i h;
    level1_entry = λ i h. at level1_offset i ∙ level1_entry i h;
    level0_entry = λ i h. at level0_offset i ∙ level0_entry i h;
  }

-- A template of at most 0x23000 bytes is built, and for each of the four harts the walk from the
-- hart's root sends every address of the window to the page of the same number under the hart's
-- own prefix, with flags 0xCF, and faults at every other address below 2 ^ 39.
pub build_translates_per_hart :
    (t : Buffer) (hart va : ℕ)
    → t.size ≤ level0_offset + 0x1000
    → hart < harts
    → va < 2 ^ 39
    → (image : Buffer) × (build t ≡ ok image)
      × (walk (load_physical image) 3 (physical_base + hart * prefix_stride + root_offset) va
          ≡ window
              (λ i. physical_base + hart * prefix_stride + i * 0x1000)
              (λ i. pte_flags_rwxad)
              va)
unfolding build
build_translates_per_hart t hart va fits hh bound = (
  install_harts t harts 0 (zeros image_bytes),
  ground arith,
  walk-window (image-IsWindow t fits hart hh) va bound,
)
