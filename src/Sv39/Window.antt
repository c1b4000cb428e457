-- ===== src/Sv39/Window.antt =====
-- A root whose tables map the 32 pages of the window, and what its walk gives. The two tools fill
-- the record, each with its own addresses.
use open_rv.Prelude.{
  ℕ, ◌+◌, ◌-◌, ◌*◌, ◌/◌, ◌%◌, ◌^◌, ◌<◌, ◌≡◌, ◌∙◌, inl, inr, true, false, Option, none, some, arith,
  leb, ltb, lt→ltb, ◌==◌, ◌&&◌, if◌then◌else◌, Bool-cases,
}
use open_rv.Sv39.{virtual_base, mapped_bytes, pte, walk}
use open_rv.Sv39.Walk.{walk_invalid, walk_pointer, walk_leaf}

pub record IsWindow (load : ℕ → ℕ) (root level1 level0 : ℕ) (page flags : ℕ → ℕ) : Type 0 where
  pub level1_aligned : level1 % 2 ^ 12 ≡ 0
  pub level1_bound : level1 < 2 ^ 56
  pub level0_aligned : level0 % 2 ^ 12 ≡ 0
  pub level0_bound : level0 < 2 ^ 56
  pub page_aligned : (i : ℕ) → page i % 2 ^ 12 ≡ 0
  pub page_bound : (i : ℕ) → i < 32 → page i < 2 ^ 56
  pub flags_bound : (i : ℕ) → flags i < 2 ^ 8
  pub flags_leaf : (i : ℕ) → flags i % 4 ≡ 3
  pub root_entry : (i : ℕ) → i < 512 → load (root + i * 8) ≡ (if i == 1 then pte level1 1 else 0)
  pub level1_entry :
      (i : ℕ) → i < 512 → load (level1 + i * 8) ≡ (if i == 0 then pte level0 1 else 0)
  pub level0_entry :
      (i : ℕ) → i < 512 → load (level0 + i * 8) ≡ (if ltb i 32 then pte (page i) (flags i) else 0)

-- The physical address and the flags of a virtual address, or `none` for a fault.
abbrev pub window : (ℕ → ℕ) → (ℕ → ℕ) → ℕ → Option (ℕ × ℕ)
window page flags va =
    let i = (va - virtual_base) / 0x1000 in
    if leb virtual_base va && ltb va (virtual_base + mapped_bytes)
    then some (page i + va % 2 ^ 12, flags i)
    else none

outside_page :
    (va : ℕ)
    → va < 2 ^ 39
    → leb virtual_base va && ltb va (virtual_base + mapped_bytes) ≡ false
    → va / 2 ^ 30 % 512 ≡ 1
    → va / 2 ^ 21 % 512 ≡ 0
    → ltb (va / 2 ^ 12 % 512) 32 ≡ false
outside_page va bound out h g = ground arith

module _ {load : ℕ → ℕ} {root level1 level0 : ℕ} {page flags : ℕ → ℕ}
    (w : IsWindow load root level1 level0 page flags) (va : ℕ) where
  walk_root : va / 2 ^ 30 % 512 ≡ 1 → walk load 3 root va ≡ walk load 2 level1 va
  walk_root h =
      walk_pointer load 2 root va level1 w.level1_aligned w.level1_bound
        (w.root_entry (va / 2 ^ 30 % 512) (omega arith) ∙ rw h)

  walk_level1 : va / 2 ^ 21 % 512 ≡ 0 → walk load 2 level1 va ≡ walk load 1 level0 va
  walk_level1 h =
      walk_pointer load 1 level1 va level0 w.level0_aligned w.level0_bound
        (w.level1_entry (va / 2 ^ 21 % 512) (omega arith) ∙ rw h)

  walk_level0 :
      (i : ℕ)
      → va / 2 ^ 12 % 512 ≡ i
      → i < 32
      → walk load 1 level0 va ≡ some (page i + va % 2 ^ 12, flags i)
  walk_level0 i e h =
      walk_leaf load level0 va (page i) (flags i) (w.page_aligned i) (w.page_bound i h)
        (w.flags_bound i) (w.flags_leaf i)
        (w.level0_entry (va / 2 ^ 12 % 512) (omega arith) ∙ rw (e, lt→ltb i 32 h))

  walk_inside :
      leb virtual_base va && ltb va (virtual_base + mapped_bytes) ≡ true
      → walk load 3 root va
        ≡ some (
          page ((va - virtual_base) / 0x1000) + va % 2 ^ 12,
          flags ((va - virtual_base) / 0x1000),
        )
  walk_inside e =
      walk_root (ground arith)
      ∙ walk_level1 (ground arith)
      ∙ walk_level0 ((va - virtual_base) / 0x1000) (ground arith) (ground arith)

  walk_outside :
      va < 2 ^ 39
      → leb virtual_base va && ltb va (virtual_base + mapped_bytes) ≡ false
      → walk load 3 root va ≡ none
  walk_outside bound out = elim (Bool-cases (va / 2 ^ 30 % 512 == 1)) [
    | inr e ↦ walk_invalid load 2 root va (w.root_entry _ (omega arith) ∙ rw e)
    | inl e ↦ walk_root (ground arith) ∙ elim (Bool-cases (va / 2 ^ 21 % 512 == 0)) [
      | inr f ↦ walk_invalid load 1 level1 va (w.level1_entry _ (omega arith) ∙ rw f)
      | inl f ↦
          walk_level1 (ground arith)
          ∙ walk_invalid load 0 level0 va (
              w.level0_entry _ (omega arith)
              ∙ rw (outside_page va bound out (ground arith) (ground arith)))
    ]
  ]

  -- The walk sends the window to the pages, and faults at every other address below 2 ^ 39.
  pub walk-window : va < 2 ^ 39 → walk load 3 root va ≡ window page flags va
  walk-window bound =
      elim (Bool-cases (leb virtual_base va && ltb va (virtual_base + mapped_bytes))) [
        | inl e ↦ rw e (walk_inside e)
        | inr e ↦ rw e (walk_outside bound e)
      ]
