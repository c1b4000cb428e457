-- ===== src/Sv39/Walk.antt =====
-- The steps of an address translation.
use open_rv.Prelude.{ℕ, suc, ◌+◌, ◌*◌, ◌/◌, ◌%◌, ◌^◌, ◌<◌, ◌≡◌, none, some, arith}
use open_rv.Sv39.{walk, pte}

-- The address of the entry that a level reads.
abbrev pub entry_address : ℕ → ℕ → ℕ → ℕ
entry_address level table va = table + va / 2 ^ (12 + 9 * level) % 512 * 8

pointer_bits :
    (next : ℕ)
    → next % 2 ^ 12 ≡ 0
    → next < 2 ^ 56
    → (pte next 1 % 2 ≡ 1)
      × (pte next 1 / 2 % 4 ≡ 0)
      × (pte next 1 / 2 % 8 ≡ 0)
      × (pte next 1 / 2 ^ 10 % 2 ^ 44 * 2 ^ 12 ≡ next)
unfolding pte
pointer_bits next hn hb = omega arith

module _ (load : ℕ → ℕ) (level table va : ℕ) where
  pub walk_invalid : load (entry_address level table va) ≡ 0 → walk load (suc level) table va ≡ none
  unfolding walk
  walk_invalid h = rw h

  -- An entry with the valid bit alone points to the next table.
  pub walk_pointer :
      (next : ℕ)
      → next % 2 ^ 12 ≡ 0
      → next < 2 ^ 56
      → load (entry_address level table va) ≡ pte next 1
      → walk load (suc level) table va ≡ walk load level next va
  unfolding walk
  walk_pointer next hn hb h =
      let (valid, writable, permissions, target) = pointer_bits next hn hb in
      rw (h, valid, writable, permissions, target)

-- A valid entry of the last level with a permission is a leaf.
pub walk_leaf :
    (load : ℕ → ℕ) (table va page flags : ℕ)
    → page % 2 ^ 12 ≡ 0
    → page < 2 ^ 56
    → flags < 2 ^ 8
    → flags % 4 ≡ 3
    → load (entry_address 0 table va) ≡ pte page flags
    → walk load 1 table va ≡ some (page + va % 2 ^ 12, flags)
unfolding walk pte
walk_leaf load table va page flags hp hb hf hv h = rw h (ground arith)
