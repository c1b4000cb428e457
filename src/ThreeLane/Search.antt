-- ===== src/ThreeLane/Search.antt =====
-- What `find_anchor` of tools/pipeline_trace_3p.py finds.
use open_rv.Prelude.{
  ℕ, zero, suc, ◌≡◌, ◌⊎◌, ◌≤◌, Bool, true, false, List, [], ◌∷◌, Result, ok, err, codes, All,
}
use open_rv.Text.{Text}
use open_rv.ThreeLane.Tables.{retire}
use open_rv.ThreeLane.{Slot, Row, row_cell, is_valid}
use open_rv.ThreeLane.Anchor.{AnchorError}

-- The first row with a property.
abbrev pub IsFirst : (Row → Type 0) → List Row → ℕ → Type 0
IsFirst P [] index = ⊥
IsFirst P (row ∷ rows) zero = P row
IsFirst P (row ∷ rows) (suc index) = ¬ P row × IsFirst P rows index

-- The answer is the first row with the property, or the error, where none has it.
abbrev pub IsSearch : (Row → Type 0) → List Row → AnchorError → Result AnchorError ℕ → Type 0
IsSearch P rows raised (ok index) = IsFirst P rows index
IsSearch P rows raised (err e) = (e ≡ raised) × All (λ row. ¬ P row) rows

abbrev Any : (Slot → Type 0) → List Slot → Type 0
Any P [] = ⊥
Any P (slot ∷ slots) = P slot ⊎ Any P slots

abbrev pub IsAtOrBehind : ℕ → Row → Type 0
IsAtOrBehind cycle row = cycle ≤ row_cell row (codes "cycle")

abbrev pub IsShown : ℕ → Row → Type 0
IsShown uid row = Any (λ slot. (is_valid row.cells slot ≡ true) × (slot.uid ≡ uid)) row.slots

abbrev pub IsBlockedBy : ℕ → Row → Type 0
IsBlockedBy reason row = row_cell row (codes "block_reason") ≡ reason

abbrev pub IsRetired : ℕ → Row → Type 0
IsRetired pc row =
    Any (λ slot. (slot.stage ≡ retire) × (is_valid row.cells slot ≡ true) × (slot.pc ≡ pc))
      row.slots

abbrev IsDecidedBy : {A : Type 0} → (A → Type 0) → (A → Bool) → Type 0
IsDecidedBy P test = (a : _) → ((test a ≡ true) → P a) × ((test a ≡ false) → ¬ P a)
