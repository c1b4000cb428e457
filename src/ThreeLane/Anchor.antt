-- ===== src/ThreeLane/Anchor.antt =====
-- `find_anchor` of tools/pipeline_trace_3p.py: the row that a report is about.
use open_rv.Prelude.{
  ℕ, ◌+◌, Bool, true, false, ◌&&◌, ◌||◌, Option, none, some, List, [], ◌∷◌, Result, ok, err, leb,
  ◌==◌, if◌then◌else◌, codes,
}
use open_rv.Text.{Text, text_eq}
use open_rv.ThreeLane.Tables.{Stage, retire, block_reasons}
use open_rv.ThreeLane.{Slot, Row, row_cell, is_valid}

-- `unknown_reason` is the `StopIteration` of a reason that has no name.
pub data AnchorError : Type 0 where
  no_cycle no_uid no_pc : ℕ → AnchorError
  unknown_reason no_reason : Text → AnchorError

-- The index of the first row that passes a test, from `index` on.
unfoldable pub first_index : (Row → Bool) → ℕ → List Row → Option ℕ
first_index test index [] = none
first_index test index (row ∷ rows) =
    let later = first_index test (index + 1) rows in if test row then some index else later

abbrev pub found_or : AnchorError → Option ℕ → Result AnchorError ℕ
found_or raised none = err raised
found_or raised (some index) = ok index

abbrev pub any : (Slot → Bool) → List Slot → Bool
any test [] = false
any test (slot ∷ slots) = test slot || any test slots

abbrev pub is_retire : Stage → Bool
is_retire retire = true
is_retire _ = false

abbrev pub has_cycle : ℕ → Row → Bool
has_cycle cycle row = leb cycle (row_cell row (codes "cycle"))

abbrev pub has_uid : ℕ → Row → Bool
has_uid uid row = any (λ slot. is_valid row.cells slot && slot.uid == uid) row.slots

abbrev pub has_reason : ℕ → Row → Bool
has_reason reason row = row_cell row (codes "block_reason") == reason

abbrev pub retires_pc : ℕ → Row → Bool
retires_pc pc row =
    any (λ slot. is_retire slot.stage && (is_valid row.cells slot && slot.pc == pc)) row.slots

-- The reason with a name.
abbrev pub reason_of : Text → ℕ → List Text → Option ℕ
reason_of name reason [] = none
reason_of name reason (other ∷ names) =
    if text_eq other name then some reason else reason_of name (reason + 1) names

abbrev pub find_reason : List Row → Text → Option ℕ → Result AnchorError ℕ
find_reason rows name none = err (unknown_reason name)
find_reason rows name (some reason) =
    found_or (no_reason name) (first_index (has_reason reason) 0 rows)

-- `find_anchor`
unfoldable pub find_anchor :
    List Row → Option ℕ → Option ℕ → Option ℕ → Option Text → Result AnchorError ℕ
unfolding first_index
find_anchor rows pc uid (some cycle) block_reason =
    found_or (no_cycle cycle) (first_index (has_cycle cycle) 0 rows)
find_anchor rows pc (some uid) none block_reason =
    found_or (no_uid uid) (first_index (has_uid uid) 0 rows)
find_anchor rows pc none none (some name) = find_reason rows name (reason_of name 0 block_reasons)
find_anchor rows (some pc) none none none = found_or (no_pc pc) (first_index (retires_pc pc) 0 rows)
find_anchor rows none none none none = ok 0
