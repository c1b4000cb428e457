-- ===== src/Tests/Lanes.antt =====
-- A trace of the three-lane core: an instruction that waits in the dispatch queue, issues and retires.
use open_rv.Prelude.{
  ℕ, ◌+◌, ◌≡◌, refl, Bool, true, false, Option, none, some, List, [], ◌∷◌, ◌++◌, Result, ok, err,
  map, length, codes, All, if◌then◌else◌,
}
use open_rv.Text.{
  Text, text_eq, int_of, strip, skip_spaces, is_space, signed_value, digits_value, digit_value,
  reverse_onto, format_decimal, decimal_reversed, format_hex, hex_reversed, hex_digit,
}
use open_rv.PipelineTrace.{CsvRow}
use open_rv.ThreeLane.Tables.{Schema, v2}
use open_rv.ThreeLane.{
  LoadError, changed_identity, Row, required_columns, parse, parse_fields, parse_optional,
  load_cells, load_slot, check_slot, load_slots, load_rows, load,
}
use open_rv.ThreeLane.Identity.{IsRow, load-IsRow}
use open_rv.ThreeLane.Counts.{summary}
use open_rv.ThreeLane.Partition.{causes_total, sum_below, rows_above, summary_partition}
use open_rv.ThreeLane.Anchor.{find_anchor}
use open_rv.ThreeLane.Labels.{block_text}

-- A row with the given cells, 0 in the others.
abbrev csv_row : List (Text × Text) → CsvRow
csv_row [] name = some (codes "0")
csv_row ((other, value) ∷ cells) name =
    if text_eq other name then some value else csv_row cells name

abbrev v2_cell : Text × Text
v2_cell = (codes "schema", codes "openrv64-3p-cycle-v2")

abbrev lane_rows : List CsvRow
lane_rows =
    csv_row (
      v2_cell
      ∷ (codes "queue_valid", codes "1")
      ∷ (codes "q0_uid", codes "7")
      ∷ (codes "q0_pc", codes "1000")
      ∷ (codes "q0_instr", codes "13")
      ∷ (codes "block_reason", codes "11")
      ∷ (codes "candidate_pipe", codes "2")
      ∷ [])
    ∷ csv_row (
        v2_cell
        ∷ (codes "issue_valid", codes "1")
        ∷ (codes "i0_uid", codes "7")
        ∷ (codes "i0_pc", codes "1000")
        ∷ (codes "i0_instr", codes "13")
        ∷ (codes "cycle", codes "1")
        ∷ (codes "fetch_valid", codes "1")
        ∷ (codes "f0_uid", codes "8")
        ∷ [])
    ∷ csv_row (
        v2_cell
        ∷ (codes "retire_valid", codes "1")
        ∷ (codes "r0_uid", codes "7")
        ∷ (codes "r0_pc", codes "1000")
        ∷ (codes "r0_instr", codes "13")
        ∷ (codes "cycle", codes "2")
        ∷ (codes "bp_fetch_stall", codes "1")
        ∷ [])
    ∷ []

abbrev lane_header : Option (List Text)
lane_header = some (required_columns v2)

abbrev rows_or : Result LoadError (List Row) → List Row
rows_or (err e) = []
rows_or (ok rows) = rows

abbrev loads : Result LoadError (List Row) → Bool
loads (err e) = false
loads (ok rows) = true

loads_ok : (r : Result LoadError (List Row)) → loads r ≡ true → r ≡ ok (rows_or r)
loads_ok (err e) h = cc
loads_ok (ok rows) h = refl

abbrev loaded : List Row
loaded = rows_or (load lane_header lane_rows)

load-lane_rows : loads (load lane_header lane_rows) ≡ true
unfolding load load_rows load_cells load_slots load_slot check_slot parse parse_fields
    parse_optional int_of signed_value strip skip_spaces is_space digits_value digit_value
    reverse_onto format_decimal decimal_reversed
load-lane_rows = refl

load-IsRow_example :
    (schema : Schema) × (identity : ℕ → ℕ × ℕ) × (length loaded ≡ length lane_rows)
    × All (IsRow schema identity) loaded
load-IsRow_example =
    load-IsRow lane_header lane_rows loaded (loads_ok (load lane_header lane_rows) load-lane_rows)

-- The identity of a UID may not change.
load_changed :
    load lane_header (
      lane_rows
      ++ (csv_row (v2_cell ∷ (codes "issue_valid", codes "2") ∷ (codes "i1_uid", codes "7") ∷ [])
          ∷ []))
    ≡ err (changed_identity 5 7)
unfolding load load_rows load_cells load_slots load_slot check_slot parse parse_fields
    parse_optional int_of signed_value strip skip_spaces is_space digits_value digit_value
    reverse_onto format_decimal decimal_reversed
load_changed = refl

summary_partition_example :
    (causes_total (summary v2 loaded).counts ≡ (summary v2 loaded).counts (codes "frontend_empty"))
    × (sum_below 13 (λ k. (summary v2 loaded).reasons (k + 1)) + rows_above 14 loaded
        ≡ (summary v2 loaded).blocked)
summary_partition_example = summary_partition loaded

block_text-loaded :
    map block_text loaded ≡ some (codes "BLOCK=PIPE_BUSY@Q0:7@1000/MEM") ∷ none ∷ none ∷ []
unfolding block_text format_hex hex_reversed hex_digit load load_rows load_cells load_slots
    load_slot check_slot parse parse_fields parse_optional int_of signed_value strip skip_spaces
    is_space digits_value digit_value reverse_onto format_decimal decimal_reversed
block_text-loaded = refl

find_anchor-retired : find_anchor loaded (some 0x1000) none none none ≡ ok 2
unfolding find_anchor load load_rows load_cells load_slots load_slot check_slot parse parse_fields
    parse_optional int_of signed_value strip skip_spaces is_space digits_value digit_value
    reverse_onto format_decimal decimal_reversed
find_anchor-retired = refl
