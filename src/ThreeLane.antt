-- ===== src/ThreeLane.antt =====
-- tools/pipeline_trace_3p.py: the reader of a cycle trace of the three-lane core. The header and the
-- rows are what the `csv` module yields. Of a row, the keys that are made of a stage's prefix, a lane
-- and a suffix are slots, and the others are cells by name.
pub mod Tables
pub mod Identity
pub mod Counts
pub mod Partition
pub mod Anchor
pub mod Labels
pub mod Slots
pub mod Search
use open_rv.Prelude.{
  ℕ, zero, suc, ◌+◌, ◌*◌, ◌/◌, ◌%◌, ◌^◌, Bool, true, false, not, ◌&&◌, Option, none, some, List, [],
  ◌∷◌, ◌++◌, Result, ok, err, ◌>>=◌, ◌>>◌, refuse_if, ◌==◌, if◌then◌else◌, length, codes,
}
use open_rv.Text.{Text, text_eq, has_all, Integer, invalid, negative, uint, int_of, format_decimal}
use open_rv.PipelineTrace.{CsvRow, has_bit}
use open_rv.ThreeLane.Tables.{
  Schema, v1, v2, Stage, fetch, decode, queue, issue, complete, retire, mask_field, prefix,
  stages_for_schema, base_hex_fields, base_dec_fields, v2_hex_fields, v2_dec_fields,
  v2_optional_hex_fields, v2_optional_dec_fields,
}

-- The exceptions of `load`; `missing_schema` is its `KeyError`, `missing_cell` the `TypeError` of a cell
-- that a short row lacks, and `below_zero` stands for a cell with a number below zero.
pub data LoadError : Type 0 where
  no_header no_rows missing_schema mixed_schemas unsupported_schema missing_columns : LoadError
  missing_cell invalid_value below_zero : Text → LoadError
  uid_zero : ℕ → Stage → ℕ → LoadError
  changed_identity : ℕ → ℕ → LoadError

-- The cells of a row; a later assignment stands before an earlier one.
abbrev pub Cells : Type 0
Cells = List (Text × ℕ)

-- `int(row[name])`, for the names that every loaded row has.
abbrev pub cell : Cells → Text → ℕ
cell [] name = 0
cell ((other, value) ∷ cells) name = if text_eq other name then value else cell cells name

pub record Slot : Type 0 where
  pub stage : Stage
  pub lane : ℕ
  pub uid : ℕ
  pub pc : ℕ
  pub instr : ℕ

pub record Row : Type 0 where
  pub schema : Schema
  pub cells : Cells
  pub slots : List Slot

abbrev pub row_cell : Row → Text → ℕ
row_cell row name = cell row.cells name

-- `mask & (1 << lane)`
abbrev pub is_valid : Cells → Slot → Bool
is_valid cells slot = has_bit (cell cells (mask_field slot.stage)) slot.lane

-- `identities`, by UID.
abbrev pub Identities : Type 0
Identities = ℕ → Option (ℕ × ℕ)

abbrev v1_text : Text
v1_text = codes "openrv64-3p-cycle-v1"

abbrev v2_text : Text
v2_text = codes "openrv64-3p-cycle-v2"

abbrev pub schema_of : Option Text → Option Schema
schema_of none = none
schema_of (some name) =
    if text_eq name v1_text then some v1 else if text_eq name v2_text then some v2 else none

abbrev same : Option Text → Option Text → Bool
same none none = true
same (some a) (some b) = text_eq a b
same none (some b) = false
same (some a) none = false

-- Whether the schema of every row is the given one.
abbrev pub all_same : Option Text → List CsvRow → Bool
all_same name [] = true
all_same name (raw ∷ rows) = same name (raw (codes "schema")) && all_same name rows

abbrev pub column : Stage → ℕ → Text → Text
column stage lane suffix = prefix stage ++ (format_decimal lane ++ suffix)

abbrev lane_columns : Stage → ℕ → List Text
lane_columns stage lane =
    column stage lane (codes "_uid")
    ∷ column stage lane (codes "_pc")
    ∷ column stage lane (codes "_instr")
    ∷ []

abbrev stage_columns : List Stage → List Text
stage_columns [] = []
stage_columns (stage ∷ stages) =
    (lane_columns stage 0 ++ (lane_columns stage 1 ++ lane_columns stage 2)) ++ stage_columns stages

abbrev hex_fields : Schema → List Text
hex_fields v1 = base_hex_fields
hex_fields v2 = base_hex_fields ++ v2_hex_fields

abbrev dec_fields : Schema → List Text
dec_fields v1 = base_dec_fields
dec_fields v2 = base_dec_fields ++ v2_dec_fields

abbrev pub required_columns : Schema → List Text
required_columns schema =
    codes "schema"
    ∷ (hex_fields schema ++ (dec_fields schema ++ stage_columns (stages_for_schema schema)))

-- `int(raw[name], base)`
unfoldable pub parse : CsvRow → ℕ → Text → Result LoadError ℕ
parse raw base name = elim (raw name) [
  | none ↦ err (missing_cell name)
  | some value ↦ elim (int_of base value) [
    | invalid ↦ err (invalid_value name)
    | negative n ↦ err (below_zero name)
    | uint n ↦ ok n
  ]
]

unfoldable pub parse_fields : CsvRow → ℕ → List Text → Result LoadError Cells
unfolding parse
parse_fields raw base [] = ok []
parse_fields raw base (name ∷ names) = do
  value ← parse raw base name
  cells ← parse_fields raw base names
  ok ((name, value) ∷ cells)

-- A column that the header lacks is 0.
unfoldable pub parse_optional : List Text → CsvRow → ℕ → List Text → Result LoadError Cells
unfolding parse
parse_optional header raw base [] = ok []
parse_optional header raw base (name ∷ names) = do
  value ← if has_all (name ∷ []) header then parse raw base name else ok 0
  cells ← parse_optional header raw base names
  ok ((name, value) ∷ cells)

abbrev zeros : List Text → Cells
zeros [] = []
zeros (name ∷ names) = (name, 0) ∷ zeros names

-- What a row of the first format has for the columns of the second.
abbrev absent : Schema → Cells
absent v1 = (codes "block_lane", 3) ∷ (zeros v2_hex_fields ++ zeros v2_dec_fields)
absent v2 = []

abbrev pub int_of_bool : Bool → ℕ
int_of_bool true = 1
int_of_bool false = 0

unfoldable pub load_cells : List Text → Schema → CsvRow → Result LoadError Cells
unfolding parse_fields parse_optional
load_cells header schema raw = do
  hex ← parse_fields raw 16 (hex_fields schema)
  dec ← parse_fields raw 10 (dec_fields schema)
  optional_hex ← parse_optional header raw 16 v2_optional_hex_fields
  optional_dec ← parse_optional header raw 10 v2_optional_dec_fields
  ok (
      (codes "data_fields_present", int_of_bool (has_all v2_optional_hex_fields header))
      ∷ (codes "window_fields_present", int_of_bool (has_all v2_optional_dec_fields header))
      ∷ (absent schema ++ (hex ++ (dec ++ (optional_hex ++ optional_dec)))))

unfoldable pub load_slot : CsvRow → Stage → ℕ → Result LoadError Slot
unfolding parse
load_slot raw stage lane = do
  uid ← parse raw 16 (column stage lane (codes "_uid"))
  pc ← parse raw 16 (column stage lane (codes "_pc"))
  instr ← parse raw 16 (column stage lane (codes "_instr"))
  ok (record { stage = stage; lane = lane; uid = uid; pc = pc; instr = instr })

-- The stages whose UIDs are no longer tentative.
abbrev pub is_tracked : Stage → Bool
is_tracked fetch = false
is_tracked decode = false
is_tracked queue = true
is_tracked issue = true
is_tracked complete = true
is_tracked retire = true

abbrev pub put_identity : Slot → Identities → Identities
put_identity slot identities uid =
    if uid == slot.uid then some (slot.pc, slot.instr) else identities uid

-- `identities.setdefault(uid, (pc, instr))` and the comparison with the old identity.
abbrev pub note_identity : ℕ → Slot → Option (ℕ × ℕ) → Identities → Result LoadError Identities
note_identity line_number slot none identities = ok (put_identity slot identities)
note_identity line_number slot (some (pc, instr)) identities = do
  refuse_if (not (pc == slot.pc && instr == slot.instr)) (changed_identity line_number slot.uid)
  ok identities

-- The checks of a slot: one that is not valid has none.
unfoldable pub check_slot : ℕ → Bool → Slot → Identities → Result LoadError Identities
check_slot line_number false slot identities = ok identities
check_slot line_number true slot identities = do
  refuse_if (slot.uid == 0) (uid_zero line_number slot.stage slot.lane)
  if is_tracked slot.stage
      then note_identity line_number slot (identities slot.uid) identities
      else ok identities

-- The loops over the stages and the lanes.
unfoldable pub load_slots :
    ℕ → CsvRow → Cells → List (Stage × ℕ) → Identities → Result LoadError (List Slot × Identities)
unfolding load_slot check_slot
load_slots line_number raw cells [] identities = ok ([], identities)
load_slots line_number raw cells ((stage, lane) ∷ places) identities = do
  slot ← load_slot raw stage lane
  noted ← check_slot line_number (is_valid cells slot) slot identities
  (slots, final) ← load_slots line_number raw cells places noted
  ok (slot ∷ slots, final)

abbrev pub places : List Stage → List (Stage × ℕ)
places [] = []
places (stage ∷ stages) = (stage, 0) ∷ (stage, 1) ∷ (stage, 2) ∷ places stages

unfoldable pub load_rows :
    List Text → Schema → ℕ → List CsvRow → Identities → Result LoadError (List Row × Identities)
unfolding load_cells load_slots
load_rows header schema line_number [] identities = ok ([], identities)
load_rows header schema line_number (raw ∷ rest) identities = do
  cells ← load_cells header schema raw
  (slots, noted) ← load_slots line_number raw cells (places (stages_for_schema schema)) identities
  (rows, final) ← load_rows header schema (line_number + 1) rest noted
  ok (record { schema = schema; cells = cells; slots = slots } ∷ rows, final)

abbrev pub load_with : List Text → List CsvRow → Option Schema → Result LoadError (List Row)
load_with header raw none = err unsupported_schema
load_with header raw (some schema) = do
  refuse_if (not (has_all (required_columns schema) header)) missing_columns
  (rows, identities) ← load_rows header schema 2 raw (λ uid. none)
  ok rows

-- `load`; a file without a header has none to give.
unfoldable pub load : Option (List Text) → List CsvRow → Result LoadError (List Row)
unfolding load_rows
load none raw = err no_header
load (some header) [] = err no_rows
load (some header) (first ∷ rest) = do
  refuse_if (not (has_all (codes "schema" ∷ []) header)) missing_schema
  refuse_if (not (all_same (first (codes "schema")) rest)) mixed_schemas
  load_with header (first ∷ rest) (schema_of (first (codes "schema")))
