-- ===== src/PipelineTrace.antt =====
-- tools/pipeline_trace.py: the rows of a cycle trace and the lives of its instructions. The header and
-- the rows are what the `csv` module yields, a row as a function of the column's name.
pub mod Collect
pub mod Occupancy
pub mod Ranges
use open_rv.Prelude.{
  ℕ, zero, suc, ◌+◌, ◌-◌, ◌*◌, ◌/◌, ◌%◌, ◌^◌, Bool, true, false, not, ◌&&◌, ◌||◌, Option, none,
  some, List, [], ◌∷◌, ◌++◌, Result, ok, err, ◌>>=◌, ◌>>◌, refuse_if, ◌==◌, if◌then◌else◌, length,
  codes,
}
use open_rv.Text.{Text, text_eq, has_all, Integer, invalid, negative, uint, int_of}

abbrev schema : Text
schema = codes "openrv64-cycle-v1"

-- The names of the stages among the columns.
abbrev stage_names : List Text
stage_names = codes "if" ∷ codes "id" ∷ codes "ex" ∷ codes "mem" ∷ codes "wb" ∷ []

-- Each exception of `parse_int`, `load_rows` and `collect_instructions`; `missing_cell` is the
-- `TypeError` of a cell that a short row lacks, and `below_zero` stands for a cell with a number below
-- zero.
pub data PipelineError : Type 0 where
  no_header missing_columns no_rows : PipelineError
  missing_cell unsupported_schema : ℕ → PipelineError
  invalid_value below_zero : ℕ → Text → PipelineError
  uid_zero : ℕ → ℕ → PipelineError
  changed_pc changed_instruction : ℕ → ℕ → PipelineError
  retired_without_wb : ℕ → PipelineError

pub record StageValue : Type 0 where
  pub valid : Bool
  pub uid : ℕ
  pub pc : ℕ
  pub instr : ℕ

pub record Row : Type 0 where
  pub cycle : ℕ
  pub valid : ℕ
  pub stall : ℕ
  pub flush : ℕ
  pub advance : ℕ
  pub events : ℕ
  pub stall_causes : ℕ
  pub stages : List StageValue
  pub retire_valid : Bool
  pub retire_arch : Bool
  pub retire_exception : Bool
  pub retire_cause : ℕ
  pub retire_next_pc : ℕ
  pub retire_rd_write : Bool
  pub retire_rd : ℕ
  pub retire_wdata : ℕ

abbrev pub CsvRow : Type 0
CsvRow = Text → Option Text

-- `mask & (1 << index)`
abbrev pub has_bit : ℕ → ℕ → Bool
has_bit mask index = mask / 2 ^ index % 2 == 1

-- `parse_int` of a cell, which has the column's name as the field's.
unfoldable pub parse_int : CsvRow → ℕ → Text → ℕ → Result PipelineError ℕ
parse_int raw base field_name line_number = elim (raw field_name) [
  | none ↦ err (missing_cell line_number)
  | some value ↦ elim (int_of base value) [
    | invalid ↦ err (invalid_value line_number field_name)
    | negative n ↦ err (below_zero line_number field_name)
    | uint n ↦ ok n
  ]
]

unfoldable pub parse_stages :
    CsvRow → ℕ → ℕ → ℕ → List Text → Result PipelineError (List StageValue)
unfolding parse_int
parse_stages raw line_number valid index [] = ok []
parse_stages raw line_number valid index (name ∷ names) = do
  uid ← parse_int raw 16 (name ++ codes "_uid") line_number
  pc ← parse_int raw 16 (name ++ codes "_pc") line_number
  instr ← parse_int raw 16 (name ++ codes "_instr") line_number
  later ← parse_stages raw line_number valid (index + 1) names
  ok (record { valid = has_bit valid index; uid = uid; pc = pc; instr = instr } ∷ later)

-- A missing `schema` is an unsupported one.
abbrev is_schema : Option Text → Bool
is_schema none = false
is_schema (some value) = text_eq value schema

unfoldable pub load_row : ℕ → CsvRow → Result PipelineError Row
unfolding parse_int parse_stages
load_row line_number raw = do
  refuse_if (not (is_schema (raw (codes "schema")))) (unsupported_schema line_number)
  valid ← parse_int raw 16 (codes "valid") line_number
  stages ← parse_stages raw line_number valid 0 stage_names
  cycle ← parse_int raw 10 (codes "cycle") line_number
  stall ← parse_int raw 16 (codes "stall") line_number
  flush ← parse_int raw 16 (codes "flush") line_number
  advance ← parse_int raw 16 (codes "advance") line_number
  events ← parse_int raw 16 (codes "events") line_number
  stall_causes ← parse_int raw 16 (codes "stall_causes") line_number
  retire_valid ← parse_int raw 10 (codes "retire_valid") line_number
  retire_arch ← parse_int raw 10 (codes "retire_arch") line_number
  retire_exception ← parse_int raw 10 (codes "retire_exception") line_number
  retire_cause ← parse_int raw 16 (codes "retire_cause") line_number
  retire_next_pc ← parse_int raw 16 (codes "retire_next_pc") line_number
  retire_rd_write ← parse_int raw 10 (codes "retire_rd_write") line_number
  retire_rd ← parse_int raw 10 (codes "retire_rd") line_number
  retire_wdata ← parse_int raw 16 (codes "retire_wdata") line_number
  ok (record {
    cycle = cycle;
    valid = valid;
    stall = stall;
    flush = flush;
    advance = advance;
    events = events;
    stall_causes = stall_causes;
    stages = stages;
    retire_valid = not (retire_valid == 0);
    retire_arch = not (retire_arch == 0);
    retire_exception = not (retire_exception == 0);
    retire_cause = retire_cause;
    retire_next_pc = retire_next_pc;
    retire_rd_write = not (retire_rd_write == 0);
    retire_rd = retire_rd;
    retire_wdata = retire_wdata;
  })

unfoldable pub load_each : ℕ → List CsvRow → Result PipelineError (List Row)
unfolding load_row
load_each line_number [] = ok []
load_each line_number (raw ∷ rest) = do
  row ← load_row line_number raw
  rows ← load_each (line_number + 1) rest
  ok (row ∷ rows)

abbrev stage_columns : List Text → List Text
stage_columns [] = []
stage_columns (name ∷ names) =
    (name ++ codes "_uid") ∷ (name ++ codes "_pc") ∷ (name ++ codes "_instr") ∷ stage_columns names

abbrev required_columns : List Text
required_columns =
    codes "schema"
    ∷ codes "cycle"
    ∷ codes "valid"
    ∷ codes "stall"
    ∷ codes "flush"
    ∷ codes "advance"
    ∷ codes "events"
    ∷ codes "stall_causes"
    ∷ codes "retire_valid"
    ∷ codes "retire_arch"
    ∷ codes "retire_exception"
    ∷ codes "retire_cause"
    ∷ codes "retire_next_pc"
    ∷ codes "retire_rd_write"
    ∷ codes "retire_rd"
    ∷ codes "retire_wdata"
    ∷ stage_columns stage_names

-- A file without a header has none to give.
unfoldable pub load_rows : Option (List Text) → List CsvRow → Result PipelineError (List Row)
load_rows none raw = err no_header
load_rows (some fieldnames) raw = do
  refuse_if (not (has_all required_columns fieldnames)) missing_columns
  rows ← load_each 2 raw
  refuse_if (length rows == 0) no_rows
  ok rows
