-- ===== src/PipelineTrace/Collect.antt =====
-- `collect_instructions` of tools/pipeline_trace.py: the life of each instruction, by its key. The
-- dictionary is the list of its items in the order of their insertion, and the stages of
-- `stage_cycles` are numbered.
use Prim.Native.Nat.{bit_or}
use open_rv.Prelude.{
  ℕ, ◌+◌, ◌*◌, ◌^◌, Bool, false, not, ◌&&◌, ◌||◌, Option, none, some, List, [], ◌∷◌, ◌++◌, Result,
  ok, err, ◌>>=◌, ◌==◌, if◌then◌else◌, get_elem?,
}
use open_rv.PipelineTrace.{
  PipelineError, uid_zero, changed_pc, changed_instruction, retired_without_wb, StageValue, Row,
  has_bit,
}

pub record Instruction : Type 0 where
  pub uid : ℕ
  pub pc : Option ℕ
  pub instr : Option ℕ
  pub stage_cycles : ℕ → List ℕ
  pub stall_cycles : ℕ
  pub retire_cycle : Option ℕ
  pub retire_arch : Bool
  pub exception : Bool
  pub cause : ℕ
  pub next_pc : ℕ
  pub rd_write : Bool
  pub rd : ℕ
  pub wdata : ℕ

abbrev pub new_instruction : ℕ → Instruction
new_instruction uid = record {
  uid = uid;
  pc = none;
  instr = none;
  stage_cycles = λ index. [];
  stall_cycles = 0;
  retire_cycle = none;
  retire_arch = false;
  exception = false;
  cause = 0;
  next_pc = 0;
  rd_write = false;
  rd = 0;
  wdata = 0;
}

abbrev pub Records : Type 0
Records = List (ℕ × Instruction)

unfoldable pub get_record : ℕ → Records → Option Instruction
get_record key [] = none
get_record key ((k, r) ∷ records) = if k == key then some r else get_record key records

-- `instructions[key] = record`
unfoldable pub put_record : ℕ → Instruction → Records → Records
put_record key record_ [] = (key, record_) ∷ []
put_record key record_ ((k, r) ∷ records) =
    let rest = put_record key record_ records in
    if k == key then (k, record_) ∷ records else (k, r) ∷ rest

abbrev pub record_or : ℕ → Option Instruction → Instruction
record_or uid none = new_instruction uid
record_or uid (some record_) = record_

abbrev pub is_changed : Option ℕ → ℕ → Bool
is_changed none value = false
is_changed (some old) value = not (old == value)

-- The key of a flushed request that is kept apart.
unfoldable pub flushed_key : ℕ → ℕ → ℕ → ℕ
flushed_key cycle index uid = bit_or (bit_or ((cycle + 1) * 2 ^ 68) (index * 2 ^ 64)) uid

-- What a stage adds to the record of its instruction.
unfoldable pub note_stage : Row → ℕ → StageValue → Instruction → Instruction
note_stage row index stage record_ = record record_ {
  pc = some stage.pc;
  instr = if not (index == 0) || not (stage.instr == 0) then some stage.instr else record_.instr;
  stage_cycles = λ i.
      if i == index then record_.stage_cycles index ++ (row.cycle ∷ []) else record_.stage_cycles i;
  stall_cycles = if has_bit row.stall index then record_.stall_cycles + 1 else record_.stall_cycles;
}

-- A valid stage, where `setdefault` has given its record.
unfoldable pub join_stage :
    Row → ℕ → StageValue → Instruction → Records → Result PipelineError Records
unfolding flushed_key note_stage
join_stage row index stage old records =
    let pc_changed = is_changed old.pc stage.pc in
    let instr_changed =
      (not (index == 0) || not (stage.instr == 0)) && is_changed old.instr stage.instr in
    if (pc_changed || instr_changed) && has_bit row.flush index
    then ok (
        put_record (flushed_key row.cycle index stage.uid)
          (note_stage row index stage (new_instruction stage.uid))
          (put_record stage.uid old records))
    else if pc_changed
    then err (changed_pc row.cycle stage.uid)
    else if instr_changed
    then err (changed_instruction row.cycle stage.uid)
    else ok (put_record stage.uid (note_stage row index stage old) records)

unfoldable pub collect_stages : Row → ℕ → List StageValue → Records → Result PipelineError Records
collect_stages row index [] records = ok records
collect_stages row index (stage ∷ stages) records =
    if not stage.valid
    then collect_stages row (index + 1) stages records
    else if stage.uid == 0
    then err (uid_zero row.cycle index)
    else (join_stage row index stage (record_or stage.uid (get_record stage.uid records)) records
        >>= collect_stages row (index + 1) stages)

abbrev pub retire_record : Row → Instruction → Instruction
retire_record row record_ = record record_ {
  retire_cycle = some row.cycle;
  retire_arch = row.retire_arch;
  exception = row.retire_exception;
  cause = row.retire_cause;
  next_pc = row.retire_next_pc;
  rd_write = row.retire_rd_write;
  rd = row.retire_rd;
  wdata = row.retire_wdata;
}

-- The retirement of a row, by its stage `WB`, which `load_rows` always fills.
unfoldable pub retire_wb : Row → Records → Option StageValue → Result PipelineError Records
retire_wb row records none =
    if row.retire_valid then err (retired_without_wb row.cycle) else ok records
retire_wb row records (some wb) =
    let record_ = retire_record row (record_or wb.uid (get_record wb.uid records)) in
    if not row.retire_valid
    then ok records
    else if not wb.valid || wb.uid == 0
    then err (retired_without_wb row.cycle)
    else ok (put_record wb.uid record_ records)

unfoldable pub collect_retirement : Row → Records → Result PipelineError Records
unfolding retire_wb
collect_retirement row records = retire_wb row records (get_elem? row.stages 4)

unfoldable pub collect_rows : List Row → Records → Result PipelineError Records
collect_rows [] records = ok records
collect_rows (row ∷ rows) records = do
  staged ← collect_stages row 0 row.stages records
  retired ← collect_retirement row staged
  collect_rows rows retired

unfoldable pub collect_instructions : List Row → Result PipelineError Records
collect_instructions rows = collect_rows rows []
