-- ===== src/Tests/Pipeline.antt =====
-- An instruction that is fetched, stalls for a cycle and is decoded.
use open_rv.Prelude.{ℕ, ◌≡◌, refl, Bool, true, false, List, [], ◌∷◌, Result, ok}
use open_rv.PipelineTrace.{StageValue, Row}
use open_rv.PipelineTrace.Collect.{
  Records, get_record, put_record, note_stage, join_stage, collect_stages, retire_wb,
  collect_retirement, collect_rows, collect_instructions,
}
use open_rv.PipelineTrace.Occupancy.{total, occupied, collect_instructions-total}

abbrev stage_value : Bool → StageValue
stage_value valid = record { valid = valid; uid = 7; pc = 0x1000; instr = 0x13 }

abbrev pipeline_row : ℕ → Bool → Bool → Row
pipeline_row cycle fetched decoded = record {
  cycle = cycle;
  valid = 1;
  stall = 1;
  flush = 0;
  advance = 0;
  events = 0;
  stall_causes = 0;
  stages =
      stage_value fetched
      ∷ stage_value decoded
      ∷ stage_value false
      ∷ stage_value false
      ∷ stage_value false
      ∷ [];
  retire_valid = false;
  retire_arch = false;
  retire_exception = false;
  retire_cause = 0;
  retire_next_pc = 0;
  retire_rd_write = false;
  retire_rd = 0;
  retire_wdata = 0;
}

abbrev pipeline_rows : List Row
pipeline_rows =
    pipeline_row 3 true false ∷ pipeline_row 4 true false ∷ pipeline_row 5 false true ∷ []

abbrev records_or : {E : Type 0} → Result E Records → Records
records_or (Result.err e) = []
records_or (ok records) = records

abbrev is_ok : {E : Type 0} → Result E Records → Bool
is_ok (Result.err e) = false
is_ok (ok records) = true

ok_records : {E : Type 0} (r : Result E Records) → is_ok r ≡ true → r ≡ ok (records_or r)
ok_records (Result.err e) h = cc
ok_records (ok records) h = refl

abbrev collected : Records
collected = records_or (collect_instructions pipeline_rows)

collects : is_ok (collect_instructions pipeline_rows) ≡ true
unfolding collect_instructions collect_rows collect_retirement retire_wb collect_stages join_stage
    note_stage put_record get_record
collects = refl

collect_instructions-total_example : total 0 collected ≡ occupied 0 pipeline_rows
collect_instructions-total_example =
    collect_instructions-total pipeline_rows collected 0 (refl, (refl, (refl, tt)))
      (ok_records (collect_instructions pipeline_rows) collects)
