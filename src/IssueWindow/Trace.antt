-- ===== src/IssueWindow/Trace.antt =====
-- `load_trace` of tools/issue_window_experiment.py: what its loop over the rows of the trace notes.
-- The cells of a row are the numbers that `int` makes of them; a dictionary is a function.
pub mod Extract
pub mod Totals
pub mod Errors
pub mod Links
pub mod Latest
pub mod Kept
use open_rv.Prelude.{
  ℕ, zero, suc, ◌+◌, ◌-◌, ◌*◌, ◌/◌, ◌%◌, ◌^◌, Bool, true, false, not, ◌&&◌, ◌||◌, Option, none,
  some, List, [], ◌∷◌, ◌++◌, Result, ok, err, ◌>>=◌, ltb, leb, ◌==◌, if◌then◌else◌,
}
use open_rv.IssueWindow.State.{update}

-- The columns that are read, once the header is found to name those that are required; one that the
-- trace need not have, such as `bp_fetch_stall`, counts as 0 where it is missing.
pub record TraceRow : Type 0 where
  pub cycle : ℕ
  pub fetch_valid : ℕ
  pub fetch_fire : ℕ
  pub fetch_uid : ℕ → ℕ
  pub queue_valid : ℕ
  pub queue_uid : ℕ → ℕ
  pub queue_pc : ℕ → ℕ
  pub queue_instr : ℕ → ℕ
  pub candidate_uses_rs1 : ℕ
  pub candidate_uses_rs2 : ℕ
  pub candidate_reg_write : ℕ
  pub candidate_rs1 : ℕ
  pub candidate_rs2 : ℕ
  pub candidate_rd : ℕ
  pub issue_valid : ℕ
  pub issue_uid : ℕ → ℕ
  pub complete_valid : ℕ
  pub complete_uid : ℕ → ℕ
  pub retire_count : ℕ
  pub retire_uid : ℕ → ℕ
  pub bp_fetch_stall : ℕ
  pub bp_decode_stall : ℕ
  pub control_flush : ℕ
  pub control_redirect : ℕ

pub record Metadata : Type 0 where
  pub pc : ℕ
  pub bits : ℕ
  pub uses_rs1 : Bool
  pub uses_rs2 : Bool
  pub rs1 : ℕ
  pub rs2 : ℕ
  pub writes_rd : Bool
  pub rd : ℕ

pub record Tables : Type 0 where
  pub metadata : ℕ → Option Metadata
  pub first_f : ℕ → Option ℕ
  pub first_f_intrinsic : ℕ → Option ℕ
  pub first_q : ℕ → Option ℕ
  pub issue : ℕ → Option (ℕ × ℕ)
  pub complete : ℕ → Option ℕ
  pub retire : ℕ → Option ℕ
  pub committed : List ℕ
  pub held_cycles : ℕ
  pub backend_held_cycles : ℕ
  pub total_cycles : ℕ
  pub actual_retired : ℕ

abbrev pub no_tables : Tables
no_tables = record {
  metadata = λ uid. none;
  first_f = λ uid. none;
  first_f_intrinsic = λ uid. none;
  first_q = λ uid. none;
  issue = λ uid. none;
  complete = λ uid. none;
  retire = λ uid. none;
  committed = [];
  held_cycles = 0;
  backend_held_cycles = 0;
  total_cycles = 0;
  actual_retired = 0;
}

-- `missing_column` is the `KeyError` of `raw["r3_uid"]` for a row that retires more than the three
-- lanes that the format has columns for. `below_zero` is an error of the model alone, for the negative
-- intrinsic release of a trace whose cycle numbers are smaller than the count of its held cycles, which
-- the tool would keep.
pub data LoadError : Type 0 where
  missing_column : LoadError
  below_zero : LoadError
  lacks_metadata : ℕ → LoadError
  key_error : ℕ → LoadError
  count_mismatch : ℕ → ℕ → LoadError

abbrev pub setdefault {ℓ} : {A : Type ℓ} → (ℕ → Option A) → ℕ → A → ℕ → Option A
setdefault table key value =
    update table key (elim (table key) [ none ↦ some value | some old ↦ some old ])

-- `mask & (1 << lane)`
abbrev pub has_lane : ℕ → ℕ → Bool
has_lane mask lane = mask / 2 ^ lane % 2 == 1

unfoldable pub packed_reg : ℕ → ℕ → ℕ
packed_reg packed lane = packed / 2 ^ (lane * 5) % 2 ^ 5

-- `for lane in range(3)`, where the lanes outside the mask are passed over.
unfoldable pub over_lanes {ℓ} : {A : Type ℓ} → ℕ → (ℕ → A → A) → A → A
over_lanes {A = A} mask body start = step 2 (step 1 (step 0 start))
  where
    step : ℕ → A → A
    step lane a = if has_lane mask lane then body lane a else a

module _ (row : TraceRow) where
  unfoldable pub fetch_lane : ℕ → Tables → Tables
  fetch_lane lane t = record t {
    first_f = setdefault t.first_f (row.fetch_uid lane) row.cycle;
    first_f_intrinsic =
        setdefault t.first_f_intrinsic (row.fetch_uid lane) (row.cycle - t.backend_held_cycles);
  }

  unfoldable pub queue_metadata : ℕ → Metadata
  unfolding packed_reg
  queue_metadata lane = record {
    pc = row.queue_pc lane;
    bits = row.queue_instr lane;
    uses_rs1 = has_lane row.candidate_uses_rs1 lane;
    uses_rs2 = has_lane row.candidate_uses_rs2 lane;
    rs1 = packed_reg row.candidate_rs1 lane;
    rs2 = packed_reg row.candidate_rs2 lane;
    writes_rd = has_lane row.candidate_reg_write lane;
    rd = packed_reg row.candidate_rd lane;
  }

  unfoldable pub queue_lane : ℕ → Tables → Tables
  unfolding queue_metadata
  queue_lane lane t = record t {
    first_q = setdefault t.first_q (row.queue_uid lane) row.cycle;
    metadata = setdefault t.metadata (row.queue_uid lane) (queue_metadata lane);
  }

  unfoldable pub issue_lane : ℕ → Tables → Tables
  issue_lane lane t = record t { issue = setdefault t.issue (row.issue_uid lane) (row.cycle, lane) }

  unfoldable pub complete_lane : ℕ → Tables → Tables
  complete_lane lane t = record t {
    complete = setdefault t.complete (row.complete_uid lane) row.cycle;
  }

  -- `left` lanes from `lane` on.
  unfoldable pub retire_lanes : ℕ → ℕ → Tables → Tables
  retire_lanes zero lane t = t
  retire_lanes (suc left) lane t =
      let uid = row.retire_uid lane in
      retire_lanes left (lane + 1) (record t {
        committed = t.committed ++ (uid ∷ []);
        retire = update t.retire uid (some row.cycle);
      })

  unfoldable pub count_held : Tables → Tables
  count_held t =
      let predictor_hold = not (row.bp_fetch_stall == 0 && row.bp_decode_stall == 0) in
      let control_hold = not (row.control_flush == 0 && row.control_redirect == 0) in
      if not (row.fetch_valid == 0) && row.fetch_fire == 0
      then record t {
        held_cycles = t.held_cycles + 1;
        backend_held_cycles =
            if not predictor_hold && not control_hold
            then t.backend_held_cycles + 1
            else t.backend_held_cycles;
      }
      else t

  -- What a row adds to the tables before its held cycle is counted.
  unfoldable pub note_row : Tables → Tables
  note_row t =
      let counted = record t { total_cycles = t.total_cycles + 1 } in
      let fetched = over_lanes row.fetch_valid fetch_lane counted in
      let queued = over_lanes row.queue_valid queue_lane fetched in
      let issued = over_lanes row.issue_valid issue_lane queued in
      let completed = over_lanes row.complete_valid complete_lane issued in
      retire_lanes row.retire_count 0
        (record completed { actual_retired = completed.actual_retired + row.retire_count })

  abbrev fetches : Bool
  fetches = has_lane row.fetch_valid 0 || (has_lane row.fetch_valid 1 || has_lane row.fetch_valid 2)

  unfoldable pub read_row : Tables → Result LoadError Tables
  read_row t =
      if fetches && ltb row.cycle t.backend_held_cycles
      then err below_zero
      else if ltb 3 row.retire_count
      then err missing_column
      else ok (count_held (note_row t))

unfoldable pub read_rows : List TraceRow → Tables → Result LoadError Tables
read_rows [] t = ok t
read_rows (row ∷ rows) t = read_row row t >>= read_rows rows
