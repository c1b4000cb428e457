-- ===== src/ThreeLane/Counts.antt =====
-- What `summary` of tools/pipeline_trace_3p.py counts. The percentages that it prints of the counts are
-- floating point, and are not modelled.
use open_rv.Prelude.{
  ℕ, zero, suc, ◌+◌, ◌-◌, ◌*◌, ◌/◌, ◌%◌, ◌^◌, Bool, true, false, not, ◌&&◌, ◌||◌, List, [], ◌∷◌,
  ◌++◌, ltb, leb, ◌==◌, if◌then◌else◌, length, codes,
}
use open_rv.Text.{Text, text_eq}
use open_rv.ThreeLane.Tables.{Schema, v1, v2, Stage, mask_field, stages_for_schema}
use open_rv.ThreeLane.{Row, row_cell, int_of_bool}

-- `value.bit_count()`, with as much fuel as the value.
unfoldable pub popcount_from : ℕ → ℕ → ℕ
popcount_from zero value = 0
popcount_from (suc fuel) value = value % 2 + popcount_from fuel (value / 2)

abbrev popcount : ℕ → ℕ
popcount value = popcount_from value value

-- `bool(int(row[name]))`
abbrev pub is_set : Row → Text → Bool
is_set row name = not (row_cell row name == 0)

unfoldable pub candidate_pipe : Row → ℕ → ℕ
candidate_pipe row lane = row_cell row (codes "candidate_pipe") / 2 ^ (lane * 2) % 4

abbrev is_head_incomplete : Row → Bool
is_head_incomplete row =
    is_set row (codes "retire_q") && not (row_cell row (codes "queue_retire_valid") % 2 == 1)

-- What a row adds to the `Counter`, name by name.
abbrev pub observations : Row → List (Text × Bool)
observations row =
    (codes "frontend_empty", row_cell row (codes "fetch_valid") == 0)
    ∷ (
      codes "frontend_held",
      is_set row (codes "fetch_valid") && not (is_set row (codes "fetch_fire")),
    )
    ∷ (codes "dispatch_empty", row_cell row (codes "dispatch_q") == 0)
    ∷ (
      codes "queued_no_issue",
      is_set row (codes "dispatch_q") && not (is_set row (codes "issue_valid")),
    )
    ∷ (codes "queued_raw", is_set row (codes "dispatch_q") && is_set row (codes "raw"))
    ∷ (codes "queued_waw", is_set row (codes "dispatch_q") && is_set row (codes "waw"))
    ∷ (codes "queued_read_port", is_set row (codes "dispatch_q") && is_set row (codes "read_port"))
    ∷ (codes "queued_barrier", is_set row (codes "dispatch_q") && is_set row (codes "barrier"))
    ∷ (
      codes "retire_wait",
      is_set row (codes "retire_q") && not (is_set row (codes "retire_valid")),
    )
    ∷ (
      codes "bp_stall",
      is_set row (codes "bp_fetch_stall") || is_set row (codes "bp_decode_stall"),
    )
    ∷ (codes "redirect", is_set row (codes "redirect"))
    ∷ (
      codes "if_request_wait",
      is_set row (codes "fetch_req_valid") && not (is_set row (codes "fetch_req_ready")),
    )
    ∷ []

unfoldable pub v2_observations : Row → List (Text × Bool)
unfolding candidate_pipe
v2_observations row =
    (codes "retire_head_incomplete", is_head_incomplete row)
    ∷ (
      codes "completed_behind_head",
      is_head_incomplete row && is_set row (codes "completed_entries"),
    )
    ∷ (
      codes "lsu_pipe_full",
      row_cell row (codes "block_reason") == 11
          && (ltb (row_cell row (codes "block_lane")) 3
              && candidate_pipe row (row_cell row (codes "block_lane")) == 2),
    )
    ∷ (
      codes "lsu_request_wait",
      is_set row (codes "mem_req_valid") && not (is_set row (codes "mem_req_ready")),
    )
    ∷ (codes "lsu_outstanding", is_set row (codes "lsu_sent"))
    ∷ (codes "lsu_order_block", is_set row (codes "lsu_order_block"))
    ∷ []

abbrev pub window_observations : Row → List (Text × Bool)
window_observations row =
    (codes "window_live", is_set row (codes "window_unissued"))
    ∷ (codes "window_full", leb 16 (row_cell row (codes "dispatch_q")))
    ∷ (
      codes "window_no_eligible",
      is_set row (codes "window_unissued") && not (is_set row (codes "window_eligible")),
    )
    ∷ (codes "window_raw_blocked", is_set row (codes "window_raw_block"))
    ∷ (codes "window_hard_blocked", is_set row (codes "window_hard_block"))
    ∷ (codes "window_mem_order_blocked", is_set row (codes "window_mem_order_block"))
    ∷ []

-- The one cause of an empty frontend.
abbrev pub frontend_cause : Bool → Bool → Bool → Bool → Text
frontend_cause control stalled hit waiting =
    if control
    then codes "frontend_control"
    else if stalled
    then codes "frontend_bp_stall"
    else if not hit && waiting
    then codes "frontend_refill_wait"
    else if not hit
    then codes "frontend_no_line"
    else codes "frontend_other_empty"

abbrev pub if_empty : Bool → Text → List (Text × Bool)
if_empty true cause = (cause, true) ∷ []
if_empty false cause = []

abbrev pub frontend_observations : Row → List (Text × Bool)
frontend_observations row = if_empty (row_cell row (codes "fetch_valid") == 0) (
    frontend_cause (is_set row (codes "control_flush") || is_set row (codes "control_redirect"))
      (is_set row (codes "bp_fetch_stall")) (is_set row (codes "fetch_consume_hit"))
      (is_set row (codes "fetch_pending") || is_set row (codes "fetch_bus_q")))

abbrev pub if_present : Bool → List (Text × Bool) → List (Text × Bool)
if_present true observed = observed
if_present false observed = []

unfoldable pub observed : Schema → Row → List (Text × Bool)
unfolding v2_observations
observed v1 row = observations row
observed v2 row =
    observations row
    ++ (v2_observations row
        ++ (if_present (is_set row (codes "window_fields_present")) (window_observations row)
            ++ frontend_observations row))

abbrev pub counted : Text → List (Text × Bool) → ℕ
counted name [] = 0
counted name ((other, holds) ∷ rest) =
    let later = counted name rest in if text_eq other name then int_of_bool holds + later else later

-- `counts[name]` after the rows.
unfoldable pub counts : Schema → List Row → Text → ℕ
unfolding observed
counts schema [] name = 0
counts schema (row ∷ rows) name = counted name (observed schema row) + counts schema rows name

abbrev pub sum_of : (Row → ℕ) → List Row → ℕ
sum_of value [] = 0
sum_of value (row ∷ rows) = value row + sum_of value rows

abbrev pub is_v2 : Schema → Bool
is_v2 v1 = false
is_v2 v2 = true

-- `reason_counts[reason]`
unfoldable pub reason_counts : Schema → List Row → ℕ → ℕ
reason_counts schema rows reason =
    sum_of (λ row. int_of_bool (is_v2 schema && row_cell row (codes "block_reason") == reason)) rows

pub record StageCount : Type 0 where
  pub stage : Stage
  pub active : ℕ
  pub slots : ℕ

abbrev stage_counts : List Row → List Stage → List StageCount
stage_counts rows [] = []
stage_counts rows (stage ∷ stages) =
    record {
      stage = stage;
      active = sum_of (λ row. int_of_bool (is_set row (mask_field stage))) rows;
      slots = sum_of (λ row. popcount (row_cell row (mask_field stage))) rows;
    }
    ∷ stage_counts rows stages

-- The numbers of a report; those of `averages` are divided by the cycles.
pub record Summary : Type 0 where
  pub cycles : ℕ
  pub retired : ℕ
  pub stages : List StageCount
  pub counts : Text → ℕ
  pub reasons : ℕ → ℕ
  pub blocked : ℕ
  pub averages : Text → ℕ

unfoldable pub summary : Schema → List Row → Summary
unfolding counts reason_counts popcount_from
summary schema rows = record {
  cycles = length rows;
  retired = sum_of (λ row. row_cell row (codes "retire_count")) rows;
  stages = stage_counts rows (stages_for_schema schema);
  counts = counts schema rows;
  reasons = reason_counts schema rows;
  blocked = length rows - reason_counts schema rows 0;
  averages = λ name. sum_of (λ row. row_cell row name) rows;
}
