-- ===== src/ThreeLane/Tables.antt =====
-- The tables of tools/pipeline_trace_3p.py: the columns of its two formats, the stages and the reasons
-- of a blocked lane.
use open_rv.Prelude.{List, [], ◌∷◌, codes}
use open_rv.Text.{Text}

-- `SCHEMAS`
pub data Schema : Type 0 where
  v1 v2 : Schema

pub data Stage : Type 0 where
  fetch decode queue issue complete retire : Stage

abbrev pub mask_field : Stage → Text
mask_field fetch = codes "fetch_valid"
mask_field decode = codes "decode_valid"
mask_field queue = codes "queue_valid"
mask_field issue = codes "issue_valid"
mask_field complete = codes "complete_valid"
mask_field retire = codes "retire_valid"

-- The prefix of a stage among the columns.
abbrev pub prefix : Stage → Text
prefix fetch = codes "f"
prefix decode = codes "d"
prefix queue = codes "q"
prefix issue = codes "i"
prefix complete = codes "c"
prefix retire = codes "r"

abbrev pub stages_for_schema : Schema → List Stage
stages_for_schema v1 = fetch ∷ decode ∷ issue ∷ complete ∷ retire ∷ []
stages_for_schema v2 = fetch ∷ decode ∷ queue ∷ issue ∷ complete ∷ retire ∷ []

abbrev pub base_hex_fields : List Text
base_hex_fields =
    codes "fetch_valid"
    ∷ codes "fetch_ready"
    ∷ codes "fetch_fire"
    ∷ codes "decode_valid"
    ∷ codes "decode_ready"
    ∷ codes "decode_fire"
    ∷ codes "issue_valid"
    ∷ codes "complete_valid"
    ∷ codes "retire_valid"
    ∷ codes "raw"
    ∷ codes "waw"
    ∷ codes "read_port"
    ∷ codes "write_busy"
    ∷ codes "stall_causes"
    ∷ []

abbrev pub base_dec_fields : List Text
base_dec_fields =
    codes "cycle"
    ∷ codes "retire_count"
    ∷ codes "dispatch_q"
    ∷ codes "retire_q"
    ∷ codes "barrier"
    ∷ codes "bp_present"
    ∷ codes "bp_allocate"
    ∷ codes "bp_taken"
    ∷ codes "bp_fetch_stall"
    ∷ codes "bp_decode_stall"
    ∷ codes "redirect"
    ∷ codes "fetch_req_valid"
    ∷ codes "fetch_req_ready"
    ∷ codes "fetch_resp_valid"
    ∷ codes "axi_arvalid"
    ∷ codes "axi_arready"
    ∷ []

abbrev pub v2_hex_fields : List Text
v2_hex_fields =
    codes "queue_valid"
    ∷ codes "candidate_fire"
    ∷ codes "candidate_hazard_free"
    ∷ codes "candidate_pipe"
    ∷ codes "pipe_ready"
    ∷ codes "barrier_allow"
    ∷ codes "raw_existing"
    ∷ codes "raw_bundle"
    ∷ codes "raw_completed"
    ∷ codes "raw_rs1"
    ∷ codes "raw_rs2"
    ∷ codes "waw_bundle"
    ∷ codes "waw_completed"
    ∷ codes "candidate_uses_rs1"
    ∷ codes "candidate_uses_rs2"
    ∷ codes "candidate_reg_write"
    ∷ codes "candidate_rs1"
    ∷ codes "candidate_rs2"
    ∷ codes "candidate_rd"
    ∷ codes "queue_retire_valid"
    ∷ codes "completed_entries"
    ∷ codes "fetch_line_valid"
    ∷ codes "fetch_pending"
    ∷ codes "lsu_slots"
    ∷ codes "lsu_sent"
    ∷ []

abbrev pub v2_dec_fields : List Text
v2_dec_fields =
    codes "allocation_ready"
    ∷ codes "block_lane"
    ∷ codes "block_reason"
    ∷ codes "control_flush"
    ∷ codes "control_redirect"
    ∷ codes "fetch_bus_q"
    ∷ codes "fetch_consume_hit"
    ∷ codes "fetch_follow_hit"
    ∷ codes "fetch_active"
    ∷ codes "mem_req_valid"
    ∷ codes "mem_req_ready"
    ∷ codes "mem_resp_valid"
    ∷ codes "mem_resp_ready"
    ∷ codes "mem_write"
    ∷ codes "lsu_store_inflight"
    ∷ codes "lsu_order_block"
    ∷ []

abbrev pub v2_optional_hex_fields : List Text
v2_optional_hex_fields =
    codes "retire_gpr_write"
    ∷ codes "retire_gpr_rd"
    ∷ codes "retire_gpr_data"
    ∷ codes "mem_req_tag"
    ∷ codes "mem_req_addr"
    ∷ codes "mem_req_wdata"
    ∷ codes "mem_req_wstrb"
    ∷ codes "mem_resp_tag"
    ∷ codes "mem_resp_rdata"
    ∷ []

abbrev pub v2_optional_dec_fields : List Text
v2_optional_dec_fields =
    codes "window_unissued"
    ∷ codes "window_operand_ready"
    ∷ codes "window_eligible"
    ∷ codes "window_raw_block"
    ∷ codes "window_hard_block"
    ∷ codes "window_mem_order_block"
    ∷ codes "window_selected"
    ∷ codes "window_issued"
    ∷ []

-- `BLOCK_REASONS`, in the order of the reasons from 0 on.
abbrev pub block_reasons : List Text
block_reasons =
    codes "none"
    ∷ codes "raw_pending"
    ∷ codes "raw_bundle"
    ∷ codes "raw_completed"
    ∷ codes "waw_pending"
    ∷ codes "waw_bundle"
    ∷ codes "waw_completed"
    ∷ codes "read_port"
    ∷ codes "barrier"
    ∷ codes "retire_capacity"
    ∷ codes "pipe_conflict"
    ∷ codes "pipe_busy"
    ∷ codes "invalid_pipe"
    ∷ codes "branch_redirect"
    ∷ codes "unknown"
    ∷ []

abbrev pub pipe_names : List Text
pipe_names = codes "EX0" ∷ codes "EX1" ∷ codes "MEM" ∷ codes "INVALID" ∷ []
