-- ===== src/ThreeLane/Labels.antt =====
-- The texts that tools/pipeline_trace_3p.py prints of a row: its stages, what blocks it and its stalls,
-- and the window of rows round the anchor.
use open_rv.Prelude.{
  ℕ, ◌-◌, ◌*◌, ◌/◌, ◌%◌, ◌^◌, Bool, true, false, not, ◌&&◌, ◌||◌, Option, none, some, List, [], ◌∷◌,
  ◌++◌, ltb, leb, ◌==◌, if◌then◌else◌, length, take, drop, replicate, get_elem?, get_or, codes,
}
use open_rv.Text.{Text, text_eq, format_hex, format_decimal, join_commas}
use open_rv.PipelineTrace.{has_bit}
use open_rv.Signposts.Render.{join}
use open_rv.ThreeLane.Tables.{
  Schema, v1, v2, Stage, fetch, decode, queue, issue, complete, retire, stages_for_schema,
  block_reasons, pipe_names,
}
use open_rv.ThreeLane.{Slot, Row, row_cell, is_valid}
use open_rv.ThreeLane.Counts.{is_set, candidate_pipe}

abbrev is_stage : Stage → Stage → Bool
is_stage fetch fetch = true
is_stage decode decode = true
is_stage queue queue = true
is_stage issue issue = true
is_stage complete complete = true
is_stage retire retire = true
is_stage _ _ = false

-- `f"{uid:x}@{pc & 0xffff:04x}"`
unfoldable pub slot_text : Slot → Text
slot_text slot = format_hex 1 slot.uid ++ (b'@' ∷ format_hex 4 (slot.pc % 0x10000))

unfoldable valid_texts : Row → Stage → List Slot → List Text
unfolding slot_text
valid_texts row stage [] = []
valid_texts row stage (slot ∷ slots) =
    let rest = valid_texts row stage slots in
    if is_stage slot.stage stage && is_valid row.cells slot then slot_text slot ∷ rest else rest

abbrev join_or_dash : Text → List Text → Text
join_or_dash separator [] = codes "-"
join_or_dash separator (text ∷ texts) = join separator (text ∷ texts)

unfoldable pub stage_text : Row → Stage → Text
unfolding valid_texts
stage_text row stage = join_or_dash (codes "/") (valid_texts row stage row.slots)

-- `.upper()` of ASCII letters.
abbrev upper_char : ℕ → ℕ
upper_char c = if leb b'a' c && leb c b'z' then c - 32 else c

abbrev upper : Text → Text
upper [] = []
upper (c ∷ cs) = upper_char c ∷ upper cs

abbrev reason_or : ℕ → Option Text → Text
reason_or reason none = codes "reason_" ++ format_decimal reason
reason_or reason (some name) = name

unfoldable lane_value : Row → Text → ℕ → ℕ
lane_value row name lane = row_cell row name / 2 ^ (lane * 5) % 32

-- The slot of the dispatch queue at a lane, of which every loaded row of the second format has one.
abbrev queued : ℕ → List Slot → Option Slot
queued lane [] = none
queued lane (slot ∷ slots) =
    let rest = queued lane slots in
    if is_stage slot.stage queue && slot.lane == lane then some slot else rest

abbrev queued_text : Option Slot → Text
queued_text none = []
queued_text (some slot) = slot_text slot

abbrev if_text : Bool → Text → List Text
if_text true text = text ∷ []
if_text false text = []

unfoldable block_details : Row → Text → ℕ → List Text
unfolding lane_value
block_details row name lane =
    if_text (has_bit (row_cell row (codes "raw_rs1")) lane)
      (codes "rs1=x" ++ format_decimal (lane_value row (codes "candidate_rs1") lane))
    ++ (if_text (has_bit (row_cell row (codes "raw_rs2")) lane)
          (codes "rs2=x" ++ format_decimal (lane_value row (codes "candidate_rs2") lane))
        ++ if_text (text_eq (take 3 name) (codes "WAW"))
            (codes "rd=x" ++ format_decimal (lane_value row (codes "candidate_rd") lane)))

abbrev suffix_of : List Text → Text
suffix_of [] = []
suffix_of (detail ∷ details) = b'(' ∷ (join_commas (detail ∷ details) ++ codes ")")

unfoldable blocked_text : Row → Text → ℕ → Text
unfolding block_details candidate_pipe slot_text
blocked_text row name lane =
    if not (ltb lane 3)
    then codes "BLOCK=" ++ (name ++ codes "@Q?")
    else codes "BLOCK="
      ++ (name
          ++ (codes "@Q"
              ++ (format_decimal lane
                  ++ (b':'
                      ∷ (queued_text (queued lane row.slots)
                          ++ (b'/'
                              ∷ (get_or pipe_names (candidate_pipe row lane) (codes "?")
                                  ++ suffix_of (block_details row name lane))))))))

abbrev block_of : Row → Schema → Option Text
block_of row v1 = none
block_of row v2 =
    let reason = row_cell row (codes "block_reason") in
    if reason == 0
    then none
    else some (
        blocked_text row (upper (reason_or reason (get_elem? block_reasons reason)))
          (row_cell row (codes "block_lane")))

unfoldable pub block_text : Row → Option Text
unfolding blocked_text
block_text row = block_of row row.schema

abbrev text_list : Option Text → List Text
text_list none = []
text_list (some text) = text ∷ []

-- `f"{label}={value:x}"` of a value that is not 0.
abbrev value_label : Row → Text → Text → List Text
value_label row label name =
    if_text (is_set row name) (label ++ (b'=' ∷ format_hex 1 (row_cell row name)))

abbrev wait_label : Row → Text → Text → Text → List Text
wait_label row label valid ready = if_text (is_set row valid && not (is_set row ready)) label

unfoldable request_label : Row → Text
request_label row =
    let target =
      format_decimal (row_cell row (codes "mem_req_tag"))
      ++ (codes "]@" ++ format_hex 1 (row_cell row (codes "mem_req_addr"))) in
    if is_set row (codes "mem_write")
    then codes "MEMW[t"
      ++ (target
          ++ (b'='
              ∷ (format_hex 1 (row_cell row (codes "mem_req_wdata"))
                  ++ (b'/' ∷ format_hex 2 (row_cell row (codes "mem_req_wstrb"))))))
    else codes "MEMR[t" ++ target

unfoldable write_label : Row → ℕ → List Text
write_label row lane = if_text (has_bit (row_cell row (codes "retire_gpr_write")) lane) (
    codes "WB"
    ++ (format_decimal lane
        ++ (codes "=x"
            ++ (format_decimal (row_cell row (codes "retire_gpr_rd") / 2 ^ (lane * 5) % 32)
                ++ (b':'
                    ∷ format_hex 1
                        (row_cell row (codes "retire_gpr_data") / 2 ^ (lane * 64) % 2 ^ 64))))))

-- The labels of a trace with the columns of the data.
unfoldable data_labels : Row → List Text
unfolding request_label write_label
data_labels row =
    if_text (is_set row (codes "mem_req_valid") && is_set row (codes "mem_req_ready"))
      (request_label row)
    ++ (if_text (is_set row (codes "mem_resp_valid") && is_set row (codes "mem_resp_ready")) (
          codes "MEMRESP[t"
          ++ (format_decimal (row_cell row (codes "mem_resp_tag"))
              ++ (codes "]=" ++ format_hex 1 (row_cell row (codes "mem_resp_rdata")))))
        ++ (write_label row 0 ++ (write_label row 1 ++ write_label row 2)))

abbrev if_data : Bool → List Text → List Text
if_data true labels = labels
if_data false labels = []

unfoldable pub stall_labels : Row → Text
unfolding block_text data_labels
stall_labels row = join_or_dash (codes "+") (
    text_list (block_text row)
    ++ (value_label row (codes "RAW") (codes "raw")
        ++ (value_label row (codes "WAW") (codes "waw")
            ++ (value_label row (codes "RPORT") (codes "read_port")
                ++ (if_text (is_set row (codes "barrier")) (codes "BARRIER")
                    ++ (if_text
                          (is_set row (codes "bp_fetch_stall")
                            || is_set row (codes "bp_decode_stall"))
                          (codes "BPSTALL")
                        ++ (if_text (is_set row (codes "redirect")) (codes "REDIRECT")
                            ++ (wait_label row (codes "IF_REQ_WAIT") (codes "fetch_req_valid")
                                  (codes "fetch_req_ready")
                                ++ (wait_label row (codes "LSU_REQ_WAIT") (codes "mem_req_valid")
                                      (codes "mem_req_ready")
                                    ++ (if_text (is_set row (codes "lsu_order_block"))
                                          (codes "LSU_ORDER")
                                        ++ (wait_label row (codes "NOISSUE") (codes "dispatch_q")
                                              (codes "issue_valid")
                                            ++ if_data (is_set row (codes "data_fields_present"))
                                                (data_labels row))))))))))))

abbrev stage_letter : Stage → Text
stage_letter fetch = codes "F"
stage_letter decode = codes "D"
stage_letter queue = codes "Q"
stage_letter issue = codes "I"
stage_letter complete = codes "C"
stage_letter retire = codes "R"

-- `f"{text:<17}"` and `f"{number:5d}"`
abbrev padded : Text → Text
padded text = text ++ replicate (17 - length text) b' '

abbrev right_aligned : ℕ → Text
right_aligned number = let text = format_decimal number in replicate (5 - length text) b' ' ++ text

abbrev stage_headers : List Stage → List Text
stage_headers [] = []
stage_headers (stage ∷ stages) = padded (stage_letter stage) ∷ stage_headers stages

unfoldable stage_fields : Row → List Stage → List Text
unfolding stage_text
stage_fields row [] = []
stage_fields row (stage ∷ stages) =
    padded (take 17 (stage_text row stage)) ∷ stage_fields row stages

unfoldable window_line : List Stage → Row → Text
unfolding stage_fields stall_labels
window_line stages row =
    codes "  "
    ++ (right_aligned (row_cell row (codes "cycle"))
        ++ (codes " | "
            ++ (join (codes " | ") (stage_fields row stages)
                ++ (codes " | "
                    ++ (format_decimal (row_cell row (codes "dispatch_q"))
                        ++ (b'/'
                            ∷ (format_decimal (row_cell row (codes "retire_q"))
                                ++ (codes "   | " ++ stall_labels row))))))))

unfoldable window_lines : List Stage → List Row → List Text
unfolding window_line
window_lines stages [] = []
window_lines stages (row ∷ rows) = window_line stages row ∷ window_lines stages rows

-- `window` on rows of the schema.
unfoldable pub window : Schema → List Row → ℕ → ℕ → Text
unfolding window_lines
window schema rows start count =
    let stages = stages_for_schema schema in
    join (10 ∷ []) (
      []
      ∷ codes "PIPELINE WINDOW"
      ∷ (codes "  cyc | "
          ++ (join (codes " | ") (stage_headers stages) ++ codes " | dq/rq | stalls"))
      ∷ window_lines stages (take count (drop start rows)))
