-- ===== src/Tests/Loads.antt =====
-- A trace of two rows: a load and an addition that waits for it.
use open_rv.Prelude.{
  ℕ, zero, suc, ◌≤◌, ◌≡◌, ◌⊎◌, refl, Bool, true, false, Option, none, some, List, [], ◌∷◌, ok, err,
  length, get_elem?,
}
use open_rv.IssueWindow.{
  DynamicInstruction, opcode, is_mem, is_store, is_branch, is_jump, is_system_or_fence, is_hard,
  is_persistent_hard, is_m, pipe_options, latency, contains, first_free, assign, pipe_assignment,
}
use open_rv.IssueWindow.Choose.{
  range, filter, combinations, tuple_lt, any_completed_missing, mem_waits, indices, ready,
  cutoff_from, barrier_cutoff, strict_candidates, strict_choice, any_younger, breaks_group, better,
  best_of, window_choice, unissued, choose_by, choose,
}
use open_rv.IssueWindow.State.{State, window, is_free_control}
use open_rv.IssueWindow.Schedule.{
  Outcome, finished, no_progress, out_of_fuel, heappush, maximum, retire, complete, drain,
  complete_store, admit_free, admit, feed_blocked, issue_one, issue_all, first_or, insert_index,
  sort_indices, issue, note_occupancy, tick, round, start, loop, schedule,
}
use open_rv.IssueWindow.Trace.{
  TraceRow, lacks_metadata, packed_reg, over_lanes, fetch_lane, queue_metadata, queue_lane,
  issue_lane, complete_lane, retire_lanes, count_held, note_row, read_row, read_rows,
}
use open_rv.IssueWindow.Trace.Extract.{
  make_instruction, extract, add_dep, link, note, link_all, Stats, stats_of, finish, load_trace,
}
use open_rv.IssueWindow.Trace.Totals.{load_trace_totals}
use open_rv.IssueWindow.Trace.Errors.{is_expected, load_trace_raises}
use open_rv.IssueWindow.Trace.Links.{IsLinked, IsProducer, load_trace-IsLinked}
use open_rv.IssueWindow.Trace.Latest.{IsLatest, accesses}
use open_rv.IssueWindow.Replay.{
  Options, observed_feed, replay, replay_config, monotonic_from, monotonic_release, minimum,
}
use open_rv.IssueWindow.Replay.Release.{IsMaximum, monotonic_release-IsMaximum}
use open_rv.IssueWindow.Replay.Operands.{replay_in_order}

-- Lane 0 holds the load to x1 with number 5, lane 1 the addition of x1 with number 6.
abbrev uid_of : ℕ → ℕ
uid_of zero = 5
uid_of (suc lane) = 6

abbrev bits_of : ℕ → ℕ
bits_of zero = 0x03
bits_of (suc lane) = 0x33

-- Both in one row, where `issued` and `retired` lanes are given.
abbrev trace_row : ℕ → ℕ → ℕ → TraceRow
trace_row cycle issued retired = record {
  cycle = cycle;
  fetch_valid = 3;
  fetch_fire = 0;
  fetch_uid = uid_of;
  queue_valid = 3;
  queue_uid = uid_of;
  queue_pc = λ lane. 0x1000;
  queue_instr = bits_of;
  candidate_uses_rs1 = 2;
  candidate_uses_rs2 = 0;
  candidate_reg_write = 3;
  candidate_rs1 = 0x20;
  candidate_rs2 = 0;
  candidate_rd = 0x41;
  issue_valid = issued;
  issue_uid = uid_of;
  complete_valid = issued;
  complete_uid = uid_of;
  retire_count = retired;
  retire_uid = uid_of;
  bp_fetch_stall = 0;
  bp_decode_stall = 0;
  control_flush = 0;
  control_redirect = 0;
}

abbrev trace_rows : List TraceRow
trace_rows = trace_row 10 1 0 ∷ trace_row 12 2 2 ∷ []

abbrev loaded : ℕ → ℕ → Bool → ℕ → ℕ → ℕ → ℕ → List ℕ → DynamicInstruction
loaded uid bits uses rs1 rd issue pipe deps = record {
  uid = uid;
  pc = 0x1000;
  bits = bits;
  uses_rs1 = uses;
  uses_rs2 = false;
  rs1 = rs1;
  rs2 = 0;
  writes_rd = true;
  rd = rd;
  observed_release = 10;
  intrinsic_release = 10;
  actual_issue = issue;
  actual_complete = issue;
  actual_retire = 12;
  actual_pipe = pipe;
  deps = deps;
  previous_mem = none;
}

abbrev instructions : List DynamicInstruction
instructions = loaded 5 0x03 false 0 1 10 0 [] ∷ loaded 6 0x33 true 1 2 12 1 (0 ∷ []) ∷ []

abbrev stats : Stats
stats = record { cycles = 2; retired = 2; held_cycles = 2; backend_held_cycles = 2 }

trace_rows_load : load_trace trace_rows ≡ ok (instructions, stats)
unfolding load_trace finish stats_of link_all note link add_dep extract make_instruction read_rows
    read_row note_row count_held retire_lanes complete_lane issue_lane queue_lane queue_metadata
    packed_reg fetch_lane over_lanes is_mem
trace_rows_load = refl

load_trace_totals_example :
    (length instructions ≡ stats.retired)
    × (stats.cycles ≡ length trace_rows)
    × stats.backend_held_cycles ≤ stats.held_cycles
    × stats.held_cycles ≤ stats.cycles
load_trace_totals_example = load_trace_totals trace_rows instructions stats trace_rows_load

-- A retirement without its issue.
abbrev lost_rows : List TraceRow
lost_rows = trace_row 10 1 2 ∷ []

lost_rows_raise : load_trace lost_rows ≡ err (lacks_metadata 6)
unfolding load_trace extract make_instruction read_rows read_row note_row count_held retire_lanes
    complete_lane issue_lane queue_lane queue_metadata packed_reg fetch_lane over_lanes is_mem
lost_rows_raise = refl

load_trace_raises_example : is_expected (lacks_metadata 6) ≡ true
load_trace_raises_example = load_trace_raises lost_rows (lacks_metadata 6) lost_rows_raise

abbrev addition : DynamicInstruction
addition = loaded 6 0x33 true 1 2 12 1 (0 ∷ [])

load_trace-IsLinked_example : IsLinked (get_elem? instructions) 1 addition
load_trace-IsLinked_example =
    load_trace-IsLinked trace_rows instructions stats 1 addition trace_rows_load refl

running_maximum : get_elem? (monotonic_release (λ x. x.actual_issue) instructions) 1 ≡ some 12
unfolding monotonic_release monotonic_from
running_maximum = refl

monotonic_release-IsMaximum_example : IsMaximum (λ x. x.actual_issue) instructions 1 12
monotonic_release-IsMaximum_example =
    monotonic_release-IsMaximum (λ x. x.actual_issue) instructions 1 12 running_maximum

abbrev options : Options
options = record { capacity = 4; free_perfect_branches = false; free_perfect_jumps = false }

abbrev final_of : Option Outcome → State
final_of (some (finished s)) = s
final_of (some (no_progress s)) = s
final_of (some out_of_fuel) = start (replay_config options instructions observed_feed window) 0
final_of none = start (replay_config options instructions observed_feed window) 0

abbrev replayed : Option Outcome
replayed = replay options instructions observed_feed window

abbrev is_done : Option Outcome → Bool
is_done (some (finished s)) = true
is_done (some (no_progress s)) = false
is_done (some out_of_fuel) = false
is_done none = false

done_final : (o : Option Outcome) → is_done o ≡ true → o ≡ some (finished (final_of o))
done_final (some (finished s)) h = refl
done_final (some (no_progress s)) h = cc
done_final (some out_of_fuel) h = cc
done_final none h = cc

replay_ends : is_done replayed ≡ true
unfolding replay monotonic_release monotonic_from minimum opcode is_mem is_store is_branch is_jump
    is_system_or_fence is_hard is_persistent_hard is_m pipe_options latency contains first_free
    assign pipe_assignment is_free_control range filter combinations tuple_lt any_completed_missing
    mem_waits indices ready cutoff_from barrier_cutoff strict_candidates strict_choice any_younger
    breaks_group better best_of window_choice unissued choose_by choose heappush maximum retire
    complete drain complete_store admit_free admit feed_blocked issue_one issue_all first_or
    insert_index sort_indices issue note_occupancy tick round start loop schedule
replay_ends = refl

addition_not_free :
    is_free_control (replay_config options instructions observed_feed window) 1 ≡ false
unfolding is_free_control
addition_not_free = refl

replay_in_order_example :
    (IsProducer (get_elem? instructions) 1 true 1 0
        ⊎ IsProducer (get_elem? instructions) 1 false 0 0
      → ((final_of replayed).completed 0 ≡ true)
        × ((final_of replayed).complete_cycle 0 ≤ (final_of replayed).issue_cycle 1))
    × (is_mem addition ≡ true
        → IsLatest (accesses (get_elem? instructions)) 1 0
        → ((final_of replayed).issued 0 ≡ true)
          × ((final_of replayed).issue_cycle 0 ≤ (final_of replayed).issue_cycle 1))
replay_in_order_example =
    replay_in_order trace_rows instructions stats options observed_feed window (final_of replayed) 1
      0 addition trace_rows_load (done_final replayed replay_ends) refl addition_not_free
