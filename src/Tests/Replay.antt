-- ===== src/Tests/Replay.antt =====
-- The replay of tools/issue_window_experiment.py on a trace of three instructions.
use open_rv.Prelude.{
  ℕ, zero, suc, ◌+◌, ◌-◌, ◌*◌, ◌≤◌, max, ◌⊎◌, ◌≡◌, refl, Bool, true, false, Option, none, some,
  List, [], ◌∷◌, arith,
}
use open_rv.IssueWindow.{
  DynamicInstruction, opcode, is_mem, is_store, is_branch, is_jump, is_system_or_fence, is_hard,
  is_persistent_hard, is_m, pipe_options, latency, contains, first_free, assign, pipe_assignment,
}
use open_rv.IssueWindow.State.{Config, State, window, is_free_control}
use open_rv.IssueWindow.Choose.{
  range, filter, combinations, tuple_lt, any_completed_missing, mem_waits, indices, ready,
  cutoff_from, barrier_cutoff, strict_candidates, strict_choice, any_younger, breaks_group, better,
  best_of, window_choice, unissued, choose_by, choose,
}
use open_rv.IssueWindow.Schedule.{
  Outcome, finished, no_progress, out_of_fuel, heappush, maximum, retire, complete, drain,
  complete_store, admit_free, admit, feed_blocked, issue_one, issue_all, first_or, insert_index,
  sort_indices, issue, note_occupancy, tick, round, start, loop, schedule,
}
use open_rv.IssueWindow.Pipes.{IsAssignment, pipe_assignment_decides}
use open_rv.IssueWindow.Choose.Choice.{IsGroup, IsEligible, choose-IsGroup}
use open_rv.IssueWindow.Schedule.Order.{IsAfter}
use open_rv.IssueWindow.Schedule.Ends.{
  schedule_tally, schedule_terminates, schedule_completes, schedule_in_order,
}

abbrev instruction : ℕ → ℕ → List ℕ → Option ℕ → DynamicInstruction
instruction bits pipe deps previous_mem = record {
  uid = 0;
  pc = 0x1000;
  bits = bits;
  uses_rs1 = true;
  uses_rs2 = false;
  rs1 = 1;
  rs2 = 0;
  writes_rd = true;
  rd = 1;
  observed_release = 0;
  intrinsic_release = 0;
  actual_issue = 4;
  actual_complete = 6;
  actual_retire = 7;
  actual_pipe = pipe;
  deps = deps;
  previous_mem = previous_mem;
}

-- A load, an addition that waits for it, and a store behind both.
abbrev trace : ℕ → DynamicInstruction
trace zero = instruction 0x03 2 [] none
trace (suc zero) = instruction 0x33 0 (0 ∷ []) none
trace (suc (suc i)) = instruction 0x23 2 (1 ∷ []) (some 0)

abbrev config : Config
config = record {
  inst = trace;
  count = 3;
  release = λ i. 0;
  policy = window;
  capacity = 4;
  pausable_feed = false;
  free_perfect_branches = false;
  free_perfect_jumps = false;
}

abbrev final : Outcome → State
final (finished s) = s
final (no_progress s) = s
final out_of_fuel = start config 0

abbrev last : State
last = final (schedule config 0)

abbrev is_finished : Outcome → Bool
is_finished (finished s) = true
is_finished (no_progress s) = false
is_finished out_of_fuel = false

finished_final : (o : Outcome) → is_finished o ≡ true → o ≡ finished (final o)
finished_final (finished s) h = refl
finished_final (no_progress s) h = cc
finished_final out_of_fuel h = cc

finishes : is_finished (schedule config 0) ≡ true
unfolding opcode is_mem is_store is_branch is_jump is_system_or_fence is_hard is_persistent_hard
    is_m pipe_options latency contains first_free assign pipe_assignment is_free_control range
    filter combinations tuple_lt any_completed_missing mem_waits indices ready cutoff_from
    barrier_cutoff strict_candidates strict_choice any_younger breaks_group better best_of
    window_choice unissued choose_by choose heappush maximum retire complete drain complete_store
    admit_free admit feed_blocked issue_one issue_all first_or insert_index sort_indices issue
    note_occupancy tick round start loop schedule
finishes = refl

schedule-config : schedule config 0 ≡ finished last
schedule-config = finished_final (schedule config 0) finishes

schedule_terminates_example :
    (s : State) × (((schedule config 0 ≡ finished s) × (s.cycle - 0 ≤ 10 * max 1 3))
      ⊎ ((schedule config 0 ≡ no_progress s) × (s.cycle ≡ 0 + 10 * max 1 3 + 1)))
schedule_terminates_example = schedule_terminates config 0

schedule_completes_example :
    (last.admitted 2 ≡ true)
    × (last.issued 2 ≡ true)
    × (last.completed 2 ≡ true)
    × (last.retired 2 ≡ true)
    × (last.max_occupancy ≤ 4)
schedule_completes_example = schedule_completes config 0 2 last schedule-config (omega arith)

-- The addition is paid for under the flags of `config`.
addition_paid : is_free_control config 1 ≡ false
unfolding is_free_control
addition_paid = refl

schedule_in_order_example : IsAfter config last 1
schedule_in_order_example =
    schedule_in_order config 0 1 last schedule-config (omega arith) addition_paid

-- The three instructions are in the window, and none has issued.
abbrev admitted_three : State
admitted_three = note_occupancy config (admit config 3 (start config 0))

choose-IsGroup_example :
    IsGroup config (IsEligible config admitted_three) (choose config admitted_three)
choose-IsGroup_example = choose-IsGroup config admitted_three

pipe_assignment_decides_example :
    ((found : List (ℕ × ℕ)) × (pipe_assignment trace (0 ∷ 1 ∷ []) ≡ some found)
      × IsAssignment trace (0 ∷ 1 ∷ []) [] found)
    ⊎ ((pipe_assignment trace (0 ∷ 1 ∷ []) ≡ none)
        × ¬ ((found : List (ℕ × ℕ)) × IsAssignment trace (0 ∷ 1 ∷ []) [] found))
pipe_assignment_decides_example = pipe_assignment_decides trace (0 ∷ 1 ∷ [])

schedule_tally_example : last.issue_slots + (last.free_branches + last.free_jumps) ≡ 3
schedule_tally_example = schedule_tally config 0 last schedule-config
