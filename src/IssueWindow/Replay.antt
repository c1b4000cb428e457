-- ===== src/IssueWindow/Replay.antt =====
-- How `main` of tools/issue_window_experiment.py replays a loaded trace: `monotonic_release`, and the
-- call of `schedule` with its `min(releases)`.
pub mod Release
pub mod Operands
use mathlib.Core.Option as Opt
use open_rv.Prelude.{
  ℕ, zero, suc, max, min, Bool, true, false, Option, none, some, List, [], ◌∷◌, map, length, get_or,
}
use open_rv.IssueWindow.{DynamicInstruction}
use open_rv.IssueWindow.State.{Policy, strict, window, Config}
use open_rv.IssueWindow.Schedule.{Outcome, schedule}

-- `previous` starts below every value, which 0 is among natural numbers.
unfoldable pub monotonic_from : ℕ → (DynamicInstruction → ℕ) → List DynamicInstruction → List ℕ
monotonic_from previous field [] = []
monotonic_from previous field (instruction ∷ rest) =
    let next = max previous (field instruction) in next ∷ monotonic_from next field rest

unfoldable pub monotonic_release : (DynamicInstruction → ℕ) → List DynamicInstruction → List ℕ
monotonic_release field instructions = monotonic_from 0 field instructions

-- `min`, which raises on no values.
unfoldable pub minimum : List ℕ → Option ℕ
minimum [] = none
minimum (x ∷ xs) = elim (minimum xs) [ none ↦ some x | some m ↦ some (min x m) ]

-- Stands behind the end of the list, where `schedule` reads nothing.
abbrev blank : DynamicInstruction
blank = record {
  uid = 0;
  pc = 0;
  bits = 0;
  uses_rs1 = false;
  uses_rs2 = false;
  rs1 = 0;
  rs2 = 0;
  writes_rd = false;
  rd = 0;
  observed_release = 0;
  intrinsic_release = 0;
  actual_issue = 0;
  actual_complete = 0;
  actual_retire = 0;
  actual_pipe = 0;
  deps = [];
  previous_mem = none;
}

-- The options of the command line.
pub record Options : Type 0 where
  pub capacity : ℕ
  pub free_perfect_branches : Bool
  pub free_perfect_jumps : Bool

abbrev pub config_of : Options → List DynamicInstruction → List ℕ → Policy → Bool → Config
config_of options instructions releases policy pausable_feed = record {
  inst = λ i. get_or instructions i blank;
  count = length instructions;
  release = λ i. get_or releases i 0;
  policy = policy;
  capacity = options.capacity;
  pausable_feed = pausable_feed;
  free_perfect_branches = options.free_perfect_branches;
  free_perfect_jumps = options.free_perfect_jumps;
}

-- The two feeds of `main`.
pub data Feed : Type 0 where
  observed_feed debackpressured_feed : Feed

abbrev pub release_of : Feed → DynamicInstruction → ℕ
release_of observed_feed instruction = instruction.observed_release
release_of debackpressured_feed instruction = instruction.intrinsic_release

abbrev pub is_pausable : Feed → Bool
is_pausable observed_feed = false
is_pausable debackpressured_feed = true

abbrev pub replay_config : Options → List DynamicInstruction → Feed → Policy → Config
replay_config options instructions feed policy =
    config_of options instructions (monotonic_release (release_of feed) instructions) policy
      (is_pausable feed)

-- One of the four replays, from the minimum of its releases on.
unfoldable pub replay : Options → List DynamicInstruction → Feed → Policy → Option Outcome
replay options instructions feed policy =
    Opt.map (schedule (replay_config options instructions feed policy))
      (minimum (monotonic_release (release_of feed) instructions))
