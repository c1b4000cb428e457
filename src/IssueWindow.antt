-- ===== src/IssueWindow.antt =====
-- tools/issue_window_experiment.py: the instruction properties, `pipe_assignment` and the trace
-- replay `schedule`. An array over the instructions is a function of the index, and `heapq` is the
-- list of its items in order. Cycle numbers are natural.
pub mod Pipes
pub mod State
pub mod Choose
pub mod Schedule
pub mod Trace
pub mod Replay
use open_rv.Prelude.{
  ℕ, zero, suc, ◌+◌, ◌-◌, ◌*◌, ◌/◌, ◌%◌, ◌^◌, max, min, Bool, true, false, not, ◌&&◌, ◌||◌, Option,
  none, some, List, [], ◌∷◌, ◌++◌, map, ltb, leb, ◌==◌, if◌then◌else◌, length, get_or, take,
}

pub record DynamicInstruction : Type 0 where
  pub uid : ℕ
  pub pc : ℕ
  pub bits : ℕ
  pub uses_rs1 : Bool
  pub uses_rs2 : Bool
  pub rs1 : ℕ
  pub rs2 : ℕ
  pub writes_rd : Bool
  pub rd : ℕ
  pub observed_release : ℕ
  pub intrinsic_release : ℕ
  pub actual_issue : ℕ
  pub actual_complete : ℕ
  pub actual_retire : ℕ
  pub actual_pipe : ℕ
  pub deps : List ℕ
  pub previous_mem : Option ℕ

unfoldable pub opcode : DynamicInstruction → ℕ
opcode i = i.bits % 2 ^ 7

unfoldable pub is_mem : DynamicInstruction → Bool
unfolding opcode
is_mem i = opcode i == 0x03 || (opcode i == 0x23 || opcode i == 0x2f)

unfoldable pub is_store : DynamicInstruction → Bool
unfolding opcode
is_store i = opcode i == 0x23

unfoldable pub is_branch : DynamicInstruction → Bool
unfolding opcode
is_branch i = opcode i == 0x63

unfoldable pub is_jump : DynamicInstruction → Bool
unfolding opcode
is_jump i = opcode i == 0x67 || opcode i == 0x6f

unfoldable pub is_system_or_fence : DynamicInstruction → Bool
unfolding opcode
is_system_or_fence i = opcode i == 0x0f || opcode i == 0x73

unfoldable pub is_hard : DynamicInstruction → Bool
unfolding is_branch is_jump is_system_or_fence
is_hard i = is_branch i || (is_jump i || is_system_or_fence i)

-- Aligned conditional branches resolve early.
unfoldable pub is_persistent_hard : DynamicInstruction → Bool
unfolding is_jump is_system_or_fence
is_persistent_hard i = is_jump i || is_system_or_fence i

unfoldable pub is_m : DynamicInstruction → Bool
unfolding opcode
is_m i = (opcode i == 0x33 || opcode i == 0x3b) && i.bits / 2 ^ 25 % 2 ^ 7 == 1

unfoldable pub pipe_options : DynamicInstruction → List ℕ
unfolding is_mem is_branch is_jump is_system_or_fence is_m
pipe_options i =
    if is_mem i
    then 2 ∷ []
    else if is_branch i || (is_jump i || is_system_or_fence i)
    then 0 ∷ []
    else if is_m i
    then 1 ∷ []
    else 0 ∷ 1 ∷ []

unfoldable pub latency : DynamicInstruction → ℕ
latency i = max 1 (i.actual_complete - i.actual_issue)

unfoldable pub contains : List ℕ → ℕ → Bool
contains [] a = false
contains (x ∷ xs) a = x == a || contains xs a

-- The loop of `assign` over the options of one instruction; `rest` assigns the later positions.
unfoldable pub first_free :
    ℕ → List ℕ → List ℕ → (List ℕ → Option (List (ℕ × ℕ))) → Option (List (ℕ × ℕ))
unfolding contains
first_free index [] used rest = none
first_free index (pipe ∷ options) used rest =
    let later = first_free index options used rest in
    if contains used pipe
    then later
    else elim (rest (pipe ∷ used)) [ none ↦ later | some found ↦ some ((index, pipe) ∷ found) ]

-- `assign` from one position on: the chosen pairs of index and pipe.
unfoldable pub assign : (ℕ → DynamicInstruction) → List ℕ → List ℕ → Option (List (ℕ × ℕ))
unfolding first_free
assign inst [] used = some []
assign inst (index ∷ selected) used =
    first_free index (pipe_options (inst index)) used (λ u. assign inst selected u)

unfoldable pub pipe_assignment : (ℕ → DynamicInstruction) → List ℕ → Option (List (ℕ × ℕ))
unfolding assign
pipe_assignment inst selected = assign inst selected []
