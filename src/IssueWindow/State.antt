-- ===== src/IssueWindow/State.antt =====
-- The arguments and the local variables of `schedule` in tools/issue_window_experiment.py.
-- `mem_active` counts memory instructions between issue and completion, so its subtraction on ℕ is
-- the source's.
use open_rv.Prelude.{ℕ, Bool, ◌&&◌, ◌||◌, List, ◌==◌, if◌then◌else◌}
use open_rv.IssueWindow.{DynamicInstruction, is_branch, is_jump}

pub data Policy : Type 0 where
  strict window : Policy

-- The arguments of `schedule`.
pub record Config : Type 0 where
  pub inst : ℕ → DynamicInstruction
  pub count : ℕ
  pub release : ℕ → ℕ
  pub policy : Policy
  pub capacity : ℕ
  pub pausable_feed : Bool
  pub free_perfect_branches : Bool
  pub free_perfect_jumps : Bool

-- The local variables of `schedule`.
pub record State : Type 0 where
  pub admitted : ℕ → Bool
  pub issued : ℕ → Bool
  pub completed : ℕ → Bool
  pub retired : ℕ → Bool
  pub issue_cycle : ℕ → ℕ
  pub complete_cycle : ℕ → ℕ
  pub completion_heap : List (ℕ × ℕ)
  pub next_admit : ℕ
  pub retire_head : ℕ
  pub cycle : ℕ
  pub feed_clock : ℕ
  pub issue_slots : ℕ
  pub no_issue_cycles : ℕ
  pub window_full_cycles : ℕ
  pub max_occupancy : ℕ
  pub mem_active : ℕ
  pub skipped_oldest_cycles : ℕ
  pub max_skip_distance : ℕ
  pub feed_stall_cycles : ℕ
  pub free_branches : ℕ
  pub free_jumps : ℕ

-- `array[index] = value`
abbrev pub update {ℓ} : {A : Type ℓ} → (ℕ → A) → ℕ → A → ℕ → A
update f index value j = if j == index then value else f j

module _ (g : Config) where
  unfoldable pub is_free_control : ℕ → Bool
  is_free_control index =
      (g.free_perfect_branches && is_branch (g.inst index))
      || (g.free_perfect_jumps && is_jump (g.inst index))
