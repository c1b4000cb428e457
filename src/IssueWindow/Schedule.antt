-- ===== src/IssueWindow/Schedule.antt =====
-- `schedule` of tools/issue_window_experiment.py: one round of its loop as phases over the state,
-- and the loop on fuel.
pub mod Phases
pub mod Order
pub mod Invariant
pub mod Tally
pub mod Ends
use open_rv.Prelude.{
  ℕ, zero, suc, ◌+◌, ◌-◌, ◌*◌, ◌≤◌, max, min, Bool, true, false, not, ◌&&◌, ◌||◌, Option, none,
  some, List, [], ◌∷◌, ◌++◌, map, ltb, leb, ◌==◌, if◌then◌else◌, length, take,
}
use open_rv.IssueWindow.{
  DynamicInstruction, is_mem, is_store, is_branch, is_jump, is_hard, is_persistent_hard, latency,
  contains, pipe_assignment,
}
use open_rv.IssueWindow.State.{Policy, strict, window, Config, State, update, is_free_control}
use open_rv.IssueWindow.Choose.{indices, unissued, choose}

-- `heapq.heappush`: the items stay in the order of the tuples.
unfoldable pub heappush : (ℕ × ℕ) → List (ℕ × ℕ) → List (ℕ × ℕ)
heappush item [] = item ∷ []
heappush (when, index) ((w, i) ∷ heap) =
    if ltb when w || (when == w && leb index i)
    then (when, index) ∷ (w, i) ∷ heap
    else (w, i) ∷ heappush (when, index) heap

unfoldable pub maximum : ℕ → List (ℕ × ℕ) → ℕ
maximum m [] = m
maximum m ((i, _) ∷ rest) = maximum (max m i) rest

module _ (g : Config) where
  -- Retirement: `left` more instructions may retire in this cycle.
  unfoldable pub retire : ℕ → State → State
  retire zero s = s
  retire (suc left) s =
      let index = s.retire_head in
      let s' = record s { retired = update s.retired index true; retire_head = index + 1 } in
      let more = retire left s' in
      if ltb s.retire_head g.count && s.completed s.retire_head
      then if is_hard (g.inst index) && not (is_free_control g index) then s' else more
      else s

  unfoldable pub complete : ℕ → ℕ → State → State
  complete when index s = if s.completed index then s else record s {
    completed = update s.completed index true;
    complete_cycle = update s.complete_cycle index when;
    mem_active = if is_mem (g.inst index) then s.mem_active - 1 else s.mem_active;
  }

  -- The completions that are due, in the order of the heap.
  unfoldable pub drain : List (ℕ × ℕ) → State → State
  unfolding complete
  drain [] s = record s { completion_heap = [] }
  drain ((when, index) ∷ heap) s =
      let more = drain heap (complete when index s) in
      if leb when s.cycle then more else record s { completion_heap = (when, index) ∷ heap }

  -- A posted store completes at the ordered head.
  unfoldable pub complete_store : State → State
  complete_store s =
      let head = s.retire_head in
      if ltb head g.count && (s.issued head && (is_store (g.inst head) && not (s.completed head)))
      then record s {
        completed = update s.completed head true;
        complete_cycle = update s.complete_cycle head s.cycle;
        mem_active = s.mem_active - 1;
      }
      else s

  unfoldable pub admit_free : ℕ → State → State
  admit_free index s =
      if is_free_control g index
      then record s {
        issued = update s.issued index true;
        completed = update s.completed index true;
        issue_cycle = update s.issue_cycle index s.cycle;
        complete_cycle = update s.complete_cycle index s.cycle;
        free_branches = if is_branch (g.inst index) then s.free_branches + 1 else s.free_branches;
        free_jumps = if is_branch (g.inst index) then s.free_jumps else s.free_jumps + 1;
      }
      else s

  -- Admission: `left` more instructions may enter in this cycle.
  unfoldable pub admit : ℕ → State → State
  unfolding admit_free
  admit zero s = s
  admit (suc left) s =
      let index = s.next_admit in
      let s' =
        admit_free index
          (record s { admitted = update s.admitted index true; next_admit = index + 1 }) in
      let more = admit left s' in
      if ltb index g.count
        && (ltb (index - s.retire_head) g.capacity && leb (g.release index) s.feed_clock)
      then more
      else s

  unfoldable pub feed_blocked : State → Bool
  feed_blocked s =
      ltb s.next_admit g.count
      && (leb (g.release s.next_admit) s.feed_clock
          && leb g.capacity (s.next_admit - s.retire_head))

  -- The issue of one chosen instruction.
  unfoldable pub issue_one : ℕ → State → State
  issue_one index s = record s {
    issued = update s.issued index true;
    issue_cycle = update s.issue_cycle index s.cycle;
    mem_active = if is_mem (g.inst index) then s.mem_active + 1 else s.mem_active;
    completion_heap =
        if is_store (g.inst index)
        then s.completion_heap
        else heappush (s.cycle + latency (g.inst index), index) s.completion_heap;
  }

  unfoldable pub issue_all : List ℕ → State → State
  unfolding issue_one
  issue_all [] s = s
  issue_all (index ∷ chosen) s = issue_all chosen (issue_one index s)

  unfoldable pub first_or : ℕ → List ℕ → ℕ
  first_or d [] = d
  first_or d (x ∷ xs) = x

  unfoldable pub insert_index : ℕ → List ℕ → List ℕ
  insert_index i [] = i ∷ []
  insert_index i (j ∷ rest) = if leb i j then i ∷ j ∷ rest else j ∷ insert_index i rest

  -- `sorted(assignment)`
  unfoldable pub sort_indices : List ℕ → List ℕ
  unfolding insert_index
  sort_indices [] = []
  sort_indices (i ∷ rest) = insert_index i (sort_indices rest)

  -- The counters of a cycle that issues, and the issue itself.
  unfoldable pub issue : List (ℕ × ℕ) → State → State
  unfolding first_or maximum sort_indices
  issue [] s =
      if s.next_admit - s.retire_head == 0
      then s
      else record s { no_issue_cycles = s.no_issue_cycles + 1 }
  issue (first ∷ rest) s =
      let chosen = indices (first ∷ rest) in
      let oldest = first_or 0 (unissued g s) in
      let skipped = not (contains chosen oldest) in
      issue_all (sort_indices chosen) (record s {
        issue_slots = s.issue_slots + length chosen;
        skipped_oldest_cycles =
            if skipped then s.skipped_oldest_cycles + 1 else s.skipped_oldest_cycles;
        max_skip_distance =
            if skipped
            then max s.max_skip_distance (maximum 0 (first ∷ rest) - oldest)
            else s.max_skip_distance;
      })

  -- The counters of the occupancy.
  unfoldable pub note_occupancy : State → State
  note_occupancy s = record s {
    max_occupancy = max s.max_occupancy (s.next_admit - s.retire_head);
    window_full_cycles = if feed_blocked s then s.window_full_cycles + 1 else s.window_full_cycles;
  }

  -- The clocks; `blocked` is the test made before the issue.
  unfoldable pub tick : Bool → State → State
  tick blocked s = record s {
    feed_stall_cycles =
        if g.pausable_feed && blocked then s.feed_stall_cycles + 1 else s.feed_stall_cycles;
    feed_clock = if g.pausable_feed && blocked then s.feed_clock else s.feed_clock + 1;
    cycle = s.cycle + 1;
  }

  -- One round of the loop, up to its progress test.
  unfoldable pub round : State → State
  round s =
      let s₁ = retire 3 s in
      let s₂ = drain s₁.completion_heap s₁ in
      let s₃ = admit 3 (complete_store s₂) in
      let s₄ = note_occupancy s₃ in tick (feed_blocked s₃) (issue (choose g s₄) s₄)

  unfoldable pub start : ℕ → State
  start cycle = record {
    admitted = λ i. false;
    issued = λ i. false;
    completed = λ i. false;
    retired = λ i. false;
    issue_cycle = λ i. 0;
    complete_cycle = λ i. 0;
    completion_heap = [];
    next_admit = 0;
    retire_head = 0;
    cycle = cycle;
    feed_clock = cycle;
    issue_slots = 0;
    no_issue_cycles = 0;
    window_full_cycles = 0;
    max_occupancy = 0;
    mem_active = 0;
    skipped_oldest_cycles = 0;
    max_skip_distance = 0;
    feed_stall_cycles = 0;
    free_branches = 0;
    free_jumps = 0;
  }

-- How `schedule` ends: with the final state, or with the `RuntimeError` of a loop that makes no
-- terminating progress. The third is the model's: the fuel ran out.
pub data Outcome : Type 0 where
  finished : State → Outcome
  no_progress : State → Outcome
  out_of_fuel : Outcome

module _ (g : Config) where
  unfoldable pub loop : ℕ → ℕ → State → Outcome
  loop zero start_cycle s = out_of_fuel
  loop (suc fuel) start_cycle s =
      let s' = round g s in
      let more = loop fuel start_cycle s' in
      if not (ltb s.retire_head g.count)
      then finished s
      else if ltb (10 * max 1 g.count) (s'.cycle - start_cycle)
      then no_progress s'
      else more

  -- `schedule` from `cycle = min(releases)` on.
  unfoldable pub schedule : ℕ → Outcome
  schedule cycle = loop (10 * max 1 g.count + 2) cycle (start g cycle)
