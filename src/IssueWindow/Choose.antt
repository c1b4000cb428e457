-- ===== src/IssueWindow/Choose.antt =====
-- `barrier_cutoff`, `ready` and `choose` of `schedule` in tools/issue_window_experiment.py.
pub mod Choice
use open_rv.Prelude.{
  ℕ, zero, suc, ◌+◌, ◌-◌, ◌*◌, ◌≤◌, max, min, Bool, true, false, not, ◌&&◌, ◌||◌, Option, none,
  some, List, [], ◌∷◌, ◌++◌, map, ltb, leb, ◌==◌, if◌then◌else◌, length, take,
}
use open_rv.IssueWindow.{
  DynamicInstruction, is_mem, is_store, is_branch, is_jump, is_hard, is_persistent_hard, latency,
  contains, pipe_assignment,
}
use open_rv.IssueWindow.State.{Policy, strict, window, Config, State, update}

-- `range(from, from + left)`
unfoldable pub range : ℕ → ℕ → List ℕ
range from zero = []
range from (suc left) = from ∷ range (from + 1) left

unfoldable pub filter : (ℕ → Bool) → List ℕ → List ℕ
filter p [] = []
filter p (x ∷ xs) = let rest = filter p xs in if p x then x ∷ rest else rest

-- `itertools.combinations(items, width)`
unfoldable pub combinations : List ℕ → ℕ → List (List ℕ)
combinations items zero = [] ∷ []
combinations [] (suc width) = []
combinations (x ∷ items) (suc width) =
    map (λ c. x ∷ c) (combinations items width) ++ combinations items (suc width)

-- The order of tuples.
unfoldable pub tuple_lt : List ℕ → List ℕ → Bool
tuple_lt xs [] = false
tuple_lt [] (y ∷ ys) = true
tuple_lt (x ∷ xs) (y ∷ ys) = ltb x y || (x == y && tuple_lt xs ys)

unfoldable pub any_completed_missing : (ℕ → Bool) → List ℕ → Bool
any_completed_missing completed [] = false
any_completed_missing completed (d ∷ deps) =
    not (completed d) || any_completed_missing completed deps

unfoldable pub mem_waits : (ℕ → Bool) → Option ℕ → Bool
mem_waits issued none = false
mem_waits issued (some p) = not (issued p)

unfoldable pub indices : List (ℕ × ℕ) → List ℕ
indices = map (λ (i, _). i)

-- `return assignment` where there is one.
abbrev pub assignment_or : Option (List (ℕ × ℕ)) → List (ℕ × ℕ) → List (ℕ × ℕ)
assignment_or none narrower = narrower
assignment_or (some assignment) narrower = assignment

abbrev pub best_or : Option (List ℕ × List (ℕ × ℕ)) → List (ℕ × ℕ) → List (ℕ × ℕ)
best_or none narrower = narrower
best_or (some (best, assignment)) narrower = assignment

module _ (g : Config) where
  unfoldable pub ready : State → ℕ → Bool
  unfolding mem_waits
  ready s index =
      not (any_completed_missing s.completed (g.inst index).deps)
      && (not (mem_waits s.issued (g.inst index).previous_mem)
          && (not (is_mem (g.inst index) && leb 3 s.mem_active)
              && not (is_persistent_hard (g.inst index) && not (index == s.retire_head))))

  -- The loop of `barrier_cutoff` from `index` on.
  unfoldable pub cutoff_from : State → ℕ → ℕ → ℕ
  cutoff_from s zero index = s.next_admit - 1
  cutoff_from s (suc left) index =
      let later = cutoff_from s left (index + 1) in
      if is_persistent_hard (g.inst index) && not (s.retired index) then index else later

  unfoldable pub barrier_cutoff : State → ℕ
  barrier_cutoff s = cutoff_from s (s.next_admit - s.retire_head) s.retire_head

  -- The ready prefix of the strict policy, which a hard instruction ends.
  unfoldable pub strict_candidates : State → List ℕ → List ℕ
  strict_candidates s [] = []
  strict_candidates s (index ∷ rest) =
      let more = strict_candidates s rest in
      if not (ready s index)
      then []
      else if is_hard (g.inst index)
      then index ∷ []
      else index ∷ more

  -- The widest prefix of at most `width` candidates that the pipes can take.
  unfoldable pub strict_choice : List ℕ → ℕ → List (ℕ × ℕ)
  strict_choice candidates zero = []
  strict_choice candidates (suc width) =
      let narrower = strict_choice candidates width in
      assignment_or (pipe_assignment g.inst (take (suc width) candidates)) narrower

  unfoldable pub any_younger : ℕ → List ℕ → Bool
  any_younger index [] = false
  any_younger index (y ∷ rest) = ltb index y || any_younger index rest

  -- A hard instruction with a younger one in its group; `whole` is the group.
  unfoldable pub breaks_group : List ℕ → List ℕ → Bool
  breaks_group whole [] = false
  breaks_group whole (index ∷ rest) =
      (is_hard (g.inst index) && any_younger index whole) || breaks_group whole rest

  -- The better of the best so far and a combination with the pipes that it was given.
  unfoldable pub better :
      List ℕ
      → Option (List (ℕ × ℕ))
      → Option (List ℕ × List (ℕ × ℕ))
      → Option (List ℕ × List (ℕ × ℕ))
  better c none best = best
  better c (some assignment) none = some (c, assignment)
  better c (some assignment) (some (b, old)) =
      if tuple_lt c b then some (c, assignment) else some (b, old)

  -- The loop over the combinations of one width, with the best of those before.
  unfoldable pub best_of :
      List (List ℕ) → Option (List ℕ × List (ℕ × ℕ)) → Option (List ℕ × List (ℕ × ℕ))
  unfolding breaks_group any_younger
  best_of [] best = best
  best_of (c ∷ rest) best =
      best_of rest (if breaks_group c c then best else better c (pipe_assignment g.inst c) best)

  unfoldable pub window_choice : List ℕ → ℕ → List (ℕ × ℕ)
  window_choice ready_indices zero = []
  window_choice ready_indices (suc width) =
      let narrower = window_choice ready_indices width in
      best_or (best_of (combinations ready_indices (suc width)) none) narrower

  unfoldable pub unissued : State → List ℕ
  unissued s =
      filter (λ index. s.admitted index && not (s.issued index))
        (range s.retire_head (s.next_admit - s.retire_head))

  unfoldable pub choose_by : Policy → State → List ℕ → List (ℕ × ℕ)
  choose_by strict s candidates =
      let group = strict_candidates s (take 3 candidates) in strict_choice group (length group)
  choose_by window s candidates =
      let ready_indices = filter (ready s) candidates in
      window_choice ready_indices (min 3 (length ready_indices))

  unfoldable pub choose : State → List (ℕ × ℕ)
  choose s = choose_by g.policy s (filter (λ index. leb index (barrier_cutoff s)) (unissued s))
