-- ===== src/IssueWindow/Schedule/Ends.antt =====
-- How the loop of `schedule` ends: the clock bounds it, and the invariants hold at its end.
use open_rv.Prelude.{
  ℕ, zero, suc, ◌+◌, ◌-◌, ◌*◌, ◌≤◌, ◌<◌, max, ◌≡◌, refl, ◌∙◌, ap, subst, ◌⊎◌, inl, inr, true, false,
  not, ◌&&◌, List, [], ◌∷◌, arith, ltb, leb, ◌==◌, Bool-cases,
}
use open_rv.IssueWindow.{is_store, is_hard}
use open_rv.IssueWindow.State.{Config, State, is_free_control, update}
use open_rv.IssueWindow.Choose.{indices, choose}
use open_rv.IssueWindow.Schedule.{
  retire, complete, drain, complete_store, admit_free, admit, issue_one, issue_all, sort_indices,
  issue, note_occupancy, tick, round, start, Outcome, finished, no_progress, out_of_fuel, loop,
  schedule,
}
use open_rv.IssueWindow.Schedule.Phases.{start-IsWindow}
use open_rv.IssueWindow.Schedule.Order.{IsAfter, start-IsOrdered}
use open_rv.IssueWindow.Schedule.Tally.{IsTally, counted, counted_all, start-IsTally, round-IsTally}
use open_rv.IssueWindow.Schedule.Invariant.{IsRun, round-IsRun}

module _ (g : Config) where
  cycle-retire : (left : ℕ) (s : State) → (retire g left s).cycle ≡ s.cycle
  unfolding retire
  cycle-retire zero s = refl
  cycle-retire (suc left) s =
      let later = cycle-retire left (record s {
        retired = update s.retired s.retire_head true;
        retire_head = s.retire_head + 1;
      }) in
      elim (Bool-cases (ltb s.retire_head g.count && s.completed s.retire_head)) [
        | inr e ↦ rw e
        | inl e ↦
            elim (Bool-cases
              (is_hard (g.inst s.retire_head) && not (is_free_control g s.retire_head))) [
                | inl hard ↦ rw (e, hard)
                | inr soft ↦ rw (e, soft) later
              ]
      ]

  cycle-complete : (when index : ℕ) (s : State) → (complete g when index s).cycle ≡ s.cycle
  unfolding complete
  cycle-complete when index s = elim (Bool-cases (s.completed index)) [
    | inl e ↦ rw e
    | inr e ↦ rw e
  ]

  cycle-drain : (heap : List (ℕ × ℕ)) (s : State) → (drain g heap s).cycle ≡ s.cycle
  unfolding drain
  cycle-drain [] s = refl
  cycle-drain ((when, index) ∷ heap) s = elim (Bool-cases (leb when s.cycle)) [
    | inl e ↦ rw e (cycle-drain heap (complete g when index s) ∙ cycle-complete when index s)
    | inr e ↦ rw e
  ]

  cycle-complete_store : (s : State) → (complete_store g s).cycle ≡ s.cycle
  unfolding complete_store
  cycle-complete_store s =
      elim (Bool-cases (
        ltb s.retire_head g.count
        && (s.issued s.retire_head
            && (is_store (g.inst s.retire_head) && not (s.completed s.retire_head))))) [
              | inr e ↦ rw e
              | inl e ↦ rw e
            ]

  cycle-admit_free : (index : ℕ) (s : State) → (admit_free g index s).cycle ≡ s.cycle
  unfolding admit_free
  cycle-admit_free index s = elim (Bool-cases (is_free_control g index)) [
    | inl e ↦ rw e
    | inr e ↦ rw e
  ]

  cycle-admit : (left : ℕ) (s : State) → (admit g left s).cycle ≡ s.cycle
  unfolding admit
  cycle-admit zero s = refl
  cycle-admit (suc left) s =
      let entered = record s {
        admitted = update s.admitted s.next_admit true;
        next_admit = s.next_admit + 1;
      } in
      elim (Bool-cases (
        ltb s.next_admit g.count
        && (ltb (s.next_admit - s.retire_head) g.capacity
            && leb (g.release s.next_admit) s.feed_clock))) [
              | inl e ↦ rw e (
                  cycle-admit left (admit_free g s.next_admit entered)
                  ∙ cycle-admit_free s.next_admit entered)
              | inr e ↦ rw e
            ]

  cycle-issue_all : (chosen : List ℕ) (s : State) → (issue_all g chosen s).cycle ≡ s.cycle
  unfolding issue_all issue_one
  cycle-issue_all [] s = refl
  cycle-issue_all (i ∷ chosen) s = cycle-issue_all chosen (issue_one g i s)

  cycle-issue : (chosen : List (ℕ × ℕ)) (s : State) → (issue g chosen s).cycle ≡ s.cycle
  unfolding issue
  cycle-issue [] s = elim (Bool-cases (s.next_admit - s.retire_head == 0)) [
    | inl e ↦ rw e
    | inr e ↦ rw e
  ]
  cycle-issue (first ∷ rest) s = cycle-issue_all (sort_indices g (indices (first ∷ rest))) _

  -- A round takes one cycle.
  cycle-round : (s : State) → (round g s).cycle ≡ s.cycle + 1
  unfolding round tick note_occupancy
  cycle-round s =
      let s₁ = retire g 3 s in
      let s₂ = drain g s₁.completion_heap s₁ in
      let s₃ = admit g 3 (complete_store g s₂) in
      let s₄ = note_occupancy g s₃ in
      let before =
        cycle-issue (choose g s₄) s₄
        ∙ cycle-admit 3 (complete_store g s₂)
        ∙ cycle-complete_store s₂
        ∙ cycle-drain s₁.completion_heap s₁
        ∙ cycle-retire 3 s in
      ap (λ c. c + 1) before

  -- What holds at the end of the loop that began in cycle `cycle`.
  pub Ends : ℕ → Outcome → Type 0
  Ends cycle (finished s) =
      IsRun g s
      × (s.issue_slots + (s.free_branches + s.free_jumps) ≡ g.count)
      × (s.retire_head ≡ g.count)
      × (s.next_admit ≡ g.count)
      × ((i : ℕ)
          → i < g.count
          → (s.issued i ≡ true) × (s.completed i ≡ true) × (s.retired i ≡ true))
      × (s.cycle - cycle ≤ 10 * max 1 g.count)
  Ends cycle (no_progress s) = IsRun g s × (s.cycle ≡ cycle + 10 * max 1 g.count + 1)
  Ends cycle out_of_fuel = ⊥

  finished-Ends :
      (cycle : ℕ) (s : State)
      → IsRun g s
      → IsTally s
      → ltb s.retire_head g.count ≡ false
      → s.cycle - cycle ≤ 10 * max 1 g.count
      → Ends cycle (finished s)
  unfolding Ends
  finished-Ends cycle s r t stop le =
      let w = r.window in
      let above = w.head_le in
      let below = w.admit_le in
      let all : s.retire_head ≡ g.count = ground arith in
      let tallied : s.issue_slots + (s.free_branches + s.free_jumps) ≡ g.count =
        t
        ∙ ap (counted s.issued) (omega arith)
        ∙ counted_all s.issued g.count (λ i lt. w.completed i (w.done i (omega arith))) in
      (
        r,
        tallied,
        all,
        omega arith,
        (λ i lt.
            let done = w.done i (omega arith) in
            (w.completed i done, done, w.retired i ∙ ground arith)),
        le,
      )

  loop-Ends :
      (fuel cycle : ℕ) (s : State)
      → IsRun g s
      → IsTally s
      → cycle ≤ s.cycle
      → s.cycle ≤ cycle + 10 * max 1 g.count
      → cycle + 10 * max 1 g.count + 2 ≤ s.cycle + fuel
      → Ends cycle (loop g fuel cycle s)
  unfolding loop Ends
  loop-Ends zero cycle s r t low high enough = absurd (omega arith)
  loop-Ends (suc fuel) cycle s r t low high enough =
      let r' = round-IsRun g s r in
      let t' = round-IsTally g s r.window t in
      let next = cycle-round s in
      elim (Bool-cases (ltb s.retire_head g.count)) [
        | inr stop ↦ rw stop (finished-Ends cycle s r t stop (omega arith))
        | inl go ↦ elim (Bool-cases (ltb (10 * max 1 g.count) ((round g s).cycle - cycle))) [
          | inl late ↦ rw (go, late) (r', ground arith)
          | inr soon ↦
              rw (go, soon)
                (loop-Ends fuel cycle (round g s) r' t' (omega arith) (ground arith) (omega arith))
        ]
      ]

  schedule-Ends : (cycle : ℕ) → Ends cycle (schedule g cycle)
  unfolding schedule start
  schedule-Ends cycle =
      loop-Ends (10 * max 1 g.count + 2) cycle (start g cycle)
        (record { window = start-IsWindow g cycle; ordered = start-IsOrdered g cycle })
        (start-IsTally g cycle) (omega arith) (omega arith) (omega arith)

  Ends-at : (cycle : ℕ) (s : State) → schedule g cycle ≡ finished s → Ends cycle (finished s)
  Ends-at cycle s h = subst (Ends cycle) h (schedule-Ends cycle)

terminates :
    (g : Config) (cycle : ℕ) (o : Outcome)
    → schedule g cycle ≡ o
    → Ends g cycle o
    → (s : State) × (((schedule g cycle ≡ finished s) × (s.cycle - cycle ≤ 10 * max 1 g.count))
        ⊎ ((schedule g cycle ≡ no_progress s) × (s.cycle ≡ cycle + 10 * max 1 g.count + 1)))
unfolding Ends
terminates g cycle (finished s) e (_, _, _, _, _, soon) = (s, inl (e, soon))
terminates g cycle (no_progress s) e (_, late) = (s, inr (e, late))
terminates g cycle out_of_fuel e h = absurd h

-- `schedule` never runs out of the model's fuel: it returns within `10 * max 1 count` cycles of
-- its first, or raises its error in exactly the cycle after those.
pub schedule_terminates :
    (g : Config) (cycle : ℕ)
    → (s : State) × (((schedule g cycle ≡ finished s) × (s.cycle - cycle ≤ 10 * max 1 g.count))
        ⊎ ((schedule g cycle ≡ no_progress s) × (s.cycle ≡ cycle + 10 * max 1 g.count + 1)))
schedule_terminates g cycle = terminates g cycle (schedule g cycle) refl (schedule-Ends g cycle)

-- If `schedule` returns, then every instruction of the trace was admitted, issued, completed and
-- retired, and the window never held more than `capacity` of them.
pub schedule_completes :
    (g : Config) (cycle i : ℕ) (s : State)
    → schedule g cycle ≡ finished s
    → i < g.count
    → (s.admitted i ≡ true)
      × (s.issued i ≡ true)
      × (s.completed i ≡ true)
      × (s.retired i ≡ true)
      × (s.max_occupancy ≤ g.capacity)
unfolding Ends
schedule_completes g cycle i s h lt =
    let (run, _, _, entered, all, _) = Ends-at g cycle s h in
    let (issued, completed, retired) = all i lt in
    let admitted = run.window.admitted i in
    (ground arith, issued, completed, retired, run.window.peak)

-- If `schedule` returns, then each instruction that is not free issued no earlier than any of its
-- operands completed, and no earlier than its predecessor in the order of the memory operations
-- issued.
pub schedule_in_order :
    (g : Config) (cycle i : ℕ) (s : State)
    → schedule g cycle ≡ finished s
    → i < g.count
    → is_free_control g i ≡ false
    → IsAfter g s i
unfolding Ends
schedule_in_order g cycle i s h lt paid =
    let (run, _, _, _, all, _) = Ends-at g cycle s h in
    let (issued, _, _) = all i lt in run.ordered.after i issued paid

-- If `schedule` returns, then the issue slots, the free branches and the free jumps that it
-- reports add up to the instructions of the trace.
pub schedule_tally :
    (g : Config) (cycle : ℕ) (s : State)
    → schedule g cycle ≡ finished s
    → s.issue_slots + (s.free_branches + s.free_jumps) ≡ g.count
unfolding Ends
schedule_tally g cycle s h = let (_, tally, _, _, _, _) = Ends-at g cycle s h in tally
