-- ===== src/IssueWindow/Schedule/Invariant.antt =====
-- The issue of a whole group, a round, and the loop of `schedule`.
use open_rv.Prelude.{
  ℕ, suc, ◌+◌, ◌-◌, ◌<◌, ◌≡◌, refl, sym, ◌∙◌, ap, subst, inl, inr, false, Option, none, some, List,
  [], ◌∷◌, arith, ◌==◌, length, Bool-cases,
}
use open_rv.IssueWindow.State.{Config, State}
use open_rv.IssueWindow.Choose.{indices, choose}
use open_rv.IssueWindow.Schedule.{
  retire, drain, complete_store, admit, feed_blocked, issue_one, issue_all, sort_indices,
  insert_index, issue, note_occupancy, round,
}
use open_rv.IssueWindow.Choose.Choice.{Good, IsEligible, choose-IsGroup}
use open_rv.IssueWindow.Schedule.Phases.{
  IsWindow, retire-IsWindow, drain-IsWindow, complete_store-IsWindow, admit-IsWindow,
  note_occupancy-IsWindow, issue_one-IsWindow, tick-IsWindow,
}
use open_rv.IssueWindow.Schedule.Order.{
  MemDone, IsOrdered, IsClear, ready-IsClear, retire-IsOrdered, drain-IsOrdered,
  complete_store-IsOrdered, admit-IsOrdered, note_occupancy-IsOrdered, issue_one-IsOrdered,
  tick-IsOrdered,
}

-- Both invariants of the loop.
pub record IsRun (g : Config) (s : State) : Type 0 where
  pub window : IsWindow g s
  pub ordered : IsOrdered g s

-- An admitted instruction that may issue now.
abbrev pub IsPending : Config → State → ℕ → Type 0
IsPending g s i = (i < s.next_admit) × (s.issued i ≡ false) × IsClear g s i

module _ (g : Config) where
  mem_done : (index : ℕ) (s : State) (o : Option ℕ) → MemDone s o → MemDone (issue_one g index s) o
  unfolding issue_one
  mem_done index s none h = tt
  mem_done index s (some p) h = ground arith

  pub IsPending-later :
      (index lo : ℕ) (s : State) (chosen : List ℕ)
      → index < lo
      → Good (IsPending g s) lo chosen
      → Good (IsPending g (issue_one g index s)) lo chosen
  unfolding issue_one
  IsPending-later index lo s [] lt h = tt
  IsPending-later index lo s (i ∷ chosen) lt (le, (entered, fresh, (clear, mem)), h) = (
    le,
    (entered, ground arith, (clear, mem_done index s (g.inst i).previous_mem mem)),
    IsPending-later index (suc i) s chosen (omega arith) h,
  )

  issue_all-IsRun :
      (chosen : List ℕ) (lo : ℕ) (s : State)
      → Good (IsPending g s) lo chosen
      → IsRun g s
      → IsRun g (issue_all g chosen s)
  unfolding issue_all
  issue_all-IsRun [] lo s h r = r
  issue_all-IsRun (i ∷ chosen) lo s (le, (entered, fresh, clear), h) r =
      issue_all-IsRun chosen (suc i) (issue_one g i s)
        (IsPending-later i (suc i) s chosen (omega arith) h)
        (record {
          window = issue_one-IsWindow g i s r.window entered;
          ordered = issue_one-IsOrdered g i s fresh clear r.ordered;
        })

  insert_index-front :
      (P : ℕ → Type 0) (x : ℕ) (ys : List ℕ) → Good P (suc x) ys → insert_index g x ys ≡ x ∷ ys
  unfolding insert_index
  insert_index-front P x [] good = refl
  insert_index-front P x (y ∷ ys) (le, p, good) = ground arith

  -- A group is sorted as it was chosen.
  pub sort_indices-Good :
      (P : ℕ → Type 0) (lo : ℕ) (xs : List ℕ) → Good P lo xs → sort_indices g xs ≡ xs
  unfolding sort_indices
  sort_indices-Good P lo [] good = refl
  sort_indices-Good P lo (x ∷ xs) (le, p, good) =
      ap (insert_index g x) (sort_indices-Good P (suc x) xs good) ∙ insert_index-front P x xs good

  pub pending :
      (s : State) (lo : ℕ) (chosen : List ℕ)
      → IsWindow g s
      → Good (IsEligible g s) lo chosen
      → Good (IsPending g s) lo chosen
  pending s lo [] w h = tt
  pending s lo (i ∷ chosen) w (le, (entered, fresh, set, before, behind), h) =
      let admitted = w.admitted i in
      (le, (ground arith, fresh, ready-IsClear g s i set), pending s (suc i) chosen w h)

  -- The counters of the issue are apart from the invariants.
  counters-IsRun :
      (s : State) (slots idle skipped distance : ℕ)
      → IsRun g s
      → IsRun g (record s {
        issue_slots = slots;
        no_issue_cycles = idle;
        skipped_oldest_cycles = skipped;
        max_skip_distance = distance;
      })
  counters-IsRun s slots idle skipped distance r = record {
    window = record {
      head_le = r.window.head_le;
      admit_le = r.window.admit_le;
      room = r.window.room;
      peak = r.window.peak;
      admitted = r.window.admitted;
      retired = r.window.retired;
      issued = r.window.issued;
      completed = r.window.completed;
      done = r.window.done;
      heap = r.window.heap;
    };
    ordered = record {
      past = r.ordered.past;
      past_issue = r.ordered.past_issue;
      after = r.ordered.after;
    };
  }

  issue_sorted-IsRun :
      (chosen : List ℕ) (s : State)
      → Good (IsPending g s) 0 chosen
      → IsRun g s
      → IsRun g (issue_all g (sort_indices g chosen) s)
  issue_sorted-IsRun chosen s good r =
      subst (λ order. IsRun g (issue_all g order s))
        (sym (sort_indices-Good (IsPending g s) 0 chosen good)) (issue_all-IsRun chosen 0 s good r)

  issue-IsRun :
      (s : State) (chosen : List (ℕ × ℕ))
      → Good (IsEligible g s) 0 (indices chosen)
      → IsRun g s
      → IsRun g (issue g chosen s)
  unfolding issue
  issue-IsRun s [] good r = elim (Bool-cases (s.next_admit - s.retire_head == 0)) [
    | inl e ↦ rw e r
    | inr e ↦ rw e (
        counters-IsRun s s.issue_slots (s.no_issue_cycles + 1) s.skipped_oldest_cycles
          s.max_skip_distance r)
  ]
  issue-IsRun s (first ∷ rest) good r =
      issue_sorted-IsRun (indices (first ∷ rest)) _
        (pending s 0 (indices (first ∷ rest)) r.window good)
        (counters-IsRun s (s.issue_slots + length (indices (first ∷ rest))) s.no_issue_cycles _ _ r)

  -- A round keeps both invariants.
  pub round-IsRun : (s : State) → IsRun g s → IsRun g (round g s)
  unfolding round
  round-IsRun s r =
      let w₁ = retire-IsWindow g 3 s r.window in
      let o₁ = retire-IsOrdered g 3 s r.ordered in
      let s₁ = retire g 3 s in
      let w₂ = drain-IsWindow g s₁.completion_heap s₁ w₁ w₁.heap in
      let o₂ = drain-IsOrdered g s₁.completion_heap s₁ o₁ in
      let s₂ = drain g s₁.completion_heap s₁ in
      let wc = complete_store-IsWindow g s₂ w₂ in
      let oc = complete_store-IsOrdered g s₂ o₂ in
      let s₃ = admit g 3 (complete_store g s₂) in
      let w₃ = admit-IsWindow g 3 (complete_store g s₂) wc in
      let o₃ = admit-IsOrdered g 3 (complete_store g s₂) wc oc in
      let s₄ = note_occupancy g s₃ in
      let r₄ : IsRun g s₄ = record {
        window = note_occupancy-IsWindow g s₃ w₃;
        ordered = note_occupancy-IsOrdered g s₃ o₃;
      } in
      let r₅ = issue-IsRun s₄ (choose g s₄) (choose-IsGroup g s₄).good r₄ in
      let s₅ = issue g (choose g s₄) s₄ in
      record {
        window = tick-IsWindow g (feed_blocked g s₃) s₅ r₅.window;
        ordered = tick-IsOrdered g (feed_blocked g s₃) s₅ r₅.ordered;
      }
