-- ===== src/IssueWindow/Schedule/Tally.antt =====
-- The issue slots and the free instructions add up to the issued instructions.
use open_rv.Prelude.{
  ℕ, zero, suc, ◌+◌, ◌-◌, ◌≤◌, ◌<◌, ◌≡◌, refl, sym, ap, ◌∙◌, subst, inl, inr, Bool, true, false,
  not, ◌&&◌, List, [], ◌∷◌, arith, ltb, leb, ◌==◌, if◌then◌else◌, length, Bool-cases,
}
use open_rv.IssueWindow.{is_store, is_hard, is_branch}
use open_rv.IssueWindow.State.{Config, State, update, is_free_control}
use open_rv.IssueWindow.Choose.{indices, choose}
use open_rv.IssueWindow.Choose.Choice.{Good, IsEligible, choose-IsGroup}
use open_rv.IssueWindow.Schedule.{
  retire, complete, drain, complete_store, admit_free, admit, issue_one, issue_all, sort_indices,
  issue, note_occupancy, tick, round, start,
}
use open_rv.IssueWindow.Schedule.Phases.{
  IsWindow, retire-IsWindow, drain-IsWindow, complete_store-IsWindow, admit_one-IsWindow,
  admit-IsWindow, note_occupancy-IsWindow,
}
use open_rv.IssueWindow.Schedule.Invariant.{IsPending, IsPending-later, sort_indices-Good, pending}

-- How many of the first `n` instructions are issued.
pub counted : (ℕ → Bool) → ℕ → ℕ
counted f zero = 0
counted f (suc n) = counted f n + (if f n then 1 else 0)

abbrev total : State → ℕ
total s = s.issue_slots + (s.free_branches + s.free_jumps)

-- The counters of the state account for every issued instruction.
abbrev pub IsTally : State → Type 0
IsTally s = total s ≡ counted s.issued s.next_admit

counted_next : (f : ℕ → Bool) (n : ℕ) → counted f (n + 1) ≡ counted f n + (if f n then 1 else 0)
unfolding counted
counted_next f n =
    let e : n + 1 ≡ suc n = omega arith in
    subst (λ k. counted f k ≡ counted f n + (if f n then 1 else 0)) (sym e) refl

counted-update_ge : (f : ℕ → Bool) (n i : ℕ) → n ≤ i → counted (update f i true) n ≡ counted f n
unfolding counted
counted-update_ge f zero i h = refl
counted-update_ge f (suc n) i h = ground (arith, counted-update_ge f n i (omega arith))

counted-update_lt :
    (f : ℕ → Bool) (n i : ℕ) → i < n → f i ≡ false → counted (update f i true) n ≡ counted f n + 1
unfolding counted
counted-update_lt f zero i h e = absurd (omega arith)
counted-update_lt f (suc n) i h e = elim (Bool-cases (n == i)) [
  | inl same ↦
      let at : n ≡ i = ground arith in
      let fresh : f n ≡ false = ap f at ∙ e in ground (arith, counted-update_ge f n i (omega arith))
  | inr other ↦ ground (arith, counted-update_lt f n i (ground arith) e)
]

module _ (g : Config) where
  retire-IsTally : (left : ℕ) (s : State) → IsTally s → IsTally (retire g left s)
  unfolding retire
  retire-IsTally zero s t = t
  retire-IsTally (suc left) s t =
      let s' = record s {
        retired = update s.retired s.retire_head true;
        retire_head = s.retire_head + 1;
      } in
      elim (Bool-cases (ltb s.retire_head g.count && s.completed s.retire_head)) [
        | inr e ↦ rw e t
        | inl e ↦
            elim (Bool-cases
              (is_hard (g.inst s.retire_head) && not (is_free_control g s.retire_head))) [
                | inl hard ↦ rw (e, hard) t
                | inr soft ↦ rw (e, soft) (retire-IsTally left s' t)
              ]
      ]

  complete-IsTally : (when index : ℕ) (s : State) → IsTally s → IsTally (complete g when index s)
  unfolding complete
  complete-IsTally when index s t = elim (Bool-cases (s.completed index)) [
    | inl e ↦ rw e t
    | inr e ↦ rw e t
  ]

  drain-IsTally : (heap : List (ℕ × ℕ)) (s : State) → IsTally s → IsTally (drain g heap s)
  unfolding drain
  drain-IsTally [] s t = t
  drain-IsTally ((when, index) ∷ heap) s t = elim (Bool-cases (leb when s.cycle)) [
    | inl e ↦ rw e (drain-IsTally heap (complete g when index s) (complete-IsTally when index s t))
    | inr e ↦ rw e t
  ]

  complete_store-IsTally : (s : State) → IsTally s → IsTally (complete_store g s)
  unfolding complete_store
  complete_store-IsTally s t =
      elim (Bool-cases (
        ltb s.retire_head g.count
        && (s.issued s.retire_head
            && (is_store (g.inst s.retire_head) && not (s.completed s.retire_head))))) [
              | inr e ↦ rw e t
              | inl e ↦ rw e t
            ]

  -- An instruction enters un-issued, or free.
  admit_one-IsTally :
      (s : State)
      → s.issued s.next_admit ≡ false
      → IsTally s
      → IsTally (
          admit_free g s.next_admit (record s {
            admitted = update s.admitted s.next_admit true;
            next_admit = s.next_admit + 1;
          }))
  unfolding admit_free
  admit_one-IsTally s fresh t =
      let kept = counted_next s.issued s.next_admit in
      let freed = counted_next (update s.issued s.next_admit true) s.next_admit in
      let before = counted-update_ge s.issued s.next_admit s.next_admit (omega arith) in
      elim (Bool-cases (is_free_control g s.next_admit)) [
        | inr e ↦ rw e (ground arith)
        | inl e ↦ elim (Bool-cases (is_branch (g.inst s.next_admit))) [
          | inl b ↦ rw (e, b) (ground arith)
          | inr j ↦ rw (e, j) (ground arith)
        ]
      ]

  admit-IsTally : (left : ℕ) (s : State) → IsWindow g s → IsTally s → IsTally (admit g left s)
  unfolding admit
  admit-IsTally zero s w t = t
  admit-IsTally (suc left) s w t =
      elim (Bool-cases (
        ltb s.next_admit g.count
        && (ltb (s.next_admit - s.retire_head) g.capacity
            && leb (g.release s.next_admit) s.feed_clock))) [
              | inl e ↦
                  let entered = w.issued s.next_admit in
                  rw e (
                    admit-IsTally left _ (admit_one-IsWindow g s w (ground arith) (ground arith))
                      (admit_one-IsTally s (ground (arith, entered)) t))
              | inr e ↦ rw e t
            ]

  -- The issue of a group adds its length to the issued instructions, and to no counter.
  issue_all-counted :
      (chosen : List ℕ) (lo : ℕ) (s : State)
      → Good (IsPending g s) lo chosen
      → (counted (issue_all g chosen s).issued (issue_all g chosen s).next_admit
          ≡ counted s.issued s.next_admit + length chosen)
        × (total (issue_all g chosen s) ≡ total s)
  unfolding issue_all issue_one
  issue_all-counted [] lo s h = (omega arith, refl)
  issue_all-counted (i ∷ chosen) lo s (le, (entered, fresh, clear), h) =
      let (more, same) =
        issue_all-counted chosen (suc i) (issue_one g i s)
          (IsPending-later g i (suc i) s chosen (omega arith) h) in
      let here = counted-update_lt s.issued s.next_admit i entered fresh in
      (omega (arith, more, here), same)

  -- The slots of the group are counted before it issues.
  issue_sorted-IsTally :
      (chosen : List ℕ) (s : State)
      → Good (IsPending g s) 0 chosen
      → total s ≡ counted s.issued s.next_admit + length chosen
      → IsTally (issue_all g (sort_indices g chosen) s)
  issue_sorted-IsTally chosen s good h =
      let (more, same) = issue_all-counted chosen 0 s good in
      subst (λ order. IsTally (issue_all g order s))
        (sym (sort_indices-Good g (IsPending g s) 0 chosen good)) (omega (arith, more, same, h))

  issue-IsTally :
      (s : State) (chosen : List (ℕ × ℕ))
      → Good (IsEligible g s) 0 (indices chosen)
      → IsWindow g s
      → IsTally s
      → IsTally (issue g chosen s)
  unfolding issue
  issue-IsTally s [] good w t = elim (Bool-cases (s.next_admit - s.retire_head == 0)) [
    | inl e ↦ rw e t
    | inr e ↦ rw e t
  ]
  issue-IsTally s (first ∷ rest) good w t =
      issue_sorted-IsTally (indices (first ∷ rest)) _
        (pending g s 0 (indices (first ∷ rest)) w good) (omega (arith, t))

  pub round-IsTally : (s : State) → IsWindow g s → IsTally s → IsTally (round g s)
  unfolding round note_occupancy tick
  round-IsTally s w t =
      let s₁ = retire g 3 s in
      let w₁ = retire-IsWindow g 3 s w in
      let s₂ = drain g s₁.completion_heap s₁ in
      let w₂ = complete_store-IsWindow g s₂ (drain-IsWindow g s₁.completion_heap s₁ w₁ w₁.heap) in
      let t₂ =
        complete_store-IsTally s₂ (drain-IsTally s₁.completion_heap s₁ (retire-IsTally 3 s t)) in
      let s₃ = admit g 3 (complete_store g s₂) in
      let w₃ = admit-IsWindow g 3 (complete_store g s₂) w₂ in
      let s₄ = note_occupancy g s₃ in
      let w₄ = note_occupancy-IsWindow g s₃ w₃ in
      issue-IsTally s₄ (choose g s₄) (choose-IsGroup g s₄).good w₄
        (admit-IsTally 3 (complete_store g s₂) w₂ t₂)

pub start-IsTally : (g : Config) (cycle : ℕ) → IsTally (start g cycle)
unfolding start counted
start-IsTally g cycle = refl

-- Where all are issued, the count is the number.
pub counted_all : (f : ℕ → Bool) (n : ℕ) → ((i : ℕ) → i < n → f i ≡ true) → counted f n ≡ n
unfolding counted
counted_all f zero h = refl
counted_all f (suc n) h =
    let last = h n (omega arith) in
    let before = counted_all f n (λ i lt. h i (omega arith)) in ground (arith, before, last)
