-- ===== src/IssueWindow/Schedule/Phases.antt =====
-- The window invariant, and that each phase of a round keeps it.
use open_rv.Prelude.{
  ℕ, zero, suc, ◌+◌, ◌-◌, ◌≤◌, ◌<◌, ◌≡◌, sym, subst, inl, inr, Bool, true, not, ◌&&◌, List, [], ◌∷◌,
  arith, ltb, leb, ◌==◌, All, Bool-cases,
}
use open_rv.IssueWindow.{is_store, is_hard, latency}
use open_rv.IssueWindow.State.{Config, State, is_free_control, update}
use open_rv.IssueWindow.Schedule.{
  heappush, retire, complete, drain, complete_store, admit_free, admit, issue_one, note_occupancy,
  tick, start,
}

-- The program order of admission and retirement, and the limits of the window.
pub record IsWindow (g : Config) (s : State) : Type 0 where
  pub head_le : s.retire_head ≤ s.next_admit
  pub admit_le : s.next_admit ≤ g.count
  pub room : s.next_admit - s.retire_head ≤ g.capacity
  pub peak : s.max_occupancy ≤ g.capacity
  pub admitted : (i : ℕ) → s.admitted i ≡ ltb i s.next_admit
  pub retired : (i : ℕ) → s.retired i ≡ ltb i s.retire_head
  pub issued : (i : ℕ) → s.issued i ≡ true → i < s.next_admit
  pub completed : (i : ℕ) → s.completed i ≡ true → s.issued i ≡ true
  pub done : (i : ℕ) → i < s.retire_head → s.completed i ≡ true
  pub heap : All (λ item. s.issued item.1 ≡ true) s.completion_heap

module _ (g : Config) where
  pub start-IsWindow : (cycle : ℕ) → IsWindow g (start g cycle)
  unfolding start
  start-IsWindow cycle = record {
    head_le = omega arith;
    admit_le = omega arith;
    room = omega arith;
    peak = omega arith;
    admitted = λ i. ground arith;
    retired = λ i. ground arith;
    issued = λ i h. cc;
    completed = λ i h. cc;
    done = λ i h. absurd (omega arith);
    heap = tt;
  }

  -- The retirement of the head.
  retire_one-IsWindow :
      (s : State)
      → IsWindow g s
      → s.completed s.retire_head ≡ true
      → IsWindow g (record s {
        retired = update s.retired s.retire_head true;
        retire_head = s.retire_head + 1;
      })
  retire_one-IsWindow s w h =
      let entered = w.issued s.retire_head (w.completed s.retire_head h) in
      record {
        head_le = omega arith;
        admit_le = w.admit_le;
        room = let r = w.room in omega arith;
        peak = w.peak;
        admitted = w.admitted;
        retired = λ i. ground (arith, w.retired i);
        issued = w.issued;
        completed = w.completed;
        done = λ i lt. elim (Bool-cases (i == s.retire_head)) [
          | inl e ↦ ground (arith, h)
          | inr e ↦ w.done i (ground arith)
        ];
        heap = w.heap;
      }

  pub retire-IsWindow : (left : ℕ) (s : State) → IsWindow g s → IsWindow g (retire g left s)
  unfolding retire
  retire-IsWindow zero s w = w
  retire-IsWindow (suc left) s w =
      elim (Bool-cases (ltb s.retire_head g.count && s.completed s.retire_head)) [
        | inr e ↦ rw e w
        | inl e ↦
            let w' = retire_one-IsWindow s w (ground arith) in
            elim (Bool-cases
              (is_hard (g.inst s.retire_head) && not (is_free_control g s.retire_head))) [
                | inl hard ↦ rw (e, hard) w'
                | inr soft ↦ rw (e, soft) (retire-IsWindow left _ w')
              ]
      ]

  -- The completion of an issued instruction.
  pub complete-IsWindow :
      (when index : ℕ) (s : State)
      → IsWindow g s
      → s.issued index ≡ true
      → IsWindow g (complete g when index s)
  unfolding complete
  complete-IsWindow when index s w h = elim (Bool-cases (s.completed index)) [
    | inl e ↦ rw e w
    | inr e ↦ rw e (record {
      head_le = w.head_le;
      admit_le = w.admit_le;
      room = w.room;
      peak = w.peak;
      admitted = w.admitted;
      retired = w.retired;
      issued = w.issued;
      completed = λ i c. ground (arith, w.completed i, h);
      done = λ i lt. ground (arith, w.done i lt);
      heap = w.heap;
    })
  ]

  pub issued-complete : (when index : ℕ) (s : State) → (complete g when index s).issued ≡ s.issued
  unfolding complete
  issued-complete when index s = elim (Bool-cases (s.completed index)) [
    | inl e ↦ rw e
    | inr e ↦ rw e
  ]

  pub drain-IsWindow :
      (heap : List (ℕ × ℕ)) (s : State)
      → IsWindow g s
      → All (λ item. s.issued item.1 ≡ true) heap
      → IsWindow g (drain g heap s)
  unfolding drain
  drain-IsWindow [] s w h = record {
    head_le = w.head_le;
    admit_le = w.admit_le;
    room = w.room;
    peak = w.peak;
    admitted = w.admitted;
    retired = w.retired;
    issued = w.issued;
    completed = w.completed;
    done = w.done;
    heap = tt;
  }
  drain-IsWindow ((when, index) ∷ heap) s w (first, rest) = elim (Bool-cases (leb when s.cycle)) [
    | inl e ↦ rw e (
        drain-IsWindow heap (complete g when index s) (complete-IsWindow when index s w first) (
          subst (λ f. All (λ item. f item.1 ≡ true) heap) (sym (issued-complete when index s))
            rest))
    | inr e ↦ rw e (record {
      head_le = w.head_le;
      admit_le = w.admit_le;
      room = w.room;
      peak = w.peak;
      admitted = w.admitted;
      retired = w.retired;
      issued = w.issued;
      completed = w.completed;
      done = w.done;
      heap = (first, rest);
    })
  ]

  pub complete_store-IsWindow : (s : State) → IsWindow g s → IsWindow g (complete_store g s)
  unfolding complete_store
  complete_store-IsWindow s w =
      elim (Bool-cases (
        ltb s.retire_head g.count
        && (s.issued s.retire_head
            && (is_store (g.inst s.retire_head) && not (s.completed s.retire_head))))) [
              | inr e ↦ rw e w
              | inl e ↦ rw e (record {
                head_le = w.head_le;
                admit_le = w.admit_le;
                room = w.room;
                peak = w.peak;
                admitted = w.admitted;
                retired = w.retired;
                issued = w.issued;
                completed = λ i c. ground (arith, w.completed i);
                done = λ i lt. ground (arith, w.done i lt);
                heap = w.heap;
              })
            ]

  All-issued :
      (f : ℕ → Bool) (index : ℕ) (heap : List (ℕ × ℕ))
      → All (λ item. f item.1 ≡ true) heap
      → All (λ item. update f index true item.1 ≡ true) heap
  All-issued f index [] h = tt
  All-issued f index ((w, i) ∷ heap) (first, rest) =
      (ground (arith, first), All-issued f index heap rest)

  pub admit_one-IsWindow :
      (s : State)
      → IsWindow g s
      → s.next_admit < g.count
      → s.next_admit - s.retire_head < g.capacity
      → IsWindow g (
          admit_free g s.next_admit (record s {
            admitted = update s.admitted s.next_admit true;
            next_admit = s.next_admit + 1;
          }))
  unfolding admit_free
  admit_one-IsWindow s w more room = elim (Bool-cases (is_free_control g s.next_admit)) [
    | inr e ↦ rw e (record {
      head_le = omega (arith, w.head_le);
      admit_le = omega arith;
      room = let h = w.head_le in omega arith;
      peak = w.peak;
      admitted = λ i. ground (arith, w.admitted i);
      retired = w.retired;
      issued = λ i h. let lt = w.issued i h in omega arith;
      completed = w.completed;
      done = w.done;
      heap = w.heap;
    })
    | inl e ↦ rw e (record {
      head_le = omega (arith, w.head_le);
      admit_le = omega arith;
      room = let h = w.head_le in omega arith;
      peak = w.peak;
      admitted = λ i. ground (arith, w.admitted i);
      retired = w.retired;
      issued = λ i h. ground (arith, w.issued i);
      completed = λ i h. ground (arith, w.completed i);
      done = λ i lt. ground (arith, w.done i lt);
      heap = All-issued s.issued s.next_admit s.completion_heap w.heap;
    })
  ]

  pub admit-IsWindow : (left : ℕ) (s : State) → IsWindow g s → IsWindow g (admit g left s)
  unfolding admit
  admit-IsWindow zero s w = w
  admit-IsWindow (suc left) s w =
      elim (Bool-cases (
        ltb s.next_admit g.count
        && (ltb (s.next_admit - s.retire_head) g.capacity
            && leb (g.release s.next_admit) s.feed_clock))) [
              | inl e ↦
                  rw e
                    (admit-IsWindow left _ (admit_one-IsWindow s w (ground arith) (ground arith)))
              | inr e ↦ rw e w
            ]

  pub note_occupancy-IsWindow : (s : State) → IsWindow g s → IsWindow g (note_occupancy g s)
  unfolding note_occupancy
  note_occupancy-IsWindow s w = record {
    head_le = w.head_le;
    admit_le = w.admit_le;
    room = w.room;
    peak = let r = w.room in let p = w.peak in omega arith;
    admitted = w.admitted;
    retired = w.retired;
    issued = w.issued;
    completed = w.completed;
    done = w.done;
    heap = w.heap;
  }

  All-heappush :
      (f : ℕ → Bool) (item : ℕ × ℕ) (heap : List (ℕ × ℕ))
      → f item.1 ≡ true
      → All (λ item. f item.1 ≡ true) heap
      → All (λ item. f item.1 ≡ true) (heappush item heap)
  unfolding heappush
  All-heappush f (when, index) [] h all = (h, tt)
  All-heappush f (when, index) ((w, i) ∷ heap) h (first, rest) =
      ground (arith, All-heappush f (when, index) heap h rest)

  pub issue_one-IsWindow :
      (index : ℕ) (s : State)
      → IsWindow g s
      → index < s.next_admit
      → IsWindow g (issue_one g index s)
  unfolding issue_one
  issue_one-IsWindow index s w lt =
      let kept = All-issued s.issued index s.completion_heap w.heap in
      let self : update s.issued index true index ≡ true = ground arith in
      record {
        head_le = w.head_le;
        admit_le = w.admit_le;
        room = w.room;
        peak = w.peak;
        admitted = w.admitted;
        retired = w.retired;
        issued = λ i h. ground (arith, w.issued i);
        completed = λ i h. ground (arith, w.completed i);
        done = w.done;
        heap = elim (Bool-cases (is_store (g.inst index))) [
          | inl e ↦ rw e kept
          | inr e ↦ rw e (
              All-heappush (update s.issued index true) (s.cycle + latency (g.inst index), index)
                s.completion_heap self kept)
        ];
      }

  pub tick-IsWindow : (blocked : Bool) (s : State) → IsWindow g s → IsWindow g (tick g blocked s)
  unfolding tick
  tick-IsWindow blocked s w = record {
    head_le = w.head_le;
    admit_le = w.admit_le;
    room = w.room;
    peak = w.peak;
    admitted = w.admitted;
    retired = w.retired;
    issued = w.issued;
    completed = w.completed;
    done = w.done;
    heap = w.heap;
  }
