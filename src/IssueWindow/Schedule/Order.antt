-- ===== src/IssueWindow/Schedule/Order.antt =====
-- Nothing issues before its operands and its memory predecessor.
use open_rv.Prelude.{
  ℕ, zero, suc, ◌+◌, ◌-◌, ◌≤◌, ◌≡◌, refl, sym, subst, ◌⊎◌, inl, inr, Bool, true, false, not, ◌&&◌,
  Option, none, some, List, [], ◌∷◌, arith, ltb, leb, ◌==◌, All, Bool-cases,
}
use open_rv.IssueWindow.{is_store, is_hard}
use open_rv.IssueWindow.State.{Config, State, is_free_control, update}
use open_rv.IssueWindow.Choose.{any_completed_missing, mem_waits, ready}
use open_rv.IssueWindow.Schedule.{
  retire, complete, drain, complete_store, admit_free, admit, issue_one, note_occupancy, tick,
  start,
}
use open_rv.IssueWindow.Schedule.Phases.{IsWindow, admit_one-IsWindow}

abbrev pub MemDone : State → Option ℕ → Type 0
MemDone s none = Unit
MemDone s (some p) = s.issued p ≡ true

-- The predecessor was issued in cycle `c` at the latest.
abbrev pub MemAfter : State → ℕ → Option ℕ → Type 0
MemAfter s c none = Unit
MemAfter s c (some p) = (s.issued p ≡ true) × (s.issue_cycle p ≤ c)

-- The operands of an instruction were completed when it issued, and its predecessor in the order
-- of the memory operations was issued no later.
abbrev pub IsAfter : Config → State → ℕ → Type 0
IsAfter g s i =
    All (λ d. (s.completed d ≡ true) × (s.complete_cycle d ≤ s.issue_cycle i)) (g.inst i).deps
    × MemAfter s (s.issue_cycle i) (g.inst i).previous_mem

pub record IsOrdered (g : Config) (s : State) : Type 0 where
  pub past : (d : ℕ) → s.completed d ≡ true → s.complete_cycle d ≤ s.cycle
  pub past_issue : (i : ℕ) → s.issued i ≡ true → s.issue_cycle i ≤ s.cycle
  pub after : (i : ℕ) → s.issued i ≡ true → is_free_control g i ≡ false → IsAfter g s i

-- What is issued or completed stays so, at its cycle.
record Grows (s t : State) : Type 0 where
  completed :
      (d : ℕ)
      → s.completed d ≡ true
      → (t.completed d ≡ true) × (t.complete_cycle d ≡ s.complete_cycle d)
  issued : (i : ℕ) → s.issued i ≡ true → (t.issued i ≡ true) × (t.issue_cycle i ≡ s.issue_cycle i)

deps_grow :
    (s t : State) (grows : Grows s t) (c c' : ℕ) (deps : List ℕ)
    → c ≡ c'
    → All (λ d. (s.completed d ≡ true) × (s.complete_cycle d ≤ c)) deps
    → All (λ d. (t.completed d ≡ true) × (t.complete_cycle d ≤ c')) deps
deps_grow s t grows c c' [] e h = tt
deps_grow s t grows c c' (d ∷ deps) e ((done, le), h) =
    let (done', same) = grows.completed d done in
    ((done', omega (arith, same, e)), deps_grow s t grows c c' deps e h)

mem-Grows :
    (s t : State) (grows : Grows s t) (c c' : ℕ) (o : Option ℕ)
    → c ≡ c'
    → MemAfter s c o
    → MemAfter t c' o
mem-Grows s t grows c c' none e h = tt
mem-Grows s t grows c c' (some p) e (done, le) =
    let (done', same) = grows.issued p done in (done', omega (arith, same, e))

IsAfter-Grows :
    (g : Config) (s t : State) (i : ℕ)
    → Grows s t
    → s.issued i ≡ true
    → IsAfter g s i
    → IsAfter g t i
IsAfter-Grows g s t i grows h (deps, mem) = (
  deps_grow s t grows (s.issue_cycle i) (t.issue_cycle i) (g.inst i).deps (sym (grows.issued i h).1)
      deps,
  mem-Grows s t grows (s.issue_cycle i) (t.issue_cycle i) (g.inst i).previous_mem
      (sym (grows.issued i h).1) mem,
)

-- A state that grew keeps the order if what it issued anew is free or in order.
IsOrdered-Grows :
    (g : Config) (s t : State)
    → Grows s t
    → IsOrdered g s
    → ((d : ℕ) → t.completed d ≡ true → t.complete_cycle d ≤ t.cycle)
    → ((i : ℕ) → t.issued i ≡ true → t.issue_cycle i ≤ t.cycle)
    → ((i : ℕ)
        → t.issued i ≡ true
        → is_free_control g i ≡ false
        → (s.issued i ≡ true) ⊎ IsAfter g t i)
    → IsOrdered g t
IsOrdered-Grows g s t grows o past past_issue new = record {
  past = past;
  past_issue = past_issue;
  after = λ i h f. elim (new i h f) [
    | inl old ↦ IsAfter-Grows g s t i grows old (o.after i old f)
    | inr fresh ↦ fresh
  ];
}

module _ (g : Config) where
  pub start-IsOrdered : (cycle : ℕ) → IsOrdered g (start g cycle)
  unfolding start
  start-IsOrdered cycle = record { past = λ d h. cc; past_issue = λ i h. cc; after = λ i h f. cc }

  pub retire-IsOrdered : (left : ℕ) (s : State) → IsOrdered g s → IsOrdered g (retire g left s)
  unfolding retire
  retire-IsOrdered zero s o = o
  retire-IsOrdered (suc left) s o =
      let s' = record s {
        retired = update s.retired s.retire_head true;
        retire_head = s.retire_head + 1;
      } in
      let o' : IsOrdered g s' = record {
        past = o.past;
        past_issue = o.past_issue;
        after = o.after;
      } in
      elim (Bool-cases (ltb s.retire_head g.count && s.completed s.retire_head)) [
        | inr e ↦ rw e o
        | inl e ↦
            elim (Bool-cases
              (is_hard (g.inst s.retire_head) && not (is_free_control g s.retire_head))) [
                | inl hard ↦ rw (e, hard) o'
                | inr soft ↦ rw (e, soft) (retire-IsOrdered left s' o')
              ]
      ]

  complete-IsOrdered :
      (when index : ℕ) (s : State)
      → when ≤ s.cycle
      → IsOrdered g s
      → IsOrdered g (complete g when index s)
  unfolding complete
  complete-IsOrdered when index s le o = elim (Bool-cases (s.completed index)) [
    | inl e ↦ rw e o
    | inr e ↦ rw e (
        IsOrdered-Grows g s _
          (record { completed = λ d h. ground arith; issued = λ i h. (h, refl) }) o
          (λ d h. ground (arith, o.past d)) (λ i h. o.past_issue i h) (λ i h f. inl h))
  ]

  cycle-complete : (when index : ℕ) (s : State) → (complete g when index s).cycle ≡ s.cycle
  unfolding complete
  cycle-complete when index s = elim (Bool-cases (s.completed index)) [
    | inl e ↦ rw e
    | inr e ↦ rw e
  ]

  pub drain-IsOrdered :
      (heap : List (ℕ × ℕ)) (s : State) → IsOrdered g s → IsOrdered g (drain g heap s)
  unfolding drain
  drain-IsOrdered [] s o = record { past = o.past; past_issue = o.past_issue; after = o.after }
  drain-IsOrdered ((when, index) ∷ heap) s o = elim (Bool-cases (leb when s.cycle)) [
    | inl e ↦ rw e (
        drain-IsOrdered heap (complete g when index s)
          (complete-IsOrdered when index s (ground arith) o))
    | inr e ↦ rw e (record { past = o.past; past_issue = o.past_issue; after = o.after })
  ]

  pub complete_store-IsOrdered : (s : State) → IsOrdered g s → IsOrdered g (complete_store g s)
  unfolding complete_store
  complete_store-IsOrdered s o =
      elim (Bool-cases (
        ltb s.retire_head g.count
        && (s.issued s.retire_head
            && (is_store (g.inst s.retire_head) && not (s.completed s.retire_head))))) [
              | inr e ↦ rw e o
              | inl e ↦ rw e (
                  IsOrdered-Grows g s _
                    (record { completed = λ d h. ground arith; issued = λ i h. (h, refl) }) o
                    (λ d h. ground (arith, o.past d)) (λ i h. o.past_issue i h) (λ i h f. inl h))
            ]

  admit_one-IsOrdered :
      (s : State)
      → IsWindow g s
      → IsOrdered g s
      → IsOrdered g (
          admit_free g s.next_admit (record s {
            admitted = update s.admitted s.next_admit true;
            next_admit = s.next_admit + 1;
          }))
  unfolding admit_free
  admit_one-IsOrdered s w o = elim (Bool-cases (is_free_control g s.next_admit)) [
    | inr e ↦ rw e (record { past = o.past; past_issue = o.past_issue; after = o.after })
    | inl e ↦ rw e (
        IsOrdered-Grows g s _
          (record {
            completed = λ d h. let k = w.completed d h in let lt = w.issued d k in ground arith;
            issued = λ i h. let lt = w.issued i h in ground arith;
          })
          o (λ d h. ground (arith, o.past d)) (λ i h. ground (arith, o.past_issue i))
          (λ i h f. inl (ground (arith, e, f))))
  ]

  pub admit-IsOrdered :
      (left : ℕ) (s : State) → IsWindow g s → IsOrdered g s → IsOrdered g (admit g left s)
  unfolding admit
  admit-IsOrdered zero s w o = o
  admit-IsOrdered (suc left) s w o =
      elim (Bool-cases (
        ltb s.next_admit g.count
        && (ltb (s.next_admit - s.retire_head) g.capacity
            && leb (g.release s.next_admit) s.feed_clock))) [
              | inl e ↦ rw e (
                  admit-IsOrdered left _ (admit_one-IsWindow g s w (ground arith) (ground arith))
                    (admit_one-IsOrdered s w o))
              | inr e ↦ rw e o
            ]

  pub note_occupancy-IsOrdered : (s : State) → IsOrdered g s → IsOrdered g (note_occupancy g s)
  unfolding note_occupancy
  note_occupancy-IsOrdered s o = record {
    past = o.past;
    past_issue = o.past_issue;
    after = o.after;
  }

  pub tick-IsOrdered : (blocked : Bool) (s : State) → IsOrdered g s → IsOrdered g (tick g blocked s)
  unfolding tick
  tick-IsOrdered blocked s o = record {
    past = λ d h. let le = o.past d h in omega arith;
    past_issue = λ i h. let le = o.past_issue i h in omega arith;
    after = o.after;
  }

  All-completed :
      (s : State) (deps : List ℕ)
      → IsOrdered g s
      → any_completed_missing s.completed deps ≡ false
      → All (λ d. (s.completed d ≡ true) × (s.complete_cycle d ≤ s.cycle)) deps
  unfolding any_completed_missing
  All-completed s [] o h = tt
  All-completed s (d ∷ deps) o h =
      let here : s.completed d ≡ true = ground arith in
      ((here, o.past d here), All-completed s deps o (ground arith))

  mem_past : (s : State) (p : Option ℕ) → IsOrdered g s → MemDone s p → MemAfter s s.cycle p
  mem_past s none o h = tt
  mem_past s (some p) o h = (h, o.past_issue p h)

  -- The two tests of `ready` that the order rests on.
  abbrev pub IsClear : State → ℕ → Type 0
  IsClear s i =
      (any_completed_missing s.completed (g.inst i).deps ≡ false)
      × MemDone s (g.inst i).previous_mem

  pub ready-IsClear : (s : State) (i : ℕ) → ready g s i ≡ true → IsClear s i
  unfolding ready mem_waits
  ready-IsClear s i h = (ground arith, mem (g.inst i).previous_mem (ground arith))
    where
      mem : (o : Option ℕ) → mem_waits s.issued o ≡ false → MemDone s o
      mem none e = tt
      mem (some p) e = ground arith

  pub issue_one-IsOrdered :
      (index : ℕ) (s : State)
      → s.issued index ≡ false
      → IsClear s index
      → IsOrdered g s
      → IsOrdered g (issue_one g index s)
  unfolding issue_one
  issue_one-IsOrdered index s fresh (clear, mem) o =
      let t = issue_one g index s in
      let grows : Grows s t = record {
        completed = λ d h. (h, refl);
        issued = λ i h. ground arith;
      } in
      IsOrdered-Grows g s t grows o o.past (λ i h. ground (arith, o.past_issue i))
        (λ i h f. elim (Bool-cases (i == index)) [
          | inr e ↦ inl (ground arith)
          | inl e ↦ inr (
              let same : index ≡ i = ground arith in
              let at : t.issue_cycle i ≡ s.cycle = ground arith in
              subst (λ j. IsAfter g t j) same
                (
                  deps_grow s t grows s.cycle (t.issue_cycle index) (g.inst index).deps
                      (ground arith) (All-completed s (g.inst index).deps o clear),
                  mem-Grows s t grows s.cycle (t.issue_cycle index) (g.inst index).previous_mem
                      (ground arith) (mem_past s (g.inst index).previous_mem o mem),
                ))
        ])
