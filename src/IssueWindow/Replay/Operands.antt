-- ===== src/IssueWindow/Replay/Operands.antt =====
-- The replay of a loaded trace by tools/issue_window_experiment.py: `load_trace`, `monotonic_release`
-- and `schedule` together.
use mathlib.Core.Option as Opt
use open_rv.Prelude.{
  ℕ, zero, suc, ◌≤◌, ◌<◌, ◌≡◌, ◌⊎◌, inl, inr, subst, arith, true, false, some, List, [], ◌∷◌, ok,
  get_elem?, get_or, length, ◌==◌, All, Bool-cases,
}
use open_rv.IssueWindow.{DynamicInstruction, is_mem, contains}
use open_rv.IssueWindow.State.{Policy, State, is_free_control}
use open_rv.IssueWindow.Schedule.{finished, schedule}
use open_rv.IssueWindow.Schedule.Order.{MemAfter}
use open_rv.IssueWindow.Schedule.Ends.{schedule_in_order}
use open_rv.IssueWindow.Trace.{TraceRow}
use open_rv.IssueWindow.Trace.Extract.{load_trace, Stats}
use open_rv.IssueWindow.Trace.Links.{IsProducer, load_trace-IsLinked}
use open_rv.IssueWindow.Trace.Latest.{IsLatest, accesses}
use open_rv.IssueWindow.Replay.{
  Options, Feed, release_of, minimum, monotonic_release, replay, replay_config, blank,
}

All-contains : (P : ℕ → Type 0) (deps : List ℕ) (d : ℕ) → All P deps → contains deps d ≡ true → P d
unfolding contains
All-contains P [] d all h = cc
All-contains P (x ∷ deps) d (first, all) h = elim (Bool-cases (x == d)) [
  | inl e ↦ let same : x ≡ d = ground arith in subst P same first
  | inr e ↦ All-contains P deps d all (ground arith)
]

get_or-get_elem? :
    (xs : List DynamicInstruction) (i : ℕ) (x d : DynamicInstruction)
    → get_elem? xs i ≡ some x
    → (get_or xs i d ≡ x) × i < length xs
get_or-get_elem? [] i x d h = cc
get_or-get_elem? (y ∷ xs) zero x d h = (ground arith, omega arith)
get_or-get_elem? (y ∷ xs) (suc i) x d h =
    let (e, lt) = get_or-get_elem? xs i x d h in (e, omega arith)

replay_finished :
    (options : Options) (instructions : List DynamicInstruction) (feed : Feed) (policy : Policy)
    (s : State)
    → replay options instructions feed policy ≡ some (finished s)
    → (cycle : ℕ) × (schedule (replay_config options instructions feed policy) cycle ≡ finished s)
unfolding replay
replay_finished options instructions feed policy s h =
    let start = minimum (monotonic_release (release_of feed) instructions) in
    let run = schedule (replay_config options instructions feed policy) in
    let (cycle, found, ends) = (Opt.map-eq-some_iff run start {b = finished s}).0 h in (cycle, ends)

-- If a trace is loaded and one of its replays returns, then each instruction that is not free
-- issued no earlier than the last earlier writers of the registers it uses completed, and, if it
-- accesses memory, no earlier than the last earlier instruction that does so issued.
pub replay_in_order :
    (rows : List TraceRow) (instructions : List DynamicInstruction) (stats : Stats)
    (options : Options) (feed : Feed) (policy : Policy) (s : State) (i d : ℕ)
    (x : DynamicInstruction)
    → load_trace rows ≡ ok (instructions, stats)
    → replay options instructions feed policy ≡ some (finished s)
    → get_elem? instructions i ≡ some x
    → is_free_control (replay_config options instructions feed policy) i ≡ false
    → (IsProducer (get_elem? instructions) i x.uses_rs1 x.rs1 d
          ⊎ IsProducer (get_elem? instructions) i x.uses_rs2 x.rs2 d
        → (s.completed d ≡ true) × (s.complete_cycle d ≤ s.issue_cycle i))
      × (is_mem x ≡ true
          → IsLatest (accesses (get_elem? instructions)) i d
          → (s.issued d ≡ true) × (s.issue_cycle d ≤ s.issue_cycle i))
replay_in_order rows instructions stats options feed policy s i d x loaded done there paid =
    let (cycle, ends) = replay_finished options instructions feed policy s done in
    let (same, lt) = get_or-get_elem? instructions i x blank there in
    let (deps, mem) =
      schedule_in_order (replay_config options instructions feed policy) cycle i s ends lt paid in
    let (linked, mem_linked) = load_trace-IsLinked rows instructions stats i x loaded there in
    let deps' =
      subst
        (λ (y : DynamicInstruction).
          All (λ d. (s.completed d ≡ true) × (s.complete_cycle d ≤ s.issue_cycle i)) y.deps)
        same deps in
    let mem' =
      subst (λ (y : DynamicInstruction). MemAfter s (s.issue_cycle i) y.previous_mem) same mem in
    (
      λ produced.
          All-contains (λ d. (s.completed d ≡ true) × (s.complete_cycle d ≤ s.issue_cycle i)) x.deps
            d deps' ((linked d).1 produced),
      λ is last. subst (MemAfter s (s.issue_cycle i)) ((mem_linked is d).1 last) mem',
    )
