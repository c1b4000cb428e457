-- ===== src/IssueWindow/Trace/Latest.antt =====
-- The last earlier writers and memory operations that `load_trace` of
-- tools/issue_window_experiment.py keeps.
use open_rv.Prelude.{
  ℕ, zero, suc, ◌<◌, ◌≡◌, ◌≢◌, ◌⊎◌, refl, sym, ap, subst, ◌∙◌, inl, inr, arith, Bool, true, false,
  not, ◌&&◌, Option, none, some, ◌==◌, if◌then◌else◌, Bool-cases,
}
use open_rv.IssueWindow.{DynamicInstruction, is_mem}
use open_rv.IssueWindow.State.{update}
use open_rv.IssueWindow.Trace.Extract.{Seen, note, nothing_seen}

-- `d` is the last index below `i` with a property.
abbrev pub IsLatest : (ℕ → Bool) → ℕ → ℕ → Type 0
IsLatest test i d = d < i × (test d ≡ true) × ((k : ℕ) → d < k → k < i → test k ≡ false)

unfoldable pub latest : (ℕ → Bool) → ℕ → Option ℕ
latest test zero = none
latest test (suc i) = if test i then some i else latest test i

below_suc : (k i : ℕ) → k < suc i → (k < i) ⊎ (k ≡ i)
below_suc k i h = ground arith

pub latest-IsLatest : (test : ℕ → Bool) (i d : ℕ) → latest test i ≡ some d → IsLatest test i d
unfolding latest
latest-IsLatest test zero d h = cc
latest-IsLatest test (suc i) d h = elim (Bool-cases (test i)) [
  | inl e ↦
      let same : i ≡ d = ground arith in
      (omega arith, subst (λ k. test k ≡ true) same e, λ k lt le. absurd (omega arith))
  | inr e ↦
      let earlier : latest test i ≡ some d = ground arith in
      let (lt, there, none_later) = latest-IsLatest test i d earlier in
      (
        omega arith,
        there,
        λ k le lt. elim (below_suc k i lt) [
          | inl below ↦ none_later k le below
          | inr same ↦ ap test same ∙ e
        ],
      )
]

pub IsLatest-latest : (test : ℕ → Bool) (i d : ℕ) → IsLatest test i d → latest test i ≡ some d
unfolding latest
IsLatest-latest test zero d (lt, there, none_later) = absurd (omega arith)
IsLatest-latest test (suc i) d (lt, there, none_later) = elim (below_suc d i lt) [
  | inl below ↦
      let passed : test i ≡ false = none_later i below (omega arith) in
      rw passed (IsLatest-latest test i d (below, there, λ k le lt. none_later k le (omega arith)))
  | inr same ↦ let here : test i ≡ true = ap test (sym same) ∙ there in rw here (ap some (sym same))
]

-- Whether the instruction at an index writes a register, and whether it accesses memory.
abbrev pub writes : (ℕ → Option DynamicInstruction) → ℕ → ℕ → Bool
writes at reg j = elim (at j) [ none ↦ false | some x ↦ x.writes_rd && x.rd == reg ]

abbrev pub accesses : (ℕ → Option DynamicInstruction) → ℕ → Bool
accesses at j = elim (at j) [ none ↦ false | some x ↦ is_mem x ]

-- What the loop has seen of the instructions before `index`.
pub record IsHistory (at : ℕ → Option DynamicInstruction) (index : ℕ) (seen : Seen) : Type 0 where
  pub writer : (reg : ℕ) → reg ≢ 0 → seen.last_writer reg ≡ latest (writes at reg) index
  pub mem : seen.previous_mem ≡ latest (accesses at) index

update_writer :
    (last_writer : ℕ → Option ℕ) (old : Option ℕ) (w b : Bool) (rd reg index : ℕ)
    → reg ≢ 0
    → last_writer reg ≡ old
    → b ≡ (w && rd == reg)
    → (if w && not (rd == 0) then update last_writer rd (some index) else last_writer) reg
      ≡ (if b then some index else old)
update_writer last_writer old w b rd reg index positive e new = ground arith

pub note-IsHistory :
    (at : ℕ → Option DynamicInstruction) (index : ℕ) (seen : Seen) (x : DynamicInstruction)
    → at index ≡ some x
    → IsHistory at index seen
    → IsHistory at (suc index) (note index seen x)
unfolding note latest
note-IsHistory at index seen x e h = record {
  writer = λ reg positive.
      let new : writes at reg index ≡ (x.writes_rd && x.rd == reg) =
        ap (λ o. elim o as (λ y. Bool) [ none ↦ false | some x ↦ x.writes_rd && x.rd == reg ]) e in
      update_writer seen.last_writer _ x.writes_rd _ x.rd reg index positive (h.writer reg positive)
        new;
  mem =
      let new : accesses at index ≡ is_mem x =
        ap (λ o. elim o as (λ y. Bool) [ none ↦ false | some x ↦ is_mem x ]) e in
      ap (λ b. if b then some index else seen.previous_mem) (sym new)
      ∙ ap (λ old. if accesses at index then some index else old) h.mem;
}

pub IsLatest-same :
    (test other : ℕ → Bool) (i d : ℕ)
    → ((j : ℕ) → test j ≡ other j)
    → IsLatest test i d
    → IsLatest other i d
IsLatest-same test other i d same (lt, there, none_later) =
    (lt, sym (same d) ∙ there, λ k le below. sym (same k) ∙ none_later k le below)

pub start-IsHistory : (at : ℕ → Option DynamicInstruction) → IsHistory at 0 nothing_seen
unfolding latest
start-IsHistory at = record { writer = λ reg _. refl; mem = refl }
