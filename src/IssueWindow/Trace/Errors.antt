-- ===== src/IssueWindow/Trace/Errors.antt =====
-- The errors of `load_trace` in tools/issue_window_experiment.py.
use open_rv.Prelude.{
  ℕ, ◌-◌, ◌≡◌, refl, sym, ap, subst, ◌∙◌, inl, inr, arith, Bool, true, false, not, Option, none,
  some, List, [], ◌∷◌, Result, ok, err, ◌>>=◌, ltb, ◌==◌, length, All, Bool-cases,
}
use open_rv.IssueWindow.Trace.{
  TraceRow, Tables, no_tables, LoadError, below_zero, missing_column, lacks_metadata, key_error,
  count_mismatch, read_row, read_rows,
}
use open_rv.IssueWindow.Trace.Extract.{
  require, intrinsic_of, make_instruction, extract, nothing_seen, link_all, stats_of, finish,
  load_trace,
}
use open_rv.IssueWindow.Trace.Totals.{read_rows_keeps, start_keeps, length-extract}
use open_rv.IssueWindow.Trace.Kept.{present}

-- The errors that are left: all but `key_error` and `count_mismatch`.
abbrev pub is_expected : LoadError → Bool
is_expected (key_error uid) = false
is_expected (count_mismatch a b) = false
is_expected missing_column = true
is_expected below_zero = true
is_expected (lacks_metadata uid) = true

-- A chain of steps raises what one of its steps raises.
>>=_raises :
    {A B : Type 0} (step : Result LoadError A) (next : A → Result LoadError B) (e : LoadError)
    → (step ≡ err e → is_expected e ≡ true)
    → ((a : A) → step ≡ ok a → next a ≡ err e → is_expected e ≡ true)
    → (step >>= next) ≡ err e
    → is_expected e ≡ true
>>=_raises (err raised) next e first later h = let same : raised ≡ e = cc in first (ap err same)
>>=_raises (ok a) next e first later h = later a refl h

read_row_raises :
    (row : TraceRow) (t : Tables) (e : LoadError) → read_row row t ≡ err e → is_expected e ≡ true
unfolding read_row
read_row_raises row t e h = ground arith

read_rows_raises :
    (rows : List TraceRow) (t : Tables) (e : LoadError)
    → read_rows rows t ≡ err e
    → is_expected e ≡ true
unfolding read_rows
read_rows_raises [] t e h = cc
read_rows_raises (row ∷ rows) t e h =
    >>=_raises (read_row row t) (read_rows rows) e (read_row_raises row t e)
      (λ next _. read_rows_raises rows next e) h

same_raises :
    {A : Type 0} (raised e : LoadError)
    → is_expected raised ≡ true
    → ◌≡◌ {A = Result LoadError A} (err raised) (err e)
    → is_expected e ≡ true
same_raises raised e known h =
    let same : raised ≡ e = cc in subst (λ x. is_expected x ≡ true) same known

require_raises :
    {A : Type 0} (raised e : LoadError) (o : Option A)
    → (o ≡ none → is_expected raised ≡ true)
    → require raised o ≡ err e
    → is_expected e ≡ true
require_raises raised e none known h = same_raises raised e (known refl) h
require_raises raised e (some a) known h = cc

require-present :
    {A : Type 0} (raised : LoadError) (o : Option A) (a : A)
    → require raised o ≡ ok a
    → present o ≡ true
unfolding present
require-present raised none a h = cc
require-present raised (some b) a h = refl

absent :
    {A : Type 0} (o : Option A) (e : LoadError) → present o ≡ true → o ≡ none → is_expected e ≡ true
unfolding present
absent none e h none_there = cc
absent (some a) e h none_there = cc

intrinsic_of_raises :
    (o : Option ℕ) (queued held : ℕ) (e : LoadError)
    → intrinsic_of o queued held ≡ err e
    → is_expected e ≡ true
intrinsic_of_raises none queued held e h = elim (Bool-cases (ltb queued held)) [
  | inl below ↦
      let refused : intrinsic_of none queued held ≡ err below_zero = rw below refl in
      same_raises below_zero e refl (sym refused ∙ h)
  | inr above ↦ let taken : intrinsic_of none queued held ≡ ok (queued - held) = rw above refl in cc
]
intrinsic_of_raises (some a) queued held e h = cc

make_instruction_raises :
    (t : Tables) (uid : ℕ) (e : LoadError)
    → present (t.metadata uid) ≡ present (t.first_q uid)
    → present (t.retire uid) ≡ true
    → make_instruction t uid ≡ err e
    → is_expected e ≡ true
unfolding make_instruction
make_instruction_raises t uid e queued dated h =
    >>=_raises (require (lacks_metadata uid) (t.metadata uid)) _ e
      (require_raises _ e _ (λ _. refl))
      (λ meta known.
        >>=_raises (require (lacks_metadata uid) (t.issue uid)) _ e
          (require_raises _ e _ (λ _. refl))
          (λ issue _.
            >>=_raises (require (lacks_metadata uid) (t.complete uid)) _ e
              (require_raises _ e _ (λ _. refl))
              (λ complete _.
                >>=_raises (require (key_error uid) (t.first_q uid)) _ e
                  (require_raises _ e _ (
                    absent (t.first_q uid) (key_error uid)
                      (sym queued ∙ require-present _ (t.metadata uid) meta known)))
                  (λ first _.
                    >>=_raises (intrinsic_of (t.first_f_intrinsic uid) first t.backend_held_cycles)
                      _ e
                      (intrinsic_of_raises (t.first_f_intrinsic uid) first t.backend_held_cycles e)
                      (λ intrinsic _.
                        >>=_raises (require (key_error uid) (t.retire uid)) _ e
                          (require_raises _ e _ (absent (t.retire uid) (key_error uid) dated))
                          (λ retire _ k. cc))))))
      h

extract_raises :
    (t : Tables) (uids : List ℕ) (e : LoadError)
    → ((uid : ℕ) → present (t.metadata uid) ≡ present (t.first_q uid))
    → All (λ uid. present (t.retire uid) ≡ true) uids
    → extract t uids ≡ err e
    → is_expected e ≡ true
unfolding extract
extract_raises t [] e queued dated h = cc
extract_raises t (uid ∷ uids) e queued (first, dated) h =
    >>=_raises (make_instruction t uid) _ e (make_instruction_raises t uid e (queued uid) first)
      (λ i _. >>=_raises (extract t uids) _ e (extract_raises t uids e queued dated) (λ is _ k. cc))
      h

-- The errors of `load_trace` are a missing column, the missing issue, completion or metadata of a
-- committed instruction, and a release below zero: it never misses another key, and its count of
-- instructions always agrees.
pub load_trace_raises :
    (rows : List TraceRow) (e : LoadError) → load_trace rows ≡ err e → is_expected e ≡ true
unfolding load_trace finish
load_trace_raises rows e h =
    >>=_raises (read_rows rows no_tables) _ e (read_rows_raises rows no_tables e)
      (λ t read.
        let s = read_rows_keeps 0 rows no_tables t start_keeps read in
        let counted = s.counted in
        >>=_raises (extract t t.committed) (finish t) e
          (extract_raises t t.committed e s.queued s.dated)
          (λ raw made k.
            let size = length-extract t t.committed raw made in
            let same : not (length raw == t.actual_retired) ≡ false =
              ground (arith, size, counted) in
            let passed : finish t raw ≡ ok (link_all 0 nothing_seen raw, stats_of t) =
              rw same refl in
            cc))
      h
