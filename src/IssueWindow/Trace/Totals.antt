-- ===== src/IssueWindow/Trace/Totals.antt =====
-- The totals of `load_trace` in tools/issue_window_experiment.py.
use open_rv.Prelude.{
  ℕ, suc, ◌+◌, ◌≤◌, ◌≡◌, refl, sym, ap, subst, ◌∙◌, arith, not, List, [], ◌∷◌, ok, refuse_if-eq-ok,
  >>=-eq-ok, ◌==◌, length,
}
use open_rv.IssueWindow.{DynamicInstruction}
use open_rv.IssueWindow.Trace.{TraceRow, Tables, no_tables, count_mismatch, read_row, read_rows}
use open_rv.IssueWindow.Trace.Extract.{
  make_instruction, extract, Seen, note, nothing_seen, link_all, stats_of, finish, load_trace,
  Stats,
}
use open_rv.IssueWindow.Trace.Kept.{present, Stage, read_row_keeps}

pub read_rows_keeps :
    (count : ℕ) (rows : List TraceRow) (t last : Tables)
    → Stage count 0 0 t
    → read_rows rows t ≡ ok last
    → Stage (count + length rows) 0 0 last
unfolding read_rows
read_rows_keeps count [] t last s h =
    let e : t ≡ last = cc in
    let n : count ≡ count + 0 = omega arith in
    subst (λ u. Stage (count + 0) 0 0 u) e (subst (λ k. Stage k 0 0 t) n s)
read_rows_keeps count (row ∷ rows) t last s h =
    let (next, e, rest) = >>=-eq-ok (read_row row t) (read_rows rows) h in
    let n : count + 1 + length rows ≡ count + suc (length rows) = omega arith in
    subst (λ k. Stage k 0 0 last) n
      (read_rows_keeps (count + 1) rows next last (read_row_keeps count row t next s e) rest)

pub start_keeps : Stage 0 0 0 no_tables
unfolding present
start_keeps = record {
  counted = refl;
  dated = tt;
  queued = λ uid. refl;
  total = refl;
  held_le = omega arith;
  backend_le = omega arith;
}

pub length-extract :
    (t : Tables) (uids : List ℕ) (instructions : List DynamicInstruction)
    → extract t uids ≡ ok instructions
    → length instructions ≡ length uids
unfolding extract
length-extract t [] instructions h = ground arith
length-extract t (uid ∷ uids) instructions h =
    let (i, e, more) = >>=-eq-ok (make_instruction t uid) _ h in
    let (rest, e', last) = >>=-eq-ok (extract t uids) _ more in
    let size = length-extract t uids rest e' in
    let whole : i ∷ rest ≡ instructions = cc in ap length (sym whole) ∙ ap suc size

length-link_all :
    (index : ℕ) (seen : Seen) (is : List DynamicInstruction)
    → length (link_all index seen is) ≡ length is
unfolding link_all
length-link_all index seen [] = refl
length-link_all index seen (i ∷ is) = ap suc (length-link_all (index + 1) (note index seen i) is)

pub finish_ok :
    (t : Tables) (raw instructions : List DynamicInstruction) (stats : Stats)
    → finish t raw ≡ ok (instructions, stats)
    → (link_all 0 nothing_seen raw ≡ instructions) × (stats_of t ≡ stats)
unfolding finish
finish_ok t raw instructions stats h =
    let (same, rest) =
      refuse_if-eq-ok (not (length raw == t.actual_retired))
        (count_mismatch (length raw) t.actual_retired) _ h in
    (cc, cc)

-- A loaded trace has as many instructions as retirements were counted and as many cycles as rows,
-- its backend-held cycles are at most its held cycles, and these at most its cycles.
pub load_trace_totals :
    (rows : List TraceRow) (instructions : List DynamicInstruction) (stats : Stats)
    → load_trace rows ≡ ok (instructions, stats)
    → (length instructions ≡ stats.retired)
      × (stats.cycles ≡ length rows)
      × stats.backend_held_cycles ≤ stats.held_cycles
      × stats.held_cycles ≤ stats.cycles
unfolding load_trace stats_of
load_trace_totals rows instructions stats h =
    let (t, e, more) = >>=-eq-ok (read_rows rows no_tables) _ h in
    let (raw, e', last) = >>=-eq-ok (extract t t.committed) (finish t) more in
    let (linked, same) = finish_ok t raw instructions stats last in
    let s = read_rows_keeps 0 rows no_tables t start_keeps e in
    let counted = s.counted in
    let total = s.total in
    let held = s.held_le in
    let size =
      ap length (sym linked)
      ∙ length-link_all 0 nothing_seen raw
      ∙ length-extract t t.committed raw e' in
    let bounds : (length instructions ≡ (stats_of t).retired)
        × ((stats_of t).cycles ≡ length rows)
        × (stats_of t).backend_held_cycles ≤ (stats_of t).held_cycles
        × (stats_of t).held_cycles ≤ (stats_of t).cycles =
      (
        omega (arith, size, counted),
        omega (arith, total),
        s.backend_le,
        omega (arith, total, held),
      ) in
    subst
      (λ (st : Stats).
        (length instructions ≡ st.retired)
        × (st.cycles ≡ length rows)
        × st.backend_held_cycles ≤ st.held_cycles
        × st.held_cycles ≤ st.cycles)
      same bounds
