-- ===== src/IssueWindow/Trace/Kept.antt =====
-- What each row of the trace keeps of the tables of `load_trace` in tools/issue_window_experiment.py.
use open_rv.Prelude.{
  ℕ, zero, suc, ◌+◌, ◌≤◌, ◌≡◌, subst, inl, inr, arith, Bool, true, false, not, ◌&&◌, Option, none,
  some, List, [], ◌∷◌, ◌++◌, ok, ◌==◌, if◌then◌else◌, length, All, Bool-cases,
}
use open_rv.IssueWindow.State.{update}
use open_rv.IssueWindow.Trace.{
  TraceRow, Metadata, Tables, setdefault, has_lane, over_lanes, fetch_lane, queue_lane, issue_lane,
  complete_lane, retire_lanes, count_held, note_row, read_row,
}

unfoldable pub present : {A : Type 0} → Option A → Bool
present none = false
present (some a) = true

-- What the rows read so far have left in the tables, where `left` retirements of the present row are
-- to come, and `slack` is 1 until its held cycle is counted.
pub record Holds (rows left slack cycles actual held backend : ℕ) (committed : List ℕ)
    (retire : ℕ → Option ℕ) (metadata : ℕ → Option Metadata) (first_q : ℕ → Option ℕ) : Type 0 where
  pub counted : length committed + left ≡ actual
  pub dated : All (λ uid. present (retire uid) ≡ true) committed
  pub queued : (uid : ℕ) → present (metadata uid) ≡ present (first_q uid)
  pub total : cycles ≡ rows
  pub held_le : held + slack ≤ rows
  pub backend_le : backend ≤ held

abbrev pub Stage : ℕ → ℕ → ℕ → Tables → Type 0
Stage rows left slack t =
    Holds rows left slack t.total_cycles t.actual_retired t.held_cycles t.backend_held_cycles
      t.committed t.retire t.metadata t.first_q

over_lanes_keeps :
    {A : Type 0} (P : A → Type 0) (mask : ℕ) (body : ℕ → A → A) (start : A)
    → ((lane : ℕ) (a : A) → P a → P (body lane a))
    → P start
    → P (over_lanes mask body start)
unfolding over_lanes
over_lanes_keeps {A = A} P mask body start keeps h = step 2 _ (step 1 _ (step 0 start h))
  where
    step : (lane : ℕ) (a : A) → P a → P (if has_lane mask lane then body lane a else a)
    step lane a h = elim (Bool-cases (has_lane mask lane)) [
      | inl e ↦ rw e (keeps lane a h)
      | inr e ↦ rw e h
    ]

present-setdefault :
    {A B : Type 0} (t : ℕ → Option A) (u : ℕ → Option B) (key uid : ℕ) (a : A) (b : B)
    → ((i : ℕ) → present (t i) ≡ present (u i))
    → present (setdefault t key a uid) ≡ present (setdefault u key b uid)
unfolding present
present-setdefault t u key uid a b h = let k = h key in let l = h uid in ground arith

queue_lane_keeps :
    (rows : ℕ) (row : TraceRow) (lane : ℕ) (t : Tables)
    → Stage rows 0 1 t
    → Stage rows 0 1 (queue_lane row lane t)
unfolding queue_lane
queue_lane_keeps rows row lane t s = record {
  counted = s.counted;
  dated = s.dated;
  queued =
      λ uid. present-setdefault t.metadata t.first_q (row.queue_uid lane) uid _ row.cycle s.queued;
  total = s.total;
  held_le = s.held_le;
  backend_le = s.backend_le;
}

length_snoc : (xs : List ℕ) (x : ℕ) → length (xs ++ (x ∷ [])) ≡ length xs + 1
length_snoc [] x = omega arith
length_snoc (y ∷ xs) x = let rest = length_snoc xs x in ground arith

dated_snoc :
    (retire : ℕ → Option ℕ) (xs : List ℕ) (x cycle : ℕ)
    → All (λ uid. present (retire uid) ≡ true) xs
    → All (λ uid. present (update retire x (some cycle) uid) ≡ true) (xs ++ (x ∷ []))
unfolding present
dated_snoc retire [] x cycle h = ground arith
dated_snoc retire (y ∷ xs) x cycle (first, h) = (ground arith, dated_snoc retire xs x cycle h)

retire_lanes_keeps :
    (rows left lane : ℕ) (row : TraceRow) (t : Tables)
    → Stage rows left 1 t
    → Stage rows 0 1 (retire_lanes row left lane t)
unfolding retire_lanes
retire_lanes_keeps rows zero lane row t s = s
retire_lanes_keeps rows (suc left) lane row t s =
    let size = length_snoc t.committed (row.retire_uid lane) in
    let counted = s.counted in
    retire_lanes_keeps rows left (lane + 1) row _ (record {
      counted = omega (arith, size, counted);
      dated = dated_snoc t.retire t.committed (row.retire_uid lane) row.cycle s.dated;
      queued = s.queued;
      total = s.total;
      held_le = s.held_le;
      backend_le = s.backend_le;
    })

count_held_keeps :
    (rows : ℕ) (row : TraceRow) (t : Tables) → Stage rows 0 1 t → Stage rows 0 0 (count_held row t)
unfolding count_held
count_held_keeps rows row t s =
    let bound = s.held_le in
    let order = s.backend_le in
    elim (Bool-cases (not (row.fetch_valid == 0) && row.fetch_fire == 0)) [
      | inl e ↦ rw e (record {
        counted = s.counted;
        dated = s.dated;
        queued = s.queued;
        total = s.total;
        held_le = omega arith;
        backend_le = ground arith;
      })
      | inr e ↦ rw e (record {
        counted = s.counted;
        dated = s.dated;
        queued = s.queued;
        total = s.total;
        held_le = omega arith;
        backend_le = s.backend_le;
      })
    ]

note_row_keeps :
    (rows : ℕ) (row : TraceRow) (t : Tables)
    → Stage rows 0 0 t
    → Stage (rows + 1) 0 1 (note_row row t)
unfolding note_row fetch_lane issue_lane complete_lane
note_row_keeps rows row t s =
    let n = rows + 1 in
    let bound = s.held_le in
    let total = s.total in
    let counted : Stage (rows + 1) 0 1 (record t { total_cycles = t.total_cycles + 1 }) = record {
      counted = s.counted;
      dated = s.dated;
      queued = s.queued;
      total = omega (arith, total);
      held_le = omega (arith, bound);
      backend_le = s.backend_le;
    } in
    let fetched =
      over_lanes_keeps (Stage n 0 1) row.fetch_valid (fetch_lane row) _ (λ lane t s. s) counted in
    let queued =
      over_lanes_keeps (Stage n 0 1) row.queue_valid (queue_lane row) _ (queue_lane_keeps n row)
        fetched in
    let issued =
      over_lanes_keeps (Stage n 0 1) row.issue_valid (issue_lane row) _ (λ lane t s. s) queued in
    let completed =
      over_lanes_keeps (Stage n 0 1) row.complete_valid (complete_lane row) _ (λ lane t s. s)
        issued in
    let size = completed.counted in
    retire_lanes_keeps n row.retire_count 0 row _ (record {
      counted = omega (arith, size);
      dated = completed.dated;
      queued = completed.queued;
      total = completed.total;
      held_le = completed.held_le;
      backend_le = completed.backend_le;
    })

pub read_row_keeps :
    (rows : ℕ) (row : TraceRow) (t next : Tables)
    → Stage rows 0 0 t
    → read_row row t ≡ ok next
    → Stage (rows + 1) 0 0 next
unfolding read_row
read_row_keeps rows row t next s h =
    let e : count_held row (note_row row t) ≡ next = ground arith in
    subst (Stage (rows + 1) 0 0) e (count_held_keeps (rows + 1) row _ (note_row_keeps rows row t s))
