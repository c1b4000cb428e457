-- ===== src/ThreeLane/Partition.antt =====
-- The exclusive counts of `summary` in tools/pipeline_trace_3p.py.
use open_rv.Prelude.{
  ℕ, zero, suc, ◌+◌, ◌≡◌, refl, ap, arith, Bool, true, false, ◌||◌, List, [], ◌∷◌, ◌++◌, leb, ◌==◌,
  length, codes, Bool-cases, inl, inr,
}
use open_rv.Text.{Text, text_eq}
use open_rv.ThreeLane.Tables.{v2}
use open_rv.ThreeLane.{Row, row_cell, int_of_bool}
use open_rv.ThreeLane.Counts.{
  is_set, v2_observations, window_observations, frontend_cause, if_empty, frontend_observations,
  if_present, observed, counted, counts, sum_of, reason_counts, summary,
}

counted-append :
    (name : Text) (first rest : List (Text × Bool))
    → counted name (first ++ rest) ≡ counted name first + counted name rest
counted-append name [] rest = omega arith
counted-append name ((other, holds) ∷ first) rest = elim (Bool-cases (text_eq other name)) [
  | inl e ↦ rw e (omega (arith, counted-append name first rest))
  | inr e ↦ rw e (counted-append name first rest)
]

-- The five causes together, of anything that is counted by name.
abbrev pub causes_total : (Text → ℕ) → ℕ
causes_total count =
    count (codes "frontend_control")
    + (count (codes "frontend_bp_stall")
        + (count (codes "frontend_refill_wait")
            + (count (codes "frontend_no_line") + count (codes "frontend_other_empty"))))

causes_total-append :
    (first rest : List (Text × Bool))
    → causes_total (λ name. counted name (first ++ rest))
      ≡ causes_total (λ name. counted name first) + causes_total (λ name. counted name rest)
causes_total-append first rest = omega (
  arith,
  counted-append (codes "frontend_control") first rest,
  counted-append (codes "frontend_bp_stall") first rest,
  counted-append (codes "frontend_refill_wait") first rest,
  counted-append (codes "frontend_no_line") first rest,
  counted-append (codes "frontend_other_empty") first rest,
)

causes_total-frontend :
    (empty control stalled hit waiting : Bool)
    → causes_total
        (λ name. counted name (if_empty empty (frontend_cause control stalled hit waiting)))
      ≡ int_of_bool empty
causes_total-frontend false _ _ _ _ = refl
causes_total-frontend true true _ _ _ = refl
causes_total-frontend true false true _ _ = refl
causes_total-frontend true false false true _ = refl
causes_total-frontend true false false false true = refl
causes_total-frontend true false false false false = refl

causes_total-window :
    (present : Bool) (row : Row)
    → causes_total (λ name. counted name (if_present present (window_observations row))) ≡ 0
causes_total-window false row = refl
causes_total-window true row = refl

counted-frontend :
    (empty control stalled hit waiting : Bool)
    → counted (codes "frontend_empty") (if_empty empty (frontend_cause control stalled hit waiting))
      ≡ 0
counted-frontend false _ _ _ _ = refl
counted-frontend true true _ _ _ = refl
counted-frontend true false true _ _ = refl
counted-frontend true false false true _ = refl
counted-frontend true false false false true = refl
counted-frontend true false false false false = refl

counted-window :
    (present : Bool) (row : Row)
    → counted (codes "frontend_empty") (if_present present (window_observations row)) ≡ 0
counted-window false row = refl
counted-window true row = refl

abbrev control_of : Row → Bool
control_of row = is_set row (codes "control_flush") || is_set row (codes "control_redirect")

abbrev stalled_of : Row → Bool
stalled_of row = is_set row (codes "bp_fetch_stall")

abbrev hit_of : Row → Bool
hit_of row = is_set row (codes "fetch_consume_hit")

abbrev waiting_of : Row → Bool
waiting_of row = is_set row (codes "fetch_pending") || is_set row (codes "fetch_bus_q")

observed-causes :
    (row : Row)
    → causes_total (λ name. counted name (observed v2 row))
      ≡ counted (codes "frontend_empty") (observed v2 row)
unfolding observed v2_observations
observed-causes row =
    let present = is_set row (codes "window_fields_present") in
    let window = if_present present (window_observations row) in
    let empty = row_cell row (codes "fetch_valid") == 0 in
    let front = frontend_observations row in
    let causes : causes_total (λ name. counted name (window ++ front)) ≡ int_of_bool empty = omega (
      arith,
      causes_total-append window front,
      causes_total-window present row,
      causes_total-frontend empty (control_of row) (stalled_of row) (hit_of row) (waiting_of row),
    ) in
    let none_empty : counted (codes "frontend_empty") (window ++ front) ≡ 0 = omega (
      arith,
      counted-append (codes "frontend_empty") window front,
      counted-window present row,
      counted-frontend empty (control_of row) (stalled_of row) (hit_of row) (waiting_of row),
    ) in
    omega (arith, causes, none_empty)

counts-causes :
    (rows : List Row) → causes_total (counts v2 rows) ≡ counts v2 rows (codes "frontend_empty")
unfolding counts
counts-causes [] = refl
counts-causes (row ∷ rows) = omega (arith, observed-causes row, counts-causes rows)

-- `f 0 + … + f (count - 1)`
abbrev pub sum_below : ℕ → (ℕ → ℕ) → ℕ
sum_below zero f = 0
sum_below (suc count) f = sum_below count f + f count

abbrev reason_at : Row → ℕ
reason_at row = row_cell row (codes "block_reason")

abbrev pub rows_above : ℕ → List Row → ℕ
rows_above count rows = sum_of (λ row. int_of_bool (leb count (reason_at row))) rows

one_reason :
    (count reason : ℕ)
    → sum_below count (λ k. int_of_bool (reason == k)) + int_of_bool (leb count reason) ≡ 1
one_reason zero reason = ground arith
one_reason (suc count) reason =
    let before = one_reason count reason in
    let step : int_of_bool (reason == count) + int_of_bool (leb (suc count) reason)
        ≡ int_of_bool (leb count reason) =
      ground arith in
    omega (arith, before, step)

sum_below-add :
    (count : ℕ) (f g : ℕ → ℕ)
    → sum_below count (λ k. f k + g k) ≡ sum_below count f + sum_below count g
sum_below-add zero f g = refl
sum_below-add (suc count) f g = omega (arith, sum_below-add count f g)

sum_below-zero : (count : ℕ) → sum_below count (λ k. 0) ≡ 0
sum_below-zero zero = refl
sum_below-zero (suc count) = omega (arith, sum_below-zero count)

all_reasons :
    (count : ℕ) (rows : List Row)
    → sum_below count (reason_counts v2 rows) + rows_above count rows ≡ length rows
unfolding reason_counts
all_reasons count [] = omega (arith, sum_below-zero count)
all_reasons count (row ∷ rows) =
    let first = one_reason count (reason_at row) in
    let rest = all_reasons count rows in
    let split =
      sum_below-add count (λ k. int_of_bool (reason_at row == k)) (reason_counts v2 rows) in
    omega (arith, first, rest, split)

sum_below-first :
    (count : ℕ) (f : ℕ → ℕ) → sum_below (suc count) f ≡ f 0 + sum_below count (λ k. f (k + 1))
sum_below-first zero f = omega arith
sum_below-first (suc count) f =
    let shift : f (suc count) ≡ f (count + 1) = ap f (omega arith) in
    omega (arith, sum_below-first count f, shift)

-- In the summary of a trace of the second format the five causes of an empty frontend add up to
-- the cycles in which it is empty, and the block reasons 1 to 13, with the rows of a higher
-- reason, to the blocked cycles.
pub summary_partition :
    (rows : List Row)
    → (causes_total (summary v2 rows).counts ≡ (summary v2 rows).counts (codes "frontend_empty"))
      × (sum_below 13 (λ k. (summary v2 rows).reasons (k + 1)) + rows_above 14 rows
          ≡ (summary v2 rows).blocked)
unfolding summary
summary_partition rows = (
  counts-causes rows,
  omega (arith, all_reasons 14 rows, sum_below-first 13 (reason_counts v2 rows)),
)
