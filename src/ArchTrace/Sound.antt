-- ===== src/ArchTrace/Sound.antt =====
-- What `validate` of tools/check_arch_trace.py accepts.
use open_rv.Prelude.{
  ℕ, suc, ◌+◌, ◌≤◌, ◌<◌, ◌≡◌, ◌↔◌, refl, sym, ap, ◌∙◌, arith, true, false, not, Option, none, some,
  List, [], ◌∷◌, ok, refuse_if-eq-ok, >>=-eq-ok, ◌==◌, length,
}
use open_rv.Text.{Text}
use open_rv.ArchTrace.{
  header_mismatch, no_rows, texts_eq, fields, Retired, read_row, check_row, check_rows, validate,
}
use open_rv.ArchTrace.Rows.{count, IsInSequence, IsTrace, IsRead, Follows, >>_iff, check_row_iff}

Follows-next :
    (previous : Option (ℕ × ℕ)) (earlier : List Retired) (row : Retired)
    → Follows previous earlier
    → IsInSequence earlier row
    → Follows (some (row.cycle, row.lane)) (row ∷ earlier)
unfolding Follows
Follows-next previous earlier row h (order, before, lane, small) = ground arith

check_rows-IsTrace :
    (order : ℕ) (previous : Option (ℕ × ℕ)) (earlier : List Retired) (rows : List (List Text))
    → order ≡ length earlier
    → Follows previous earlier
    → check_rows order previous rows ≡ ok tt
    → (rs : List Retired) × IsRead order rows rs × IsTrace earlier rs
unfolding check_rows
check_rows-IsTrace order previous earlier [] e h passed = ([], tt, tt)
check_rows-IsTrace order previous earlier (row ∷ rows) e h passed =
    let (r, read, rest) = >>=-eq-ok (read_row (order + 2) row) _ passed in
    let (first, later) = (>>_iff (check_row (order + 2) order previous r) _).0 rest in
    let checks = (check_row_iff (order + 2) order previous earlier r e h).0 first in
    let next = Follows-next previous earlier r h checks.0 in
    let (rs, more, trace) =
      check_rows-IsTrace (order + 1) (some (r.cycle, r.lane)) (r ∷ earlier) rows (ground arith) next
        later in
    (r ∷ rs, (read, more), (checks, trace))

IsTrace-check_rows :
    (order : ℕ) (previous : Option (ℕ × ℕ)) (earlier : List Retired) (rows : List (List Text))
    (rs : List Retired)
    → order ≡ length earlier
    → Follows previous earlier
    → IsRead order rows rs
    → IsTrace earlier rs
    → check_rows order previous rows ≡ ok tt
unfolding check_rows
IsTrace-check_rows order previous earlier [] rs e h read trace = refl
IsTrace-check_rows order previous earlier (row ∷ rows) [] e h read trace = absurd read
IsTrace-check_rows order previous earlier (row ∷ rows) (r ∷ rs) e h (read, more) (checks, trace) =
    let passed = (check_row_iff (order + 2) order previous earlier r e h).1 checks in
    let next = Follows-next previous earlier r h checks.0 in
    rw (read, passed)
      (IsTrace-check_rows (order + 1) (some (r.cycle, r.lane)) (r ∷ earlier) rows rs (ground arith)
        next more trace)

abbrev pub IsAccepted : List Text → List (List Text) → ℕ → Type 0
IsAccepted header rows n =
    (texts_eq header fields ≡ true)
    × (n ≡ length rows)
    × 0 < n
    × ((rs : List Retired) × IsRead 0 rows rs × IsTrace [] rs)

validate-IsAccepted :
    (header : List Text) (rows : List (List Text)) (n : ℕ)
    → validate header rows ≡ ok n
    → IsAccepted header rows n
unfolding validate Follows
validate-IsAccepted header rows n passed =
    let (known, more) = refuse_if-eq-ok (not (texts_eq header fields)) header_mismatch _ passed in
    let (some_row, last) = refuse_if-eq-ok (length rows == 0) no_rows _ more in
    let (done, checked, e) = >>=-eq-ok (check_rows 0 none rows) _ last in
    let trace = check_rows-IsTrace 0 none [] rows refl refl checked in
    let e' : length rows ≡ n = cc in (ground arith, sym e', ground arith, trace)

IsAccepted-validate :
    (header : List Text) (rows : List (List Text)) (n : ℕ)
    → IsAccepted header rows n
    → validate header rows ≡ ok n
unfolding validate Follows
IsAccepted-validate header rows n (known, e, positive, (rs, read, trace)) =
    let passed = IsTrace-check_rows 0 none [] rows rs refl refl read trace in
    let some_row : length rows == 0 ≡ false = ground arith in
    rw (known, some_row, passed) (ap ok (sym e))

-- `validate` returns `n` if and only if the header is that of the format, there are `n` rows and
-- at least one, and every row can be read, has its index as order, a cycle not below those of the
-- earlier rows, the number of earlier rows of its cycle as lane and at most 2, has its fields in
-- range and the digits of its texts right, writes no register unless it is architectural, and has
-- its counters aligned if it is architectural without an exception.
pub validate_iff :
    (header : List Text) (rows : List (List Text)) (n : ℕ)
    → (validate header rows ≡ ok n) ↔ IsAccepted header rows n
validate_iff header rows n = (validate-IsAccepted header rows n, IsAccepted-validate header rows n)

count_bound :
    (earlier rows : List Retired) (c : ℕ)
    → IsTrace earlier rows
    → ((d : ℕ) → count d earlier ≤ 3)
    → count c rows + count c earlier ≤ 3
count_bound earlier [] c trace h = let k = h c in omega arith
count_bound earlier (row ∷ rows) c (((order, before, lane, small), ranges, hex, aligned), trace) h =
    let step : (d : ℕ) → count d (row ∷ earlier) ≤ 3 = λ d. let k = h d in ground arith in
    let rest = count_bound (row ∷ earlier) rows c trace step in ground arith

IsRead-length :
    (order : ℕ) (rows : List (List Text)) (rs : List Retired)
    → IsRead order rows rs
    → length rs ≡ length rows
IsRead-length order [] [] read = refl
IsRead-length order [] (r ∷ rs) read = absurd read
IsRead-length order (row ∷ rows) [] read = absurd read
IsRead-length order (row ∷ rows) (r ∷ rs) (first, read) =
    ap suc (IsRead-length (order + 1) rows rs read)

-- In a trace of `n` rows that `validate` accepts, every row can be read, and no cycle has more
-- than three of them.
pub validate-count :
    (header : List Text) (rows : List (List Text)) (n c : ℕ)
    → validate header rows ≡ ok n
    → (rs : List Retired) × IsRead 0 rows rs × (length rs ≡ n) × count c rs ≤ 3
validate-count header rows n c passed =
    let (known, e, positive, (rs, read, trace)) = validate-IsAccepted header rows n passed in
    let bound = count_bound [] rs c trace (λ d. omega arith) in
    (rs, read, IsRead-length 0 rows rs read ∙ sym e, omega arith)
