-- ===== src/ArchTrace.antt =====
-- tools/check_arch_trace.py: `FIELDS`, `parse_uint` and `validate`. The header and the rows are what the
-- `csv` module yields, a row as the list of its cells.
pub mod Sound
pub mod Rows
use open_rv.Prelude.{
  ℕ, zero, suc, ◌+◌, ◌-◌, ◌%◌, Bool, true, false, not, ◌&&◌, ◌||◌, Option, none, some, List, [],
  ◌∷◌, Result, ok, err, ◌>>=◌, ◌>>◌, refuse_if, ltb, leb, ◌==◌, if◌then◌else◌, length, codes,
}
use open_rv.Text.{Text, text_eq, Integer, invalid, negative, uint, int_of}

abbrev pub fields : List Text
fields =
    codes "order"
    ∷ codes "cycle"
    ∷ codes "lane"
    ∷ codes "arch"
    ∷ codes "pc"
    ∷ codes "instr"
    ∷ codes "next_pc"
    ∷ codes "rd_write"
    ∷ codes "rd"
    ∷ codes "wdata"
    ∷ codes "exception"
    ∷ codes "cause"
    ∷ codes "mode"
    ∷ []

abbrev pub texts_eq : List Text → List Text → Bool
texts_eq [] [] = true
texts_eq (x ∷ xs) (y ∷ ys) = text_eq x y && texts_eq xs ys
texts_eq [] (y ∷ ys) = false
texts_eq (x ∷ xs) [] = false

-- Each exception with the line of the file; a column under its name in `fields`.
pub data TraceError : Type 0 where
  header_mismatch no_rows : TraceError
  wrong_columns : ℕ → TraceError
  not_an_integer : ℕ → Text → TraceError
  is_negative : ℕ → Text → TraceError
  order_gap cycle_regressed lane_gap lane_outside : ℕ → TraceError
  not_bits writes_register rd_outside cause_outside invalid_mode : ℕ → TraceError
  not_hex : ℕ → Text → TraceError
  invalid_literal : TraceError
  unaligned : ℕ → Text → TraceError

-- The cells of a row under the names of the header.
pub record Cells : Type 0 where
  pub order : Text
  pub cycle : Text
  pub lane : Text
  pub arch : Text
  pub pc : Text
  pub instr : Text
  pub next_pc : Text
  pub rd_write : Text
  pub rd : Text
  pub wdata : Text
  pub exception : Text
  pub cause : Text
  pub mode : Text

-- None when cells are missing or left over.
unfoldable pub cells_of : List Text → Option Cells
cells_of (a ∷ b ∷ c ∷ d ∷ e ∷ f ∷ g ∷ h ∷ i ∷ j ∷ k ∷ l ∷ m ∷ []) = some (record {
  order = a;
  cycle = b;
  lane = c;
  arch = d;
  pc = e;
  instr = f;
  next_pc = g;
  rd_write = h;
  rd = i;
  wdata = j;
  exception = k;
  cause = l;
  mode = m;
})
cells_of row = none

-- A row whose numbers are read; the texts of `pc`, `instr`, `next_pc` and `wdata` stay as they are.
pub record Retired : Type 0 where
  pub order : ℕ
  pub cycle : ℕ
  pub lane : ℕ
  pub arch : ℕ
  pub rd_write : ℕ
  pub rd : ℕ
  pub exception : ℕ
  pub cause : ℕ
  pub mode : ℕ
  pub cells : Cells

unfoldable pub parse_uint : ℕ → Text → Text → ℕ → Result TraceError ℕ
parse_uint line name value base = elim (int_of base value) [
  | invalid ↦ err (not_an_integer line name)
  | negative n ↦ err (is_negative line name)
  | uint n ↦ ok n
]

unfoldable pub read_cells : ℕ → Cells → Result TraceError Retired
unfolding parse_uint
read_cells line row = do
  order ← parse_uint line (codes "order") row.order 10
  cycle ← parse_uint line (codes "cycle") row.cycle 10
  lane ← parse_uint line (codes "lane") row.lane 10
  arch ← parse_uint line (codes "arch") row.arch 10
  rd_write ← parse_uint line (codes "rd_write") row.rd_write 10
  rd ← parse_uint line (codes "rd") row.rd 10
  exception ← parse_uint line (codes "exception") row.exception 10
  cause ← parse_uint line (codes "cause") row.cause 10
  mode ← parse_uint line (codes "mode") row.mode 10
  ok (record {
    order = order;
    cycle = cycle;
    lane = lane;
    arch = arch;
    rd_write = rd_write;
    rd = rd;
    exception = exception;
    cause = cause;
    mode = mode;
    cells = row;
  })

unfoldable pub read_row : ℕ → List Text → Result TraceError Retired
unfolding cells_of read_cells
read_row line row = elim (cells_of row) [
  | none ↦ err (wrong_columns line)
  | some cells ↦ read_cells line cells
]

-- Cycle and lane of the row before, `none` at the start, where the source has -1 and -1.
abbrev pub regressed : Option (ℕ × ℕ) → ℕ → Bool
regressed none cycle = false
regressed (some (previous_cycle, previous_lane)) cycle = ltb cycle previous_cycle

abbrev pub expected_lane : Option (ℕ × ℕ) → ℕ → ℕ
expected_lane none cycle = 0
expected_lane (some (previous_cycle, previous_lane)) cycle =
    if cycle == previous_cycle then previous_lane + 1 else 0

unfoldable pub check_sequence : ℕ → ℕ → Option (ℕ × ℕ) → Retired → Result TraceError Unit
check_sequence line expected_order previous row = do
  refuse_if (not (row.order == expected_order)) (order_gap line)
  refuse_if (regressed previous row.cycle) (cycle_regressed line)
  refuse_if (not (row.lane == expected_lane previous row.cycle)) (lane_gap line)
  refuse_if (ltb 2 row.lane) (lane_outside line)

unfoldable pub check_ranges : ℕ → Retired → Result TraceError Unit
check_ranges line row = do
  refuse_if (ltb 1 row.arch || (ltb 1 row.rd_write || ltb 1 row.exception)) (not_bits line)
  refuse_if (row.arch == 0 && not (row.rd_write == 0)) (writes_register line)
  refuse_if (ltb 31 row.rd) (rd_outside line)
  refuse_if (ltb 31 row.cause) (cause_outside line)
  refuse_if (not (row.mode == 0 || (row.mode == 1 || row.mode == 3))) (invalid_mode line)

abbrev pub is_hex : ℕ → Bool
is_hex c = (leb b'0' c && leb c b'9') || ((leb b'a' c && leb c b'f') || (leb b'A' c && leb c b'F'))

abbrev pub all_hex : Text → Bool
all_hex [] = true
all_hex (c ∷ cs) = is_hex c && all_hex cs

abbrev pub is_hex_field : ℕ → Text → Bool
is_hex_field digits value = length value == digits && all_hex value

unfoldable pub check_hex : ℕ → Cells → Result TraceError Unit
check_hex line row = do
  refuse_if (not (is_hex_field 16 row.pc)) (not_hex line (codes "pc"))
  refuse_if (not (is_hex_field 8 row.instr)) (not_hex line (codes "instr"))
  refuse_if (not (is_hex_field 16 row.next_pc)) (not_hex line (codes "next_pc"))
  refuse_if (not (is_hex_field 16 row.wdata)) (not_hex line (codes "wdata"))

-- `int(value, 16) & 3`
unfoldable pub low_bits : Text → Result TraceError ℕ
low_bits value = elim (int_of 16 value) [
  | invalid ↦ err invalid_literal
  | negative n ↦ ok ((4 - n % 4) % 4)
  | uint n ↦ ok (n % 4)
]

unfoldable pub check_aligned : ℕ → Text → Text → Result TraceError Unit
unfolding low_bits
check_aligned line name value =
    low_bits value >>= λ low. refuse_if (not (low == 0)) (unaligned line name)

unfoldable pub check_alignment : ℕ → Retired → Result TraceError Unit
unfolding check_aligned
check_alignment line row =
    if not (row.arch == 0) && row.exception == 0
    then (check_aligned line (codes "pc") row.cells.pc
        >> check_aligned line (codes "next_pc") row.cells.next_pc)
    else ok tt

-- The checks of a row, once its numbers are read.
unfoldable pub check_row : ℕ → ℕ → Option (ℕ × ℕ) → Retired → Result TraceError Unit
check_row line expected_order previous row = do
  check_sequence line expected_order previous row
  check_ranges line row
  check_hex line row.cells
  check_alignment line row

unfoldable pub check_rows : ℕ → Option (ℕ × ℕ) → List (List Text) → Result TraceError Unit
check_rows expected_order previous [] = ok tt
check_rows expected_order previous (row ∷ rows) = do
  retired ← read_row (expected_order + 2) row
  check_row (expected_order + 2) expected_order previous retired
  check_rows (expected_order + 1) (some (retired.cycle, retired.lane)) rows

unfoldable pub validate : List Text → List (List Text) → Result TraceError ℕ
validate header rows = do
  refuse_if (not (texts_eq header fields)) header_mismatch
  refuse_if (length rows == 0) no_rows
  check_rows 0 none rows
  ok (length rows)
