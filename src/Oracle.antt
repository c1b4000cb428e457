-- ===== src/Oracle.antt =====
-- tools/branch_oracle_from_trace.py: the control transfers of a retirement trace with their actual
-- targets. The header and the rows are what the `csv` module yields.
pub mod Records
use open_rv.Prelude.{
  ℕ, zero, suc, ◌+◌, ◌*◌, ◌/◌, ◌%◌, ◌^◌, Bool, true, false, not, ◌&&◌, ◌||◌, Option, none, some,
  List, [], ◌∷◌, ◌++◌, Result, ok, err, ◌>>=◌, ◌>>◌, refuse_if, ◌==◌, if◌then◌else◌, length, codes,
}
use open_rv.Text.{Text, has_all, Integer, invalid, negative, uint, int_of, format_hex}

-- The cells of a row by lane.
pub record OracleRow : Type 0 where
  pub retire_valid : Text
  pub pc : ℕ → Text
  pub instr : ℕ → Text

-- `below_zero` stands for a cell with a number below zero.
pub data OracleError : Type 0 where
  missing_columns invalid_literal below_zero : OracleError
  final_control : ℕ → OracleError
  wrong_count : ℕ → ℕ → OracleError

abbrev pub required : List Text
required =
    codes "retire_valid"
    ∷ codes "r0_pc"
    ∷ codes "r0_instr"
    ∷ codes "r1_pc"
    ∷ codes "r1_instr"
    ∷ codes "r2_pc"
    ∷ codes "r2_instr"
    ∷ []

unfoldable pub hex_cell : Text → Result OracleError ℕ
hex_cell value = elim (int_of 16 value) [
  | invalid ↦ err invalid_literal
  | negative n ↦ err below_zero
  | uint n ↦ ok n
]

-- The lanes from `lane` on that are valid, as pairs of counter and instruction.
unfoldable pub retired_lanes : OracleRow → ℕ → ℕ → ℕ → Result OracleError (List (ℕ × ℕ))
unfolding hex_cell
retired_lanes row valid zero lane = ok []
retired_lanes row valid (suc left) lane =
    let rest = retired_lanes row valid left (lane + 1) in
    if valid / 2 ^ lane % 2 == 1
    then (hex_cell (row.pc lane) >>= λ pc.
        hex_cell (row.instr lane) >>= λ instr. rest >>= λ more. ok ((pc, instr) ∷ more))
    else rest

unfoldable pub retired_rows : List OracleRow → Result OracleError (List (ℕ × ℕ))
unfolding hex_cell retired_lanes
retired_rows [] = ok []
retired_rows (row ∷ rows) = do
  valid ← hex_cell row.retire_valid
  now ← retired_lanes row valid 3 0
  later ← retired_rows rows
  ok (now ++ later)

-- `CONTROL_OPCODES`
abbrev pub is_control : ℕ → Bool
is_control instr =
    let opcode = instr % 2 ^ 7 in opcode == 0x63 || (opcode == 0x6f || opcode == 0x67)

-- `(int(actual_taken) << 64) | actual_target`
abbrev pub record_of : ℕ → ℕ → ℕ
record_of pc target =
    if target == pc + 4
    then target
    else if target / 2 ^ 64 % 2 == 1
    then target
    else 2 ^ 64 + target

-- The program counter behind a control transfer, which the last one lacks.
abbrev pub target_of : ℕ → List (ℕ × ℕ) → Result OracleError ℕ
target_of pc [] = err (final_control pc)
target_of pc ((next_pc, next_instr) ∷ retired) = ok next_pc

unfoldable pub records : List (ℕ × ℕ) → Result OracleError (List ℕ)
records [] = ok []
records ((pc, instr) ∷ retired) =
    let rest = records retired in
    let recorded =
      target_of pc retired >>= λ target. (rest >>= λ more. ok (record_of pc target ∷ more)) in
    if is_control instr then recorded else rest

abbrev pub lines_of : List ℕ → List Text
lines_of [] = []
lines_of (r ∷ rs) = format_hex 17 r ∷ lines_of rs

-- `--expect-count`, when it is given.
abbrev pub is_unexpected : Option ℕ → ℕ → Bool
is_unexpected none count = false
is_unexpected (some expected) count = not (count == expected)

abbrev expected_or : Option ℕ → ℕ
expected_or none = 0
expected_or (some expected) = expected

-- The lines of the output file, each ended there by a newline.
unfoldable pub branch_oracle :
    Option ℕ → List Text → List OracleRow → Result OracleError (List Text)
unfolding retired_rows records
branch_oracle expect_count header rows = do
  refuse_if (not (has_all required header)) missing_columns
  retired ← retired_rows rows
  found ← records retired
  refuse_if (is_unexpected expect_count (length found))
      (wrong_count (length found) (expected_or expect_count))
  ok (lines_of found)
