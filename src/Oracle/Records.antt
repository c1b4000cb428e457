-- ===== src/Oracle/Records.antt =====
-- The records of tools/branch_oracle_from_trace.py, and the lines read back.
use open_rv.Prelude.{
  if_split, ℕ, zero, suc, ◌+◌, ◌/◌, ◌%◌, ◌^◌, ◌<◌, ◌≡◌, ◌⊎◌, inl, inr, refl, sym, ap, ◌∙◌, arith,
  true, false, not, Option, some, List, [], ◌∷◌, ok, >>=-eq-ok, refuse_if-eq-ok, ◌==◌,
  if◌then◌else◌, length, get_elem?, Bool-cases,
}
use open_rv.Text.{has_all, Text, uint, int_of, format_hex}
use open_rv.Text.Hex.{int_of-format_hex}
use open_rv.Oracle.{
  OracleRow, missing_columns, retired_rows, is_control, record_of, target_of, required, records,
  lines_of, is_unexpected, branch_oracle,
}

-- The control transfers among the first `i` retired instructions.
abbrev pub controls : ℕ → List (ℕ × ℕ) → ℕ
controls zero retired = 0
controls (suc i) [] = 0
controls (suc i) ((pc, instr) ∷ retired) =
    if is_control instr then suc (controls i retired) else controls i retired

abbrev Recorded : ℕ → ℕ → List (ℕ × ℕ) → List ℕ → Type 0
Recorded pc instr retired found =
    (target : ℕ) × (more : List ℕ) × (is_control instr ≡ true)
    × (target_of pc retired ≡ ok target)
    × (records retired ≡ ok more)
    × (record_of pc target ∷ more ≡ found)

records_cons :
    (pc instr : ℕ) (retired : List (ℕ × ℕ)) (found : List ℕ)
    → records ((pc, instr) ∷ retired) ≡ ok found
    → ((is_control instr ≡ false) × (records retired ≡ ok found)) ⊎ Recorded pc instr retired found
unfolding records
records_cons pc instr retired found h = elim (if_split (is_control instr) _ _ h) [
  | inr plain ↦ inl plain
  | inl (e, recorded) ↦
      let (target, at, rest) = >>=-eq-ok (target_of pc retired) _ recorded in
      let (more, later, last) = >>=-eq-ok (records retired) _ rest in
      let whole : record_of pc target ∷ more ≡ found = cc in inr (target, more, e, at, later, whole)
]

target_next :
    (pc next_pc next_instr target : ℕ) (retired : List (ℕ × ℕ))
    → get_elem? retired 0 ≡ some (next_pc, next_instr)
    → target_of pc retired ≡ ok target
    → target ≡ next_pc
target_next pc next_pc next_instr target [] next at = cc
target_next pc next_pc next_instr target ((n, c) ∷ retired) next at =
    let same : n ≡ target = cc in
    let that : (n, c) ≡ (next_pc, next_instr) = cc in sym same ∙ ap (λ (x : ℕ × ℕ). x.0) that

records_found :
    (retired : List (ℕ × ℕ)) (found : List ℕ) (i pc instr next_pc next_instr : ℕ)
    → records retired ≡ ok found
    → get_elem? retired i ≡ some (pc, instr)
    → get_elem? retired (suc i) ≡ some (next_pc, next_instr)
    → is_control instr ≡ true
    → get_elem? found (controls i retired) ≡ some (record_of pc next_pc)
records_found [] found i pc instr next_pc next_instr h here next control = cc
records_found ((p, c) ∷ retired) found zero pc instr next_pc next_instr h here next control =
    let that : (p, c) ≡ (pc, instr) = cc in
    let same_pc : p ≡ pc = ap (λ (x : ℕ × ℕ). x.0) that in
    let same : c ≡ instr = ap (λ (x : ℕ × ℕ). x.1) that in
    elim (records_cons p c retired found h) [
      | inl (plain, rest) ↦ let other : is_control c ≡ true = ap is_control same ∙ control in cc
      | inr (target, more, e, at, rest, whole) ↦
          let next_is = target_next p next_pc next_instr target retired next at in
          ap (λ (xs : List ℕ). get_elem? xs 0) (sym whole)
          ∙ ap (λ t. some (record_of p t)) next_is
          ∙ ap (λ q. some (record_of q next_pc)) same_pc
    ]
records_found ((p, c) ∷ retired) found (suc i) pc instr next_pc next_instr h here next control =
    elim (records_cons p c retired found h) [
      | inl (plain, rest) ↦
          rw plain
            (records_found retired found i pc instr next_pc next_instr rest here next control)
      | inr (target, more, e, at, rest, whole) ↦
          let later =
            records_found retired more i pc instr next_pc next_instr rest here next control in
          rw e (ap (λ (xs : List ℕ). get_elem? xs (suc (controls i retired))) (sym whole) ∙ later)
    ]

records-length :
    (retired : List (ℕ × ℕ)) (found : List ℕ)
    → records retired ≡ ok found
    → length found ≡ controls (length retired) retired
unfolding records
records-length [] found h = let none_found : [] ≡ found = cc in ap length (sym none_found)
records-length ((p, c) ∷ retired) found h = elim (records_cons p c retired found h) [
  | inl (plain, rest) ↦ rw plain (records-length retired found rest)
  | inr (target, more, e, at, rest, whole) ↦
      rw e (ap length (sym whole) ∙ ap suc (records-length retired more rest))
]

-- A record holds the target and, above it, whether it is not the next instruction.
record_of_lem :
    (pc target : ℕ)
    → target < 2 ^ 64
    → (record_of pc target % 2 ^ 64 ≡ target)
      × (record_of pc target / 2 ^ 64 ≡ (if target == pc + 4 then 0 else 1))
record_of_lem pc target h =
    let top : target / 2 ^ 64 ≡ 0 = omega arith in
    let clear : target / 2 ^ 64 % 2 == 1 ≡ false = ground arith in
    elim (Bool-cases (target == pc + 4)) [
      | inl e ↦ rw e (omega arith, omega arith)
      | inr e ↦ rw (e, clear) (omega arith, omega arith)
    ]

lines_of-get_elem? :
    (found : List ℕ) (k r : ℕ)
    → get_elem? found k ≡ some r
    → get_elem? (lines_of found) k ≡ some (format_hex 17 r)
lines_of-get_elem? [] k r h = cc
lines_of-get_elem? (x ∷ found) zero r h =
    let same : x ≡ r = ground arith in ap (λ y. some (format_hex 17 y)) same
lines_of-get_elem? (x ∷ found) (suc k) r h = lines_of-get_elem? found k r h

length-lines_of : (found : List ℕ) → length (lines_of found) ≡ length found
length-lines_of [] = refl
length-lines_of (x ∷ found) = ap suc (length-lines_of found)

-- The lines and the rows they are made of.
branch_oracle_ok :
    (expect_count : Option ℕ) (header : List Text) (rows : List OracleRow) (lines : List Text)
    → branch_oracle expect_count header rows ≡ ok lines
    → (retired : List (ℕ × ℕ)) × (found : List ℕ) × (retired_rows rows ≡ ok retired)
      × (records retired ≡ ok found)
      × (lines_of found ≡ lines)
unfolding branch_oracle
branch_oracle_ok expect_count header rows lines h =
    let (known, begun) = refuse_if-eq-ok (not (has_all required header)) missing_columns _ h in
    let (retired, read, more) = >>=-eq-ok (retired_rows rows) _ begun in
    let (found, made, counted) = >>=-eq-ok (records retired) _ more in
    let (agreed, last) = refuse_if-eq-ok (is_unexpected expect_count (length found)) _ _ counted in
    let same : lines_of found ≡ lines = cc in (retired, found, read, made, same)

-- The line of the control transfer at `i`, where the targets are 64 bits wide.
abbrev pub IsOracle : List (ℕ × ℕ) → List Text → Type 0
IsOracle retired lines =
    (i pc instr next_pc next_instr : ℕ)
    → get_elem? retired i ≡ some (pc, instr)
    → get_elem? retired (suc i) ≡ some (next_pc, next_instr)
    → is_control instr ≡ true
    → next_pc < 2 ^ 64
    → (line : Text) × (r : ℕ) × (get_elem? lines (controls i retired) ≡ some line)
      × (int_of 16 line ≡ uint r)
      × (r % 2 ^ 64 ≡ next_pc)
      × (r / 2 ^ 64 ≡ (if next_pc == pc + 4 then 0 else 1))

-- If the oracle is made, then it has one line for each control transfer among the retired
-- instructions, in their order; where the next retired counter is below 2 ^ 64, the line reads
-- back as a number whose low 64 bits are that counter, and whose upper part is 1 if it is not the
-- next address and 0 if it is.
pub branch_oracle-IsOracle :
    (expect_count : Option ℕ) (header : List Text) (rows : List OracleRow) (lines : List Text)
    → branch_oracle expect_count header rows ≡ ok lines
    → (retired : List (ℕ × ℕ)) × (retired_rows rows ≡ ok retired)
      × (length lines ≡ controls (length retired) retired)
      × IsOracle retired lines
branch_oracle-IsOracle expect_count header rows lines h =
    let (retired, found, read, made, same) = branch_oracle_ok expect_count header rows lines h in
    (
      retired,
      read,
      ap length (sym same) ∙ length-lines_of found ∙ records-length retired found made,
      λ i pc instr next_pc next_instr here next control wide.
          let r = record_of pc next_pc in
          let there =
            records_found retired found i pc instr next_pc next_instr made here next control in
          let (target, taken) = record_of_lem pc next_pc wide in
          (
            format_hex 17 r,
            r,
            ap (λ (ls : List Text). get_elem? ls (controls i retired)) (sym same)
                ∙ lines_of-get_elem? found _ r there,
            int_of-format_hex 17 r (omega arith),
            target,
            taken,
          ),
    )
