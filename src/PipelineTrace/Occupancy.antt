-- ===== src/PipelineTrace/Occupancy.antt =====
-- How `collect_instructions` of tools/pipeline_trace.py attributes the occupied stages of a trace.
use native.Mathlib.Nat.{zero-div}
use open_rv.Prelude.{
  if_split, ℕ, ◌+◌, ◌^◌, ◌≡◌, inl, inr, sym, ap, ◌∙◌, arith, Bool, true, false, not, ◌&&◌, ◌||◌,
  Option, none, some, List, [], ◌∷◌, ◌++◌, ok, err, >>=-eq-ok, ◌==◌, if◌then◌else◌, length,
  get_elem?, All, Bool-cases,
}
use open_rv.PipelineTrace.{PipelineError, StageValue, Row, has_bit}
use open_rv.PipelineTrace.Collect.{
  Instruction, Records, get_record, put_record, record_or, is_changed, note_stage, join_stage,
  collect_stages, retire_record, retire_wb, collect_retirement, collect_rows, collect_instructions,
}

-- The cycles that the records have in a stage.
abbrev pub total : ℕ → Records → ℕ
total i [] = 0
total i ((k, r) ∷ records) = length (r.stage_cycles i) + total i records

-- The rows in which a stage is valid.
abbrev pub occupied_from : ℕ → ℕ → List StageValue → ℕ
occupied_from i index [] = 0
occupied_from i index (stage ∷ stages) =
    (if stage.valid && index == i then 1 else 0) + occupied_from i (index + 1) stages

abbrev pub occupied : ℕ → List Row → ℕ
occupied i [] = 0
occupied i (row ∷ rows) = occupied_from i 0 row.stages + occupied i rows

total-put_record :
    (i key : ℕ) (r : Instruction) (records : Records)
    → total i (put_record key r records)
        + length ((record_or key (get_record key records)).stage_cycles i)
      ≡ total i records + length (r.stage_cycles i)
unfolding put_record get_record
total-put_record i key r [] = omega arith
total-put_record i key r ((k, s) ∷ records) = elim (Bool-cases (k == key)) [
  | inl e ↦ rw e (omega arith)
  | inr e ↦ let rest = total-put_record i key r records in rw e (omega (arith, rest))
]

length_snoc_cycle : (xs : List ℕ) (x : ℕ) → length (xs ++ (x ∷ [])) ≡ length xs + 1
length_snoc_cycle [] x = omega arith
length_snoc_cycle (y ∷ xs) x = let rest = length_snoc_cycle xs x in omega (arith, rest)

length-note_stage :
    (i : ℕ) (row : Row) (index : ℕ) (stage : StageValue) (r : Instruction)
    → length ((note_stage row index stage r).stage_cycles i)
      ≡ length (r.stage_cycles i) + (if index == i then 1 else 0)
unfolding note_stage
length-note_stage i row index stage r =
    let longer = length_snoc_cycle (r.stage_cycles index) row.cycle in
    elim (Bool-cases (i == index)) [
      | inl e ↦
          let same : index ≡ i = ground arith in
          let here : index == i ≡ true = ground arith in
          rw (e, here) (longer ∙ ap (λ j. length (r.stage_cycles j) + 1) same)
      | inr e ↦ let there : index == i ≡ false = ground arith in rw (e, there) (omega arith)
    ]

-- Without a flush the instruction keeps its record, or an error is raised.
kept :
    (p q f : Bool) (a b : PipelineError) (x y z : Records)
    → f ≡ false
    → (if (p || q) && f then ok x else if p then err a else if q then err b else ok y) ≡ ok z
    → y ≡ z
kept p q true a b x y z dry h = cc
kept true q false a b x y z dry h = cc
kept false true false a b x y z dry h = cc
kept false false false a b x y z dry h = cc

total-join_stage :
    (i : ℕ) (row : Row) (index : ℕ) (stage : StageValue) (records result : Records)
    → has_bit row.flush index ≡ false
    → join_stage row index stage (record_or stage.uid (get_record stage.uid records)) records
      ≡ ok result
    → total i result ≡ total i records + (if index == i then 1 else 0)
unfolding join_stage
total-join_stage i row index stage records result dry h =
    let old = record_or stage.uid (get_record stage.uid records) in
    let put : put_record stage.uid (note_stage row index stage old) records ≡ result =
      kept (is_changed old.pc stage.pc)
        ((not (index == 0) || not (stage.instr == 0)) && is_changed old.instr stage.instr)
        (has_bit row.flush index) _ _ _ _ result dry h in
    let sum = total-put_record i stage.uid (note_stage row index stage old) records in
    let more = length-note_stage i row index stage old in
    ap (total i) (sym put) ∙ omega (arith, sum, more)

has_bit_zero : (index : ℕ) → has_bit 0 index ≡ false
has_bit_zero index = let none_there = zero-div (2 ^ index) in ground arith

total-collect_stages :
    (i : ℕ) (row : Row) (index : ℕ) (stages : List StageValue) (records result : Records)
    → row.flush ≡ 0
    → collect_stages row index stages records ≡ ok result
    → total i result ≡ total i records + occupied_from i index stages
unfolding collect_stages
total-collect_stages i row index [] records result dry h =
    let same : records ≡ result = cc in ap (total i) (sym same) ∙ omega arith
total-collect_stages i row index (stage ∷ stages) records result dry h =
    elim (if_split (not stage.valid) _ _ h) [
      | inl (invalid, rest) ↦
          let later = total-collect_stages i row (index + 1) stages records result dry rest in
          let empty : stage.valid ≡ false = ground arith in rw empty (omega (arith, later))
      | inr (present, more) ↦ elim (if_split (stage.uid == 0) _ _ more) [
        | inl (none_there, refused) ↦ cc
        | inr (named, joined) ↦
            let (next, e, rest) =
              >>=-eq-ok
                (join_stage row index stage (record_or stage.uid (get_record stage.uid records))
                  records)
                _ joined in
            let clear : has_bit row.flush index ≡ false =
              ap (λ f. has_bit f index) dry ∙ has_bit_zero index in
            let step = total-join_stage i row index stage records next clear e in
            let later = total-collect_stages i row (index + 1) stages next result dry rest in
            let full : stage.valid ≡ true = ground arith in rw full (omega (arith, step, later))
      ]
    ]

total-retire_wb :
    (i : ℕ) (row : Row) (records result : Records) (wb : Option StageValue)
    → retire_wb row records wb ≡ ok result
    → total i result ≡ total i records
unfolding retire_wb
total-retire_wb i row records result none h = elim (if_split row.retire_valid _ _ h) [
  | inl (valid, refused) ↦ cc
  | inr (invalid, same) ↦ let e : records ≡ result = cc in ap (total i) (sym e)
]
total-retire_wb i row records result (some wb) h = elim (if_split (not row.retire_valid) _ _ h) [
  | inl (invalid, same) ↦ let e : records ≡ result = cc in ap (total i) (sym e)
  | inr (valid, more) ↦ elim (if_split (not wb.valid || wb.uid == 0) _ _ more) [
    | inl (missing, refused) ↦ cc
    | inr (there, put) ↦
        let old = record_or wb.uid (get_record wb.uid records) in
        let e : put_record wb.uid (retire_record row old) records ≡ result = cc in
        let sum = total-put_record i wb.uid (retire_record row old) records in
        ap (total i) (sym e) ∙ omega (arith, sum)
  ]
]

total-collect_retirement :
    (i : ℕ) (row : Row) (records result : Records)
    → collect_retirement row records ≡ ok result
    → total i result ≡ total i records
unfolding collect_retirement
total-collect_retirement i row records result h =
    total-retire_wb i row records result (get_elem? row.stages 4) h

total-collect_rows :
    (i : ℕ) (rows : List Row) (records result : Records)
    → All (λ row. row.flush ≡ 0) rows
    → collect_rows rows records ≡ ok result
    → total i result ≡ total i records + occupied i rows
unfolding collect_rows
total-collect_rows i [] records result dry h =
    let same : records ≡ result = cc in ap (total i) (sym same) ∙ omega arith
total-collect_rows i (row ∷ rows) records result (first, dry) h =
    let (staged, e, more) = >>=-eq-ok (collect_stages row 0 row.stages records) _ h in
    let (retired, e', last) = >>=-eq-ok (collect_retirement row staged) (collect_rows rows) more in
    let stages = total-collect_stages i row 0 row.stages records staged first e in
    let retirement = total-collect_retirement i row staged retired e' in
    let rest = total-collect_rows i rows retired result dry last in
    omega (arith, stages, retirement, rest)

-- If the rows have no flush and `collect_instructions` returns, then the records together have,
-- in each stage, one cycle for each row in which the stage is valid.
pub collect_instructions-total :
    (rows : List Row) (records : Records) (i : ℕ)
    → All (λ row. row.flush ≡ 0) rows
    → collect_instructions rows ≡ ok records
    → total i records ≡ occupied i rows
unfolding collect_instructions
collect_instructions-total rows records i dry h =
    let sum = total-collect_rows i rows [] records dry h in omega (arith, sum)
