-- ===== src/ThreeLane/Identity.antt =====
-- What the checks of `load` in tools/pipeline_trace_3p.py establish of the UIDs of a trace.
use open_rv.Prelude.{
  ℕ, suc, ◌+◌, ◌≡◌, ◌≢◌, refl, sym, ap, subst, true, not, Option, none, some, List, [], ◌∷◌, ok,
  length, codes, All, refuse_if-eq-ok, >>=-eq-ok,
}
use open_rv.Text.{Text, has_all}
use open_rv.PipelineTrace.{CsvRow}
use open_rv.ThreeLane.Tables.{Schema, stages_for_schema}
use open_rv.ThreeLane.{
  missing_columns, missing_schema, mixed_schemas, required_columns, all_same, Cells, Slot, Row,
  Identities, is_valid, is_tracked, load_slots, load_cells, places, load_rows, schema_of, load_with,
  load,
}
use open_rv.ThreeLane.Slots.{places_of, Extends, IsNoted, IsNoted-Extends, load_slots_lem}

-- A valid slot has a UID, and from the dispatch queue on the identity of that UID.
abbrev pub IsIdentified : (ℕ → ℕ × ℕ) → Cells → Slot → Type 0
IsIdentified identity cells slot =
    is_valid cells slot ≡ true
    → (slot.uid ≢ 0) × (is_tracked slot.stage ≡ true → identity slot.uid ≡ (slot.pc, slot.instr))

-- A row of the schema with its slots in the order of the stages.
abbrev pub IsRow : Schema → (ℕ → ℕ × ℕ) → Row → Type 0
IsRow schema identity row =
    (row.schema ≡ schema)
    × (places_of row.slots ≡ places (stages_for_schema schema))
    × All (IsIdentified identity row.cells) row.slots

-- A row of the schema against the identities noted so far.
IsNotedRow : Schema → Identities → Row → Type 0
IsNotedRow schema identities row =
    (row.schema ≡ schema)
    × (places_of row.slots ≡ places (stages_for_schema schema))
    × All (IsNoted identities row.cells) row.slots

load_rows_lem :
    (header : List Text) (schema : Schema) (line_number : ℕ) (raw : List CsvRow)
    (identities : Identities) (rows : List Row) (final : Identities)
    → load_rows header schema line_number raw identities ≡ ok (rows, final)
    → Extends identities final × (length rows ≡ length raw) × All (IsNotedRow schema final) rows
unfolding load_rows Extends IsNotedRow
load_rows_lem header schema line_number [] identities rows final h =
    let same : identities ≡ final = cc in
    let none_read : [] ≡ rows = cc in
    (
      subst (Extends identities) same (λ uid known k. k),
      sym (ap length none_read),
      subst (All (IsNotedRow schema final)) none_read tt,
    )
load_rows_lem header schema line_number (raw ∷ others) identities rows final h =
    let (cells, cells_read, h1) = >>=-eq-ok (load_cells header schema raw) _ h in
    let ((slots, noted), slots_read, h2) =
      >>=-eq-ok (load_slots line_number raw cells (places (stages_for_schema schema)) identities) _
        h1 in
    let ((rest, end), rest_read, h3) =
      >>=-eq-ok (load_rows header schema (line_number + 1) others noted) _ h2 in
    let (more, order, all) =
      load_slots_lem line_number raw cells (places (stages_for_schema schema)) identities slots
        noted slots_read in
    let (later, count, all_rest) =
      load_rows_lem header schema (line_number + 1) others noted rest end rest_read in
    let row : Row = record { schema = schema; cells = cells; slots = slots } in
    let same_rows : (row ∷ rest) ≡ rows = cc in
    let same_final : end ≡ final = cc in
    subst
      (λ xs.
        Extends identities final
        × (length xs ≡ suc (length others))
        × All (IsNotedRow schema final) xs)
      same_rows
      (subst
        (λ n.
          Extends identities n
          × (suc (length rest) ≡ suc (length others))
          × All (IsNotedRow schema n) (row ∷ rest))
        same_final
        (
          (λ uid known k. later uid known (more uid known k)),
          ap suc count,
          ((refl, order, IsNoted-Extends noted end cells later slots all), all_rest),
        ))

abbrev known_or : Option (ℕ × ℕ) → ℕ × ℕ
known_or none = (0, 0)
known_or (some known) = known

identified :
    (identities : Identities) (cells : Cells) (slots : List Slot)
    → All (IsNoted identities cells) slots
    → All (IsIdentified (λ uid. known_or (identities uid)) cells) slots
unfolding IsNoted
identified identities cells [] all = tt
identified identities cells (slot ∷ slots) (first, all) = (
  (λ valid.
      let (nonzero, known) = first valid in (nonzero, λ tracked. ap known_or (known tracked))),
  identified identities cells slots all,
)

identified_rows :
    (schema : Schema) (identities : Identities) (rows : List Row)
    → All (IsNotedRow schema identities) rows
    → All (IsRow schema (λ uid. known_or (identities uid))) rows
unfolding IsNotedRow
identified_rows schema identities [] all = tt
identified_rows schema identities (row ∷ rows) ((same, order, slots), all) = (
  (same, order, identified identities row.cells row.slots slots),
  identified_rows schema identities rows all,
)

load_with_lem :
    (header : List Text) (raw : List CsvRow) (schema : Option Schema) (rows : List Row)
    → load_with header raw schema ≡ ok rows
    → (s : Schema) × (identity : ℕ → ℕ × ℕ) × (length rows ≡ length raw)
      × All (IsRow s identity) rows
load_with_lem header raw none rows h = cc
load_with_lem header raw (some schema) rows h =
    let (present, h1) =
      refuse_if-eq-ok (not (has_all (required_columns schema) header)) missing_columns _ h in
    let ((found, identities), rows_read, h2) =
      >>=-eq-ok (load_rows header schema 2 raw (λ uid. none)) _ h1 in
    let (_, count, all) =
      load_rows_lem header schema 2 raw (λ uid. none) found identities rows_read in
    let same : found ≡ rows = cc in
    (
      schema,
      (λ uid. known_or (identities uid)),
      subst (λ xs. length xs ≡ length raw) same count,
      subst (All (IsRow schema (λ uid. known_or (identities uid)))) same
          (identified_rows schema identities found all),
    )

-- If `load` returns, then it has one row for each row of the trace, all of one schema, with the
-- slots of the three lanes of each stage in order; no valid slot has UID 0, and from the dispatch
-- queue on all valid slots of a UID have one counter and one instruction.
pub load-IsRow :
    (header : Option (List Text)) (raw : List CsvRow) (rows : List Row)
    → load header raw ≡ ok rows
    → (schema : Schema) × (identity : ℕ → ℕ × ℕ) × (length rows ≡ length raw)
      × All (IsRow schema identity) rows
unfolding load
load-IsRow none raw rows h = cc
load-IsRow (some header) [] rows h = cc
load-IsRow (some header) (first ∷ rest) rows h =
    let (named, h1) =
      refuse_if-eq-ok (not (has_all (codes "schema" ∷ []) header)) missing_schema _ h in
    let (uniform, h2) =
      refuse_if-eq-ok (not (all_same (first (codes "schema")) rest)) mixed_schemas _ h1 in
    load_with_lem header (first ∷ rest) (schema_of (first (codes "schema"))) rows h2
