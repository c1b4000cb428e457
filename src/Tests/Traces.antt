-- ===== src/Tests/Traces.antt =====
-- Small retirement traces, symbol tables and branch oracles.
use Prim.Native.String.{String}
use open_rv.Prelude.{
  ℕ, zero, suc, ◌≤◌, ◌≡◌, ◌↔◌, ◌⊎◌, refl, arith, none, some, List, [], ◌∷◌, ok, length, codes, All,
}
use open_rv.Text.{
  Text, digit_value, digits_value, is_space, skip_spaces, reverse_onto, strip, signed_value, int_of,
  hex_digit, hex_reversed, format_hex,
}
use open_rv.ArchTrace.{
  fields, Retired, cells_of, parse_uint, read_cells, read_row, check_sequence, check_ranges,
  check_hex, low_bits, check_aligned, check_alignment, check_row, check_rows, validate,
}
use open_rv.ArchTrace.Sound.{IsAccepted, validate_iff, validate-count}
use open_rv.ArchTrace.Rows.{IsRead, count}
use open_rv.Symbols.{SymbolizedPc, SymbolTable, make_table, lookup, symbolize}
use open_rv.Symbols.Load.{
  split_word, three_fields, parse_line, parse_lines, put, put_all, load_symbol_table,
}
use open_rv.Symbols.Lookup.{IsAscending, IsMissed, IsFoundIn, lookup_decides}
use open_rv.Symbols.Tables.{IsLoaded, IsAmong, IsNearest, load_symbol_table_lem, symbolize_decides}
use open_rv.Text.{format_decimal, decimal_reversed}
use open_rv.PipelineTrace.Ranges.{
  selected, bit_names, insert_new, sorted_set, spans, cycle_spans, span_text, cycle_ranges, has,
  in_spans, IsSeparated, cycle_spans_lem,
}
use open_rv.Oracle.{
  OracleRow, hex_cell, retired_lanes, retired_rows, records, branch_oracle, required,
}
use open_rv.Oracle.Records.{controls, IsOracle, branch_oracle-IsOracle}

-- Two instructions that retire in one cycle.
abbrev arch_row : String → String → List Text
arch_row order lane =
    codes order
    ∷ codes "7"
    ∷ codes lane
    ∷ codes "1"
    ∷ codes "0000000080000000"
    ∷ codes "00000013"
    ∷ codes "0000000080000004"
    ∷ codes "0"
    ∷ codes "0"
    ∷ codes "0000000000000000"
    ∷ codes "0"
    ∷ codes "0"
    ∷ codes "3"
    ∷ []

abbrev arch_rows : List (List Text)
arch_rows = arch_row "0" "0" ∷ arch_row "1" "1" ∷ []

validate_iff_example : (validate fields arch_rows ≡ ok 2) ↔ IsAccepted fields arch_rows 2
validate_iff_example = validate_iff fields arch_rows 2

arch_rows_pass : validate fields arch_rows ≡ ok 2
unfolding validate check_rows check_row check_sequence check_ranges check_hex check_alignment
    check_aligned low_bits read_row read_cells cells_of parse_uint int_of signed_value strip
    skip_spaces reverse_onto is_space digits_value digit_value
arch_rows_pass = refl

validate-count_example :
    (rs : List Retired) × IsRead 0 arch_rows rs × (length rs ≡ 2) × count 7 rs ≤ 3
validate-count_example = validate-count fields arch_rows 2 7 arch_rows_pass

abbrev nm_lines : List Text
nm_lines =
    codes "0000000080000000 t _start"
    ∷ codes "0000000080000010 t alias"
    ∷ codes "0000000080000010 T main"
    ∷ codes "0000000080000020 D data"
    ∷ []

abbrev table : SymbolTable
table = record {
  image = codes "boot";
  symbols =
      record { address = 0x8000_0000; name = codes "_start" }
      ∷ record { address = 0x8000_0010; name = codes "main" }
      ∷ [];
}

nm_lines_load : load_symbol_table (codes "boot") nm_lines ≡ ok table
unfolding load_symbol_table make_table parse_lines parse_line three_fields split_word put_all put
    int_of signed_value strip skip_spaces reverse_onto is_space digits_value digit_value
nm_lines_load = refl

load_symbol_table_lem_example : IsLoaded (codes "boot") nm_lines 0x8000_0010 table
load_symbol_table_lem_example =
    load_symbol_table_lem (codes "boot") nm_lines table 0x8000_0010 nm_lines_load

table-IsAscending : IsAscending table.symbols
table-IsAscending = ((omega arith, tt), (tt, tt))

lookup_decides_example :
    ((lookup table 0x8000_0014 ≡ none) × IsMissed table 0x8000_0014)
    ⊎ ((result : SymbolizedPc) × (lookup table 0x8000_0014 ≡ some result)
        × IsFoundIn table 0x8000_0014 result)
lookup_decides_example = lookup_decides table 0x8000_0014 table-IsAscending

abbrev tables : List SymbolTable
tables = table ∷ []

symbolize_decides_example :
    ((symbolize tables 0x8000_0014 ≡ none) × All (λ table. lookup table 0x8000_0014 ≡ none) tables)
    ⊎ ((result : SymbolizedPc) × (symbolize tables 0x8000_0014 ≡ some result)
        × IsAmong result 0x8000_0014 tables
        × IsNearest result 0x8000_0014 tables)
symbolize_decides_example = symbolize_decides tables 0x8000_0014

-- A taken branch in lane 0, and its target in lane 1.
abbrev pc_cell : ℕ → Text
pc_cell zero = codes "80000000"
pc_cell (suc lane) = codes "80000040"

abbrev instr_cell : ℕ → Text
instr_cell zero = codes "00000063"
instr_cell (suc lane) = codes "00000013"

abbrev oracle_rows : List OracleRow
oracle_rows = record { retire_valid = codes "3"; pc = pc_cell; instr = instr_cell } ∷ []

abbrev oracle_lines : List Text
oracle_lines = codes "10000000080000040" ∷ []

oracle_rows_pass : branch_oracle (some 1) required oracle_rows ≡ ok oracle_lines
unfolding branch_oracle records retired_rows retired_lanes hex_cell format_hex hex_reversed
    hex_digit int_of signed_value strip skip_spaces reverse_onto is_space digits_value digit_value
oracle_rows_pass = refl

branch_oracle-IsOracle_example :
    (retired : List (ℕ × ℕ)) × (retired_rows oracle_rows ≡ ok retired)
    × (length oracle_lines ≡ controls (length retired) retired)
    × IsOracle retired oracle_lines
branch_oracle-IsOracle_example =
    branch_oracle-IsOracle (some 1) required oracle_rows oracle_lines oracle_rows_pass

abbrev some_cycles : List ℕ
some_cycles = 4 ∷ 9 ∷ 3 ∷ 4 ∷ []

cycle_spans_lem_example :
    (in_spans 3 (cycle_spans some_cycles) ≡ has 3 some_cycles)
    × IsSeparated 0 (cycle_spans some_cycles)
cycle_spans_lem_example = cycle_spans_lem some_cycles 3

-- The ranges in text.
some_ranges : cycle_ranges some_cycles ≡ codes "3-4,9"
unfolding cycle_ranges cycle_spans spans sorted_set insert_new span_text format_decimal
    decimal_reversed reverse_onto
some_ranges = refl

some_bits : bit_names 5 (codes "raw" ∷ codes "waw" ∷ codes "execute" ∷ []) ≡ codes "raw,execute"
unfolding bit_names selected
some_bits = refl
