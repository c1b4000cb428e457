-- ===== src/Symbols/Load.antt =====
-- `load_symbol_table` of tools/elf_symbols.py, from the lines of `nm` on.
use open_rv.Prelude.{
  Bool, true, false, not, ◌&&◌, ◌||◌, Option, none, some, List, [], ◌∷◌, Result, ok, err, ◌>>=◌,
  ltb, ◌==◌, if◌then◌else◌, length, codes,
}
use open_rv.Text.{Text, is_space, skip_spaces, invalid, negative, uint, int_of}
use open_rv.Symbols.{FunctionSymbol, SymbolTable, SymbolError, negative_address, make_table}

-- The characters before the first space, and those from it on.
unfoldable pub split_word : Text → Text × Text
unfolding is_space
split_word [] = ([], [])
split_word (c ∷ cs) =
    let (word, rest) = split_word cs in if is_space c then ([], c ∷ cs) else (c ∷ word, rest)

-- `line.split(maxsplit=2)`, where it gives three fields.
unfoldable pub three_fields : Text → Option (Text × Text × Text)
unfolding split_word skip_spaces
three_fields line =
    let (first, rest) = split_word (skip_spaces line) in
    let (second, more) = split_word (skip_spaces rest) in
    let third = skip_spaces more in
    if length first == 0 || (length second == 0 || length third == 0)
    then none
    else some (first, second, third)

abbrev is_prefix : Text → Text → Bool
is_prefix [] text = true
is_prefix (c ∷ cs) [] = false
is_prefix (c ∷ cs) (d ∷ ds) = c == d && is_prefix cs ds

-- `part in text`
abbrev pub is_part : Text → Text → Bool
is_part part [] = is_prefix part []
is_part part (c ∷ cs) = is_prefix part (c ∷ cs) || is_part part cs

-- The symbol of a line, if it has one.
unfoldable pub parse_line : Text → Result SymbolError (Option FunctionSymbol)
unfolding three_fields
parse_line line = elim (three_fields line) [
  | none ↦ ok none
  | some (address, kind, name) ↦
      if not (is_part kind (codes "tTwW")) then ok none else elim (int_of 16 address) [
        | invalid ↦ ok none
        | negative n ↦ err negative_address
        | uint n ↦ ok (some (record { address = n; name = name }))
      ]
]

unfoldable pub parse_lines : List Text → Result SymbolError (List FunctionSymbol)
unfolding parse_line
parse_lines [] = ok []
parse_lines (line ∷ lines) = do
  found ← parse_line line
  rest ← parse_lines lines
  ok (elim found [ none ↦ rest | some symbol ↦ symbol ∷ rest ])

-- The dictionary by address with its keys sorted: one symbol more, which replaces that at its address.
unfoldable pub put : FunctionSymbol → List FunctionSymbol → List FunctionSymbol
put symbol [] = symbol ∷ []
put symbol (s ∷ symbols) =
    let rest = put symbol symbols in
    if ltb symbol.address s.address
    then symbol ∷ s ∷ symbols
    else if symbol.address == s.address
    then symbol ∷ symbols
    else s ∷ rest

unfoldable pub put_all : List FunctionSymbol → List FunctionSymbol → List FunctionSymbol
unfolding put
put_all [] sorted = sorted
put_all (symbol ∷ symbols) sorted = put_all symbols (put symbol sorted)

unfoldable pub load_symbol_table : Text → List Text → Result SymbolError SymbolTable
load_symbol_table image lines =
    parse_lines lines >>= λ symbols. make_table image (put_all symbols [])

unfoldable pub load_symbol_tables : List (Text × List Text) → Result SymbolError (List SymbolTable)
load_symbol_tables [] = ok []
load_symbol_tables ((image, lines) ∷ images) = do
  table ← load_symbol_table image lines
  tables ← load_symbol_tables images
  ok (table ∷ tables)
