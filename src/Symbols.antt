-- ===== src/Symbols.antt =====
-- tools/elf_symbols.py: the symbol table of an ELF image, the lookup of a program counter, and the text
-- of what is found. The lines are those that `nm` prints.
pub mod Load
pub mod Lookup
pub mod Tables
use open_rv.Prelude.{
  ℕ, zero, suc, ◌+◌, ◌-◌, ◌*◌, Bool, true, false, not, ◌&&◌, ◌||◌, Option, none, some, List, [],
  ◌∷◌, ◌++◌, map, Result, ok, err, ◌>>=◌, ◌>>◌, refuse_if, ltb, leb, ◌==◌, if◌then◌else◌, length,
  get_elem?, codes,
}
use open_rv.Text.{Text, format_hex}

pub record FunctionSymbol : Type 0 where
  pub address : ℕ
  pub name : Text

pub record SymbolizedPc : Type 0 where
  pub image : Text
  pub function : Text
  pub base : ℕ
  pub offset : ℕ

unfoldable pub text : SymbolizedPc → Text
text pc =
    pc.image
    ++ (codes ":"
        ++ (pc.function
            ++ (codes "+0x" ++ (format_hex 1 pc.offset ++ (codes "@0x" ++ format_hex 16 pc.base)))))

-- The name of the image, and its symbols.
pub record SymbolTable : Type 0 where
  pub image : Text
  pub symbols : List FunctionSymbol

-- `negative_address` stands for a table with a number below zero among its addresses.
pub data SymbolError : Type 0 where
  no_symbols negative_address unnamed empty_name empty_path : SymbolError

unfoldable pub make_table : Text → List FunctionSymbol → Result SymbolError SymbolTable
make_table image symbols = do
  refuse_if (length symbols == 0) no_symbols
  ok (record { image = image; symbols = symbols })

-- `bisect.bisect_right` on ascending values.
unfoldable pub bisect_right : List ℕ → ℕ → ℕ
bisect_right [] value = 0
bisect_right (a ∷ addresses) value =
    let rest = bisect_right addresses value in if leb a value then suc rest else 0

abbrev pub symbolized : Text → FunctionSymbol → ℕ → SymbolizedPc
symbolized image symbol pc = record {
  image = image;
  function = symbol.name;
  base = symbol.address;
  offset = pc - symbol.address;
}

-- The symbol at a position, and the one behind it.
unfoldable pub check_symbol :
    Text → Option FunctionSymbol → Option FunctionSymbol → ℕ → Option SymbolizedPc
check_symbol image none next pc = none
check_symbol image (some symbol) (some next) pc =
    if leb next.address pc then none else some (symbolized image symbol pc)
check_symbol image (some symbol) none pc =
    if ltb (1024 * 1024) (pc - symbol.address) then none else some (symbolized image symbol pc)

-- `lookup` once `bisect_right` has given its position.
unfoldable pub lookup_at : SymbolTable → ℕ → ℕ → Option SymbolizedPc
lookup_at table pc zero = none
lookup_at table pc (suc position) =
    check_symbol table.image (get_elem? table.symbols position)
      (get_elem? table.symbols (suc position)) pc

unfoldable pub lookup : SymbolTable → ℕ → Option SymbolizedPc
lookup table pc =
    lookup_at table pc (bisect_right (map (λ (s : FunctionSymbol). s.address) table.symbols) pc)

-- `value.split("=", 1)`
unfoldable pub split_at_equals : Text → Option (Text × Text)
split_at_equals [] = none
split_at_equals (c ∷ cs) =
    let rest = split_at_equals cs in
    if c == b'='
    then some ([], cs)
    else elim rest [ none ↦ none | some (name, path) ↦ some (c ∷ name, path) ]

-- The name and the path of an image.
unfoldable pub parse_elf_image : Text → Result SymbolError (Text × Text)
unfolding split_at_equals
parse_elf_image value = elim (split_at_equals value) [
  | none ↦ err unnamed
  | some (name, path) ↦
      refuse_if (length name == 0) empty_name
      >> (refuse_if (length path == 0) empty_path >> ok (name, path))
]

abbrev pub nearer : SymbolizedPc → Option SymbolizedPc → SymbolizedPc
nearer c none = c
nearer c (some best) = if leb c.offset best.offset then c else best

-- `min` by the offset: the first of the smallest.
unfoldable pub nearest : List SymbolizedPc → Option SymbolizedPc
nearest [] = none
nearest (c ∷ candidates) = some (nearer c (nearest candidates))

abbrev pub add_candidate : Option SymbolizedPc → List SymbolizedPc → List SymbolizedPc
add_candidate none candidates = candidates
add_candidate (some result) candidates = result ∷ candidates

unfoldable pub candidates : List SymbolTable → ℕ → List SymbolizedPc
candidates [] pc = []
candidates (table ∷ tables) pc = add_candidate (lookup table pc) (candidates tables pc)

unfoldable pub symbolize : List SymbolTable → ℕ → Option SymbolizedPc
symbolize tables pc = nearest (candidates tables pc)
