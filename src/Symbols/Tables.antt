-- ===== src/Symbols/Tables.antt =====
-- The tables that tools/elf_symbols.py loads, and the nearest symbol among several of them.
use open_rv.Prelude.{
  ℕ, ◌≤◌, ◌<◌, ◌≡◌, ◌⊎◌, inl, inr, refl, sym, ap, subst, ◌∙◌, arith, Bool, true, false, Option,
  none, some, List, [], ◌∷◌, ok, >>=-eq-ok, refuse_if-eq-ok, ltb, leb, ◌==◌, if◌then◌else◌, length,
  All, Bool-cases, Option-cases,
}
use open_rv.Text.{Text}
use open_rv.Symbols.{
  FunctionSymbol, SymbolizedPc, SymbolTable, no_symbols, make_table, lookup, candidates,
  add_candidate, nearer, nearest, symbolize,
}
use open_rv.Symbols.Load.{parse_lines, put, put_all, load_symbol_table}
use open_rv.Symbols.Lookup.{IsAscending}

-- The symbol at an address: the first of the table, and the last among the lines.
abbrev pub find : ℕ → List FunctionSymbol → Option FunctionSymbol
find address [] = none
find address (s ∷ symbols) = if s.address == address then some s else find address symbols

abbrev pub find_last : ℕ → List FunctionSymbol → Option FunctionSymbol
find_last address [] = none
find_last address (s ∷ symbols) = elim (find_last address symbols) [
  | some later ↦ some later
  | none ↦ if s.address == address then some s else none
]

put_above :
    (a : ℕ) (symbol : FunctionSymbol) (symbols : List FunctionSymbol)
    → a < symbol.address
    → All (λ t. a < t.address) symbols
    → All (λ t. a < t.address) (put symbol symbols)
unfolding put
put_above a symbol [] h all = (h, tt)
put_above a symbol (s ∷ symbols) h (first, all) =
    let rest = put_above a symbol symbols h all in ground arith

All-above :
    (a b : ℕ) (symbols : List FunctionSymbol)
    → a < b
    → All (λ t. b < t.address) symbols
    → All (λ t. a < t.address) symbols
All-above a b [] h all = tt
All-above a b (s ∷ symbols) h (first, all) = (omega arith, All-above a b symbols h all)

put-IsAscending :
    (symbol : FunctionSymbol) (symbols : List FunctionSymbol)
    → IsAscending symbols
    → IsAscending (put symbol symbols)
unfolding put
put-IsAscending symbol [] h = (tt, tt)
put-IsAscending symbol (s ∷ symbols) (first, h) =
    let rest = put-IsAscending symbol symbols h in
    elim (Bool-cases (ltb symbol.address s.address)) [
      | inl lt ↦ rw lt (
        (ground arith, All-above symbol.address s.address symbols (ground arith) first),
        (first, h),
      )
      | inr ge ↦ elim (Bool-cases (symbol.address == s.address)) [
        | inl same ↦
            let e : s.address ≡ symbol.address = ground arith in
            rw (ge, same) (subst (λ a. All (λ t. a < t.address) symbols) e first, h)
        | inr other ↦ rw (ge, other) (put_above s.address symbol symbols (ground arith) first, rest)
      ]
    ]

-- The table answers at an address what was put there last.
find-put :
    (address : ℕ) (symbol : FunctionSymbol) (symbols : List FunctionSymbol)
    → IsAscending symbols
    → find address (put symbol symbols)
      ≡ (if symbol.address == address then some symbol else find address symbols)
unfolding put
find-put address symbol [] h = refl
find-put address symbol (s ∷ symbols) (first, h) =
    let rest = find-put address symbol symbols h in ground arith

put_all-IsAscending :
    (symbols sorted : List FunctionSymbol)
    → IsAscending sorted
    → IsAscending (put_all symbols sorted)
unfolding put_all
put_all-IsAscending [] sorted h = h
put_all-IsAscending (s ∷ symbols) sorted h =
    put_all-IsAscending symbols (put s sorted) (put-IsAscending s sorted h)

later_wins :
    (later before : Option FunctionSymbol) (s : FunctionSymbol) (b : Bool)
    → (elim later as (λ _. Option FunctionSymbol) [
      | some last ↦ some last
      | none ↦ if b then some s else before
    ])
      ≡ (elim (elim later as (λ _. Option FunctionSymbol) [
        | some last ↦ some last
        | none ↦ if b then some s else none
      ])
          as (λ _. Option FunctionSymbol) [ some last ↦ some last | none ↦ before ])
later_wins none before s true = refl
later_wins none before s false = refl
later_wins (some later) before s b = refl

find-put_all :
    (address : ℕ) (symbols sorted : List FunctionSymbol)
    → IsAscending sorted
    → find address (put_all symbols sorted)
      ≡ (elim (find_last address symbols) [ some last ↦ some last | none ↦ find address sorted ])
unfolding put_all
find-put_all address [] sorted h = refl
find-put_all address (s ∷ symbols) sorted h =
    let rest = find-put_all address symbols (put s sorted) (put-IsAscending s sorted h) in
    let here = find-put address s sorted h in
    rest
    ∙ ap
        (λ x. elim (find_last address symbols) as (λ _. Option FunctionSymbol) [
          | some last ↦ some last
          | none ↦ x
        ])
        here
    ∙ later_wins (find_last address symbols) (find address sorted) s (s.address == address)

none_before :
    (o : Option FunctionSymbol)
    → (elim o as (λ _. Option FunctionSymbol) [ some last ↦ some last | none ↦ none ]) ≡ o
none_before none = refl
none_before (some s) = refl

abbrev pub IsLoaded : Text → List Text → ℕ → SymbolTable → Type 0
IsLoaded image lines address table =
    (symbols : List FunctionSymbol) × (parse_lines lines ≡ ok symbols)
    × (table.image ≡ image)
    × 0 < length table.symbols
    × IsAscending table.symbols
    × (find address table.symbols ≡ find_last address symbols)

-- A table that is loaded has the name of its image, at least one symbol and ascending addresses,
-- and holds at each address the last symbol that the lines give for it.
pub load_symbol_table_lem :
    (image : Text) (lines : List Text) (table : SymbolTable) (address : ℕ)
    → load_symbol_table image lines ≡ ok table
    → IsLoaded image lines address table
unfolding load_symbol_table make_table
load_symbol_table_lem image lines table address h =
    let (symbols, read, made) =
      >>=-eq-ok (parse_lines lines) (λ symbols. make_table image (put_all symbols [])) h in
    let (some_there, last) = refuse_if-eq-ok (length (put_all symbols []) == 0) no_symbols _ made in
    let made_table : SymbolTable = record { image = image; symbols = put_all symbols [] } in
    let made_of : made_table ≡ table = cc in
    subst (IsLoaded image lines address) made_of (
      symbols,
      read,
      refl,
      ground arith,
      put_all-IsAscending symbols [] tt,
      find-put_all address symbols [] tt ∙ none_before (find_last address symbols),
    )

-- No table has a nearer symbol.
abbrev pub IsNearest : SymbolizedPc → ℕ → List SymbolTable → Type 0
IsNearest result pc tables =
    All (λ table. (q : SymbolizedPc) → lookup table pc ≡ some q → result.offset ≤ q.offset) tables

abbrev pub IsAmong : SymbolizedPc → ℕ → List SymbolTable → Type 0
IsAmong result pc [] = ⊥
IsAmong result pc (table ∷ tables) = (lookup table pc ≡ some result) ⊎ IsAmong result pc tables

abbrev IsDecided : Option SymbolizedPc → List SymbolTable → ℕ → Type 0
IsDecided found tables pc =
    ((found ≡ none) × All (λ table. lookup table pc ≡ none) tables)
    ⊎ ((result : SymbolizedPc) × (found ≡ some result)
        × IsAmong result pc tables
        × IsNearest result pc tables)

-- A bound that the tables keep when it falls.
IsNearest-below :
    (a b : SymbolizedPc) (pc : ℕ) (tables : List SymbolTable)
    → a.offset ≤ b.offset
    → IsNearest b pc tables
    → IsNearest a pc tables
IsNearest-below a b pc [] le all = tt
IsNearest-below a b pc (table ∷ tables) le (first, all) =
    (λ q e. let bound = first q e in omega arith, IsNearest-below a b pc tables le all)

none_nearer :
    (a : SymbolizedPc) (pc : ℕ) (tables : List SymbolTable)
    → All (λ table. lookup table pc ≡ none) tables
    → IsNearest a pc tables
none_nearer a pc [] all = tt
none_nearer a pc (table ∷ tables) (first, all) = (λ q e. cc, none_nearer a pc tables all)

skip_table :
    (table : SymbolTable) (tables : List SymbolTable) (pc : ℕ) (found : Option SymbolizedPc)
    → lookup table pc ≡ none
    → IsDecided found tables pc
    → IsDecided found (table ∷ tables) pc
skip_table table tables pc found e (inl (h, all)) = inl (h, (e, all))
skip_table table tables pc found e (inr (result, h, among, all)) =
    inr (result, h, inr among, (λ q f. cc, all))

-- What the table itself finds is no nearer.
own :
    (table : SymbolTable) (pc : ℕ) (c : SymbolizedPc)
    → lookup table pc ≡ some c
    → (q : SymbolizedPc) → lookup table pc ≡ some q
    → c.offset ≤ q.offset
own table pc c e q f = let same : c ≡ q = cc in subst (λ r. c.offset ≤ r.offset) same (omega arith)

-- One table more, in which `c` is found.
add_table :
    (table : SymbolTable) (tables : List SymbolTable) (pc : ℕ) (c : SymbolizedPc)
    (found : Option SymbolizedPc)
    → lookup table pc ≡ some c
    → IsDecided found tables pc
    → IsDecided (some (nearer c found)) (table ∷ tables) pc
add_table table tables pc c none e (inl (_, all)) =
    inr (c, refl, inl e, (own table pc c e, none_nearer c pc tables all))
add_table table tables pc c none e (inr (result, h, among, all)) = cc
add_table table tables pc c (some best) e (inl (h, all)) = cc
add_table table tables pc c (some best) e (inr (result, h, among, all)) =
    let same : result ≡ best = cc in
    let among' = subst (λ r. IsAmong r pc tables) same among in
    let all' = subst (λ r. IsNearest r pc tables) same all in
    elim (Bool-cases (leb c.offset best.offset)) [
      | inl le ↦ rw le (
          inr (
            c,
            refl,
            inl e,
            (own table pc c e, IsNearest-below c best pc tables (ground arith) all'),
          ))
      | inr gt ↦ rw gt (
          inr (
            best,
            refl,
            inr among',
            (λ q f. let bound = own table pc c e q f in ground arith, all'),
          ))
    ]

-- `symbolize` finds nothing if no table finds the counter; otherwise it gives what one of the
-- tables finds, and no table finds the counter at a smaller offset.
pub symbolize_decides :
    (tables : List SymbolTable) (pc : ℕ)
    → ((symbolize tables pc ≡ none) × All (λ table. lookup table pc ≡ none) tables)
      ⊎ ((result : SymbolizedPc) × (symbolize tables pc ≡ some result)
          × IsAmong result pc tables
          × IsNearest result pc tables)
unfolding symbolize candidates nearest
symbolize_decides [] pc = inl (refl, tt)
symbolize_decides (table ∷ tables) pc =
    let rest = symbolize_decides tables pc in
    elim (Option-cases (lookup table pc)) [
      | inl e ↦
          let skip : nearest (candidates tables pc) ≡ symbolize (table ∷ tables) pc =
            ap (λ o. nearest (add_candidate o (candidates tables pc))) (sym e) in
          subst (λ found. IsDecided found (table ∷ tables) pc) skip
            (skip_table table tables pc _ e rest)
      | inr (c, e) ↦
          let take_it : some (nearer c (nearest (candidates tables pc)))
              ≡ symbolize (table ∷ tables) pc =
            ap (λ o. nearest (add_candidate o (candidates tables pc))) (sym e) in
          subst (λ found. IsDecided found (table ∷ tables) pc) take_it
            (add_table table tables pc c _ e rest)
    ]
