-- ===== src/Symbols/Lookup.antt =====
-- What the lookups of tools/elf_symbols.py find.
use open_rv.Prelude.{
  ℕ, zero, suc, ◌-◌, ◌*◌, ◌≤◌, ◌<◌, ◌≡◌, ◌⊎◌, inl, inr, refl, ap, subst, ◌∙◌, arith, false, none,
  some, List, [], ◌∷◌, map, ltb, leb, get_elem?, All, Bool-cases, Option-cases,
}
use open_rv.Symbols.{
  FunctionSymbol, SymbolizedPc, SymbolTable, bisect_right, symbolized, check_symbol, lookup_at,
  lookup,
}

-- Each address is above those before it.
abbrev pub IsAscending : List FunctionSymbol → Type 0
IsAscending [] = Unit
IsAscending (s ∷ symbols) = All (λ t. s.address < t.address) symbols × IsAscending symbols

-- The greatest address up to `pc` is that of the symbol.
abbrev pub IsGreatest : ℕ → List FunctionSymbol → FunctionSymbol → Type 0
IsGreatest pc symbols s = s.address ≤ pc × All (λ t. t.address ≤ pc → t.address ≤ s.address) symbols

abbrev AllAbove : ℕ → List FunctionSymbol → Type 0
AllAbove pc = All (λ s. pc < s.address)

above_more :
    (pc a : ℕ) (symbols : List FunctionSymbol)
    → pc < a
    → All (λ t. a < t.address) symbols
    → AllAbove pc symbols
above_more pc a [] h all = tt
above_more pc a (s ∷ symbols) h (first, all) = (omega arith, above_more pc a symbols h all)

none_greater :
    (pc a : ℕ) (symbols : List FunctionSymbol)
    → AllAbove pc symbols
    → All (λ t. t.address ≤ pc → t.address ≤ a) symbols
none_greater pc a [] all = tt
none_greater pc a (s ∷ symbols) (first, all) =
    (λ le. absurd (omega arith), none_greater pc a symbols all)

zero_or_suc : (n : ℕ) → (n ≡ 0) ⊎ ((p : ℕ) × (n ≡ suc p))
zero_or_suc zero = inl refl
zero_or_suc (suc p) = inr (p, refl)

abbrev addresses : List FunctionSymbol → List ℕ
addresses = map (λ (s : FunctionSymbol). s.address)

bisect_right_zero :
    (symbols : List FunctionSymbol) (pc : ℕ)
    → IsAscending symbols
    → bisect_right (addresses symbols) pc ≡ 0
    → AllAbove pc symbols
unfolding bisect_right
bisect_right_zero [] pc h e = tt
bisect_right_zero (s ∷ symbols) pc (all, h) e =
    let above : pc < s.address = ground arith in (above, above_more pc s.address symbols above all)

All-get_elem? :
    (P : FunctionSymbol → Type 0) (symbols : List FunctionSymbol) (i : ℕ) (s : FunctionSymbol)
    → All P symbols
    → get_elem? symbols i ≡ some s
    → P s
All-get_elem? P [] i s all h = cc
All-get_elem? P (t ∷ symbols) zero s (first, all) h =
    let same : t ≡ s = ground arith in subst P same first
All-get_elem? P (t ∷ symbols) (suc i) s (first, all) h = All-get_elem? P symbols i s all h

-- The symbol before a position, as `bisect_right` gives it, and the one at it.
abbrev IsFound : ℕ → List FunctionSymbol → ℕ → Type 0
IsFound pc symbols p =
    (s : FunctionSymbol) × (get_elem? symbols p ≡ some s)
    × IsGreatest pc symbols s
    × ((t : FunctionSymbol) → get_elem? symbols (suc p) ≡ some t → pc < t.address)
    × (get_elem? symbols (suc p) ≡ none → All (λ t. t.address ≤ pc) symbols)

IsFound-first :
    (pc : ℕ) (s : FunctionSymbol) (symbols : List FunctionSymbol)
    → s.address ≤ pc
    → AllAbove pc symbols
    → IsFound pc (s ∷ symbols) 0
IsFound-first pc s [] le all = (s, refl, (le, (λ _. omega arith, tt)), λ t h. cc, λ h. (le, tt))
IsFound-first pc s (t ∷ symbols) le (above, all) = (
  s,
  refl,
  (le, (λ _. omega arith, (λ low. absurd (omega arith), none_greater pc s.address symbols all))),
  λ u h. let same : t ≡ u = ground arith in subst (λ v. pc < v.address) same above,
  λ h. cc,
)

IsFound-later :
    (pc p : ℕ) (s : FunctionSymbol) (symbols : List FunctionSymbol)
    → All (λ t. s.address < t.address) symbols
    → IsFound pc symbols p
    → IsFound pc (s ∷ symbols) (suc p)
IsFound-later pc p s symbols all (t, there, (le, greatest), next, last) =
    let below = All-get_elem? (λ t. s.address < t.address) symbols p t all there in
    (t, there, (le, (λ _. omega arith, greatest)), next, λ h. (omega arith, last h))

bisect_right-suc :
    (symbols : List FunctionSymbol) (pc p : ℕ)
    → IsAscending symbols
    → bisect_right (addresses symbols) pc ≡ suc p
    → IsFound pc symbols p
unfolding bisect_right
bisect_right-suc [] pc p h e = cc
bisect_right-suc (s ∷ symbols) pc zero (all, h) e =
    let le : s.address ≤ pc = ground arith in
    let rest : bisect_right (addresses symbols) pc ≡ 0 = ground arith in
    IsFound-first pc s symbols le (bisect_right_zero symbols pc h rest)
bisect_right-suc (s ∷ symbols) pc (suc p) (all, h) e =
    let rest : bisect_right (addresses symbols) pc ≡ suc p = ground arith in
    IsFound-later pc p s symbols all (bisect_right-suc symbols pc p h rest)

-- The symbols of a table in which nothing is found: all are above, or the last is too far below.
abbrev pub IsMissed : SymbolTable → ℕ → Type 0
IsMissed table pc =
    All (λ s. pc < s.address) table.symbols
    ⊎ ((s : FunctionSymbol) × IsGreatest pc table.symbols s
        × All (λ t. t.address ≤ pc) table.symbols
        × 1024 * 1024 < pc - s.address)

abbrev pub IsFoundIn : SymbolTable → ℕ → SymbolizedPc → Type 0
IsFoundIn table pc result =
    (i : ℕ) × (s : FunctionSymbol) × (get_elem? table.symbols i ≡ some s)
    × (result ≡ symbolized table.image s pc)
    × IsGreatest pc table.symbols s
    × (pc - s.address ≤ 1024 * 1024
        ⊎ ((t : FunctionSymbol) × (get_elem? table.symbols (suc i) ≡ some t) × pc < t.address))

-- In a table with ascending addresses `lookup` finds the symbol with the greatest address up to
-- the counter, with the distance from it, unless every symbol is above the counter, or that
-- symbol is the last of the table and more than 1 MiB below.
pub lookup_decides :
    (table : SymbolTable) (pc : ℕ)
    → IsAscending table.symbols
    → ((lookup table pc ≡ none) × IsMissed table pc)
      ⊎ ((result : SymbolizedPc) × (lookup table pc ≡ some result) × IsFoundIn table pc result)
unfolding lookup lookup_at check_symbol
lookup_decides table pc h = elim (zero_or_suc (bisect_right (addresses table.symbols) pc)) [
  | inl e ↦ inl (ap (lookup_at table pc) e, inl (bisect_right_zero table.symbols pc h e))
  | inr (p, e) ↦
      let (s, there, greatest, next, last) = bisect_right-suc table.symbols pc p h e in
      let at = ap (lookup_at table pc) e in
      let found = symbolized table.image s pc in
      elim (Option-cases (get_elem? table.symbols (suc p))) [
        | inl end ↦ elim (Bool-cases (ltb (1024 * 1024) (pc - s.address))) [
          | inl far ↦
              let none_there : lookup_at table pc (suc p) ≡ none = rw (there, end, far) refl in
              inl (at ∙ none_there, inr (s, greatest, last end, ground arith))
          | inr near ↦
              let some_there : lookup_at table pc (suc p) ≡ some found =
                rw (there, end, near) refl in
              inr (found, at ∙ some_there, (p, s, there, refl, greatest, inl (ground arith)))
        ]
        | inr (t, behind) ↦
            let before = next t behind in
            let passed : leb t.address pc ≡ false = ground arith in
            let some_there : lookup_at table pc (suc p) ≡ some found =
              rw (there, behind, passed) refl in
            inr (found, at ∙ some_there, (p, s, there, refl, greatest, inr (t, behind, before)))
      ]
]
