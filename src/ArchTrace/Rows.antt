-- ===== src/ArchTrace/Rows.antt =====
-- What the checks of a row in tools/check_arch_trace.py accept.
use open_rv.Prelude.{
  ℕ, suc, ◌+◌, ◌≤◌, ◌<◌, ◌≡◌, ◌↔◌, ◌⊎◌, inl, inr, refl, arith, true, not, ◌&&◌, Option, none, some,
  List, [], ◌∷◌, Result, ok, err, ◌>>◌, ◌==◌, if◌then◌else◌, Bool-cases, length, All, codes,
}
use open_rv.Text.{Text}
use open_rv.ArchTrace.{
  TraceError, Cells, Retired, read_row, check_sequence, check_ranges, is_hex_field, check_hex,
  low_bits, check_aligned, check_alignment, check_row,
}

-- How many of the rows stand in a cycle.
abbrev pub count : ℕ → List Retired → ℕ
count cycle [] = 0
count cycle (row ∷ rows) = if row.cycle == cycle then suc (count cycle rows) else count cycle rows

-- The numbers of a row behind the rows `earlier`, the latest of them first.
abbrev pub IsInSequence : List Retired → Retired → Type 0
IsInSequence earlier row =
    (row.order ≡ length earlier)
    × All (λ e. e.cycle ≤ row.cycle) earlier
    × (row.lane ≡ count row.cycle earlier)
    × row.lane ≤ 2

abbrev pub IsInRange : Retired → Type 0
IsInRange row =
    (row.arch ≤ 1 × row.rd_write ≤ 1 × row.exception ≤ 1)
    × (row.arch ≡ 0 → row.rd_write ≡ 0)
    × row.rd ≤ 31
    × row.cause ≤ 31
    × (row.mode ≤ 1 ⊎ row.mode ≡ 3)

abbrev pub IsHexRow : Cells → Type 0
IsHexRow cells =
    (is_hex_field 16 cells.pc ≡ true)
    × (is_hex_field 8 cells.instr ≡ true)
    × (is_hex_field 16 cells.next_pc ≡ true)
    × (is_hex_field 16 cells.wdata ≡ true)

abbrev pub IsAligned : Retired → Type 0
IsAligned row =
    (row.arch ≡ 1
      → row.exception ≡ 0
      → (low_bits row.cells.pc ≡ ok 0) × (low_bits row.cells.next_pc ≡ ok 0))

abbrev pub IsTrace : List Retired → List Retired → Type 0
IsTrace earlier [] = Unit
IsTrace earlier (row ∷ rows) =
    (IsInSequence earlier row × IsInRange row × IsHexRow row.cells × IsAligned row)
    × IsTrace (row ∷ earlier) rows

-- The rows read, each with the number of its line, which is two above its order.
abbrev pub IsRead : ℕ → List (List Text) → List Retired → Type 0
IsRead order [] [] = Unit
IsRead order (row ∷ rows) (r ∷ rs) = (read_row (order + 2) row ≡ ok r) × IsRead (order + 1) rows rs
IsRead order [] (r ∷ rs) = ⊥
IsRead order (row ∷ rows) [] = ⊥

-- What the loop remembers of the rows behind it.
unfoldable pub Follows : Option (ℕ × ℕ) → List Retired → Type 0
Follows none earlier = earlier ≡ []
Follows (some (cycle, lane)) earlier =
    All (λ e. e.cycle ≤ cycle) earlier × (count cycle earlier ≡ suc lane)

count_later :
    (cycle c : ℕ) (rows : List Retired)
    → All (λ e. e.cycle ≤ c) rows
    → c < cycle
    → count cycle rows ≡ 0
count_later cycle c [] h lt = refl
count_later cycle c (row ∷ rows) (first, h) lt =
    let rest = count_later cycle c rows h lt in ground arith

weaken :
    (c d : ℕ) (rows : List Retired)
    → All (λ e. e.cycle ≤ c) rows
    → c ≤ d
    → All (λ e. e.cycle ≤ d) rows
weaken c d [] h le = tt
weaken c d (row ∷ rows) (first, h) le = (omega arith, weaken c d rows h le)

-- Some row stands in a cycle that is counted.
counted : (c d : ℕ) (rows : List Retired) → All (λ e. e.cycle ≤ d) rows → 0 < count c rows → c ≤ d
counted c d [] h positive = elim positive [ ]
counted c d (row ∷ rows) (first, h) positive = let rest = counted c d rows h in ground arith

sequence_iff :
    (line order : ℕ) (previous : Option (ℕ × ℕ)) (earlier : List Retired) (row : Retired)
    → order ≡ length earlier
    → Follows previous earlier
    → (check_sequence line order previous row ≡ ok tt) ↔ IsInSequence earlier row
unfolding check_sequence Follows
sequence_iff line order none [] row e h = ground arith
sequence_iff line order none (first ∷ earlier) row e h = cc
sequence_iff line order (some (c, l)) earlier row e (before, h) =
    let later = count_later row.cycle c earlier before in
    let back = weaken c row.cycle earlier before in
    let forth : All (λ e. e.cycle ≤ row.cycle) earlier → c ≤ row.cycle =
      λ all. counted c row.cycle earlier all (omega arith) in
    ground arith

ranges_iff : (line : ℕ) (row : Retired) → (check_ranges line row ≡ ok tt) ↔ IsInRange row
unfolding check_ranges
ranges_iff line row = ground arith

hex_iff : (line : ℕ) (row : Cells) → (check_hex line row ≡ ok tt) ↔ IsHexRow row
unfolding check_hex
hex_iff line row = ground arith

aligned_iff :
    (line : ℕ) (name value : Text)
    → (check_aligned line name value ≡ ok tt) ↔ (low_bits value ≡ ok 0)
unfolding check_aligned
aligned_iff line name value = ground arith

-- Tests in a row pass together when each of them does.
pub >>_iff :
    (first second : Result TraceError Unit)
    → ((first >> second) ≡ ok tt) ↔ ((first ≡ ok tt) × (second ≡ ok tt))
>>_iff (err e) second = (λ h. cc, λ (f, s). cc)
>>_iff (ok tt) second = (λ h. (refl, h), λ (f, s). s)

both :
    {A B : Type 0} {first second : Result TraceError Unit}
    → ((first ≡ ok tt) ↔ A)
    → ((second ≡ ok tt) ↔ B)
    → ((first >> second) ≡ ok tt) ↔ (A × B)
both {first = first} {second = second} (fa, af) (sb, bs) =
    let (split, join) = >>_iff first second in
    (λ h. let (f, s) = split h in (fa f, sb s), λ (a, b). join (af a, bs b))

alignment_iff :
    (line : ℕ) (row : Retired) → row.arch ≤ 1 → (check_alignment line row ≡ ok tt) ↔ IsAligned row
unfolding check_alignment
alignment_iff line row h = elim (Bool-cases (not (row.arch == 0) && row.exception == 0)) [
  | inl e ↦
      let a : row.arch ≡ 1 = ground arith in
      let x : row.exception ≡ 0 = ground arith in
      let pair =
        both (aligned_iff line (codes "pc") row.cells.pc)
          (aligned_iff line (codes "next_pc") row.cells.next_pc) in
      rw e (λ h a x. pair.0 h, λ h. pair.1 (h a x))
  | inr e ↦ rw e (λ h a x. ground arith, λ h. refl)
]

arch_le : (row : Retired) → IsInRange row → row.arch ≤ 1
arch_le row ((le, x, y), a, b, c, d) = le

pub check_row_iff :
    (line order : ℕ) (previous : Option (ℕ × ℕ)) (earlier : List Retired) (row : Retired)
    → order ≡ length earlier
    → Follows previous earlier
    → (check_row line order previous row ≡ ok tt)
      ↔ (IsInSequence earlier row × IsInRange row × IsHexRow row.cells × IsAligned row)
unfolding check_row
check_row_iff line order previous earlier row e h =
    let (sequence, sequence') = sequence_iff line order previous earlier row e h in
    let (ranges, ranges') = ranges_iff line row in
    let (hex, hex') = hex_iff line row.cells in
    let (split, join) = >>_iff (check_sequence line order previous row) _ in
    let (split_more, join_more) =
      >>_iff (check_ranges line row) (check_hex line row.cells >> check_alignment line row) in
    let (split_last, join_last) = >>_iff (check_hex line row.cells) (check_alignment line row) in
    (
      λ passed.
          let (s, more) = split passed in
          let (r, last) = split_more more in
          let (x, a) = split_last last in
          let in_range = ranges r in
          (sequence s, in_range, hex x, (alignment_iff line row (arch_le row in_range)).0 a),
      λ (s, r, x, a). join (
        sequence' s,
        join_more (ranges' r, join_last (hex' x, (alignment_iff line row (arch_le row r)).1 a)),
      ),
    )
