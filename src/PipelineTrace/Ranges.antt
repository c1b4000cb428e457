-- ===== src/PipelineTrace/Ranges.antt =====
-- `bit_names` and `cycle_ranges` of tools/pipeline_trace.py.
use open_rv.Prelude.{
  ℕ, ◌+◌, ◌≤◌, ◌≡◌, refl, ap, ◌∙◌, inl, inr, arith, Bool, false, ◌&&◌, ◌||◌, List, [], ◌∷◌, ◌++◌,
  ltb, leb, ◌==◌, if◌then◌else◌, codes, Bool-cases,
}
use open_rv.Text.{Text, format_decimal, join_commas}
use open_rv.PipelineTrace.{has_bit}

unfoldable pub selected : ℕ → ℕ → List Text → List Text
selected mask index [] = []
selected mask index (name ∷ names) =
    let rest = selected mask (index + 1) names in if has_bit mask index then name ∷ rest else rest

-- A dash stands for nothing.
abbrev or_dash : List Text → Text
or_dash [] = codes "-"
or_dash (part ∷ parts) = join_commas (part ∷ parts)

unfoldable pub bit_names : ℕ → List Text → Text
unfolding selected
bit_names mask names = or_dash (selected mask 0 names)

-- `sorted(set(cycles))`
unfoldable pub insert_new : ℕ → List ℕ → List ℕ
insert_new c [] = c ∷ []
insert_new c (x ∷ xs) =
    let rest = insert_new c xs in
    if ltb c x then c ∷ x ∷ xs else if c == x then x ∷ xs else x ∷ rest

unfoldable pub sorted_set : List ℕ → List ℕ
sorted_set [] = []
sorted_set (c ∷ cycles) = insert_new c (sorted_set cycles)

-- The loop of `cycle_ranges`: the pairs of `start` and `previous`.
unfoldable pub spans : ℕ → ℕ → List ℕ → List (ℕ × ℕ)
spans start previous [] = (start, previous) ∷ []
spans start previous (cycle ∷ ordered) =
    let longer = spans start cycle ordered in
    let next = spans cycle cycle ordered in
    if cycle == previous + 1 then longer else (start, previous) ∷ next

abbrev spans_of : List ℕ → List (ℕ × ℕ)
spans_of [] = []
spans_of (first ∷ ordered) = spans first first ordered

unfoldable pub cycle_spans : List ℕ → List (ℕ × ℕ)
unfolding spans
cycle_spans cycles = spans_of (sorted_set cycles)

unfoldable pub span_text : ℕ × ℕ → Text
span_text (start, previous) =
    if start == previous
    then format_decimal start
    else format_decimal start ++ (b'-' ∷ format_decimal previous)

abbrev span_texts : List (ℕ × ℕ) → List Text
span_texts [] = []
span_texts (span ∷ rest) = span_text span ∷ span_texts rest

unfoldable pub cycle_ranges : List ℕ → Text
unfolding cycle_spans span_text
cycle_ranges cycles = or_dash (span_texts (cycle_spans cycles))

-- Whether a number is listed, and whether it lies in one of the spans.
abbrev pub has : ℕ → List ℕ → Bool
has c [] = false
has c (x ∷ xs) = x == c || has c xs

abbrev pub in_spans : ℕ → List (ℕ × ℕ) → Bool
in_spans c [] = false
in_spans c ((start, previous) ∷ rest) = (leb start c && leb c previous) || in_spans c rest

-- Spans from `lo` on, with a gap between one and the next.
abbrev pub IsSeparated : ℕ → List (ℕ × ℕ) → Type 0
IsSeparated lo [] = Unit
IsSeparated lo ((start, previous) ∷ rest) =
    (lo ≤ start) × (start ≤ previous) × IsSeparated (previous + 2) rest

abbrev IsRising : ℕ → List ℕ → Type 0
IsRising lo [] = Unit
IsRising lo (x ∷ xs) = (lo ≤ x) × IsRising (x + 1) xs

has-insert_new : (c d : ℕ) (xs : List ℕ) → has d (insert_new c xs) ≡ (c == d || has d xs)
unfolding insert_new
has-insert_new c d [] = refl
has-insert_new c d (x ∷ xs) = let rest = has-insert_new c d xs in ground arith

has-sorted_set : (d : ℕ) (cycles : List ℕ) → has d (sorted_set cycles) ≡ has d cycles
unfolding sorted_set
has-sorted_set d [] = refl
has-sorted_set d (c ∷ cycles) =
    has-insert_new c d (sorted_set cycles) ∙ ap (λ b. c == d || b) (has-sorted_set d cycles)

insert_new-IsRising :
    (c lo : ℕ) (xs : List ℕ) → lo ≤ c → IsRising lo xs → IsRising lo (insert_new c xs)
unfolding insert_new
insert_new-IsRising c lo [] le h = (le, tt)
insert_new-IsRising c lo (x ∷ xs) le (first, h) = elim (Bool-cases (ltb c x)) [
  | inl lt ↦ rw lt (le, (ground arith, h))
  | inr ge ↦ elim (Bool-cases (c == x)) [
    | inl same ↦ rw (ge, same) (first, h)
    | inr other ↦ rw (ge, other) (first, insert_new-IsRising c (x + 1) xs (ground arith) h)
  ]
]

sorted_set-IsRising : (cycles : List ℕ) → IsRising 0 (sorted_set cycles)
unfolding sorted_set
sorted_set-IsRising [] = tt
sorted_set-IsRising (c ∷ cycles) =
    insert_new-IsRising c 0 (sorted_set cycles) (omega arith) (sorted_set-IsRising cycles)

in_spans-spans :
    (d start previous : ℕ) (xs : List ℕ)
    → start ≤ previous
    → in_spans d (spans start previous xs) ≡ ((leb start d && leb d previous) || has d xs)
unfolding spans
in_spans-spans d start previous [] le = refl
in_spans-spans d start previous (x ∷ xs) le = elim (Bool-cases (x == previous + 1)) [
  | inl e ↦ let rest = in_spans-spans d start x xs (ground arith) in rw e (rest ∙ ground arith)
  | inr e ↦ let rest = in_spans-spans d x x xs (omega arith) in rw e (ground arith)
]

IsSeparated-from :
    (lo hi : ℕ) (rest : List (ℕ × ℕ)) → lo ≤ hi → IsSeparated hi rest → IsSeparated lo rest
IsSeparated-from lo hi [] le h = tt
IsSeparated-from lo hi ((start, previous) ∷ rest) le (low, order, h) = (omega arith, order, h)

spans-IsSeparated :
    (start previous : ℕ) (xs : List ℕ)
    → start ≤ previous
    → IsRising (previous + 1) xs
    → IsSeparated start (spans start previous xs)
unfolding spans
spans-IsSeparated start previous [] le h = (omega arith, le, tt)
spans-IsSeparated start previous (x ∷ xs) le (first, h) = elim (Bool-cases (x == previous + 1)) [
  | inl e ↦ rw e (spans-IsSeparated start x xs (omega arith) h)
  | inr e ↦
      let rest = spans-IsSeparated x x xs (omega arith) h in
      rw e (omega arith, le, IsSeparated-from (previous + 2) x (spans x x xs) (ground arith) rest)
]

spans_of_lem :
    (xs : List ℕ) (d : ℕ)
    → IsRising 0 xs
    → (in_spans d (spans_of xs) ≡ has d xs) × IsSeparated 0 (spans_of xs)
spans_of_lem [] d h = (refl, tt)
spans_of_lem (x ∷ xs) d (first, h) =
    let covered = in_spans-spans d x x xs (omega arith) in
    let apart = spans-IsSeparated x x xs (omega arith) h in
    (ground arith, IsSeparated-from 0 x (spans x x xs) (omega arith) apart)

-- The spans that `cycle_ranges` prints cover exactly the given cycles; each is in order, and
-- there is a gap between one and the next.
pub cycle_spans_lem :
    (cycles : List ℕ) (d : ℕ)
    → (in_spans d (cycle_spans cycles) ≡ has d cycles) × IsSeparated 0 (cycle_spans cycles)
unfolding cycle_spans
cycle_spans_lem cycles d =
    let (covered, apart) = spans_of_lem (sorted_set cycles) d (sorted_set-IsRising cycles) in
    (covered ∙ has-sorted_set d cycles, apart)
