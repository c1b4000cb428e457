-- ===== src/Signposts/Sorted.antt =====
-- The sorted progress records of tools/linux_boot_signposts.py.
use open_rv.Prelude.{
  ℕ, ◌≤◌, ◌<◌, ◌≡◌, ◌⊎◌, inl, inr, subst, arith, Option, none, some, List, [], ◌∷◌, ltb,
  if◌then◌else◌, All, All-map, Bool-cases,
}
use open_rv.Signposts.{Progress, insert_progress, sort_progress}

abbrev pub IsAmong : Progress → List Progress → Type 0
IsAmong p [] = ⊥
IsAmong p (q ∷ rest) = (p ≡ q) ⊎ IsAmong p rest

-- The last of the records up to a line, if there is one.
abbrev pub IsLower : List Progress → ℕ → Option Progress → Type 0
IsLower progress line none = All (λ p. line < p.line) progress
IsLower progress line (some lower) =
    lower.line ≤ line
    × IsAmong lower progress
    × All (λ p. p.line ≤ line → p.line ≤ lower.line) progress

-- The first of the records behind a line, if there is one.
abbrev pub IsUpper : List Progress → ℕ → Option Progress → Type 0
IsUpper progress line none = All (λ p. p.line ≤ line) progress
IsUpper progress line (some upper) =
    line < upper.line
    × IsAmong upper progress
    × All (λ p. line < p.line → upper.line ≤ p.line) progress

abbrev pub IsSorted : List Progress → Type 0
IsSorted [] = Unit
IsSorted (p ∷ progress) = All (λ q. p.line ≤ q.line) progress × IsSorted progress

-- Sorting keeps the records and what holds of them.
All-insert :
    (P : Progress → Type 0) (p : Progress) (progress : List Progress)
    → P p
    → All P progress
    → All P (insert_progress p progress)
unfolding insert_progress
All-insert P p [] h all = (h, tt)
All-insert P p (q ∷ progress) h (first, all) = elim (Bool-cases (ltb q.line p.line)) [
  | inl e ↦ rw e (first, All-insert P p progress h all)
  | inr e ↦ rw e (h, (first, all))
]

insert-All :
    (P : Progress → Type 0) (p : Progress) (progress : List Progress)
    → All P (insert_progress p progress)
    → P p × All P progress
unfolding insert_progress
insert-All P p [] (h, all) = (h, tt)
insert-All P p (q ∷ progress) all = elim (Bool-cases (ltb q.line p.line)) [
  | inl e ↦
      let (first, more) =
        subst (λ b. All P (if b then q ∷ insert_progress p progress else p ∷ q ∷ progress)) e all in
      let (h, rest) = insert-All P p progress more in (h, (first, rest))
  | inr e ↦
      subst (λ b. All P (if b then q ∷ insert_progress p progress else p ∷ q ∷ progress)) e all
]

sort-All :
    (P : Progress → Type 0) (progress : List Progress)
    → All P (sort_progress progress)
    → All P progress
unfolding sort_progress
sort-All P [] all = tt
sort-All P (p ∷ progress) all =
    let (h, rest) = insert-All P p (sort_progress progress) all in (h, sort-All P progress rest)

IsAmong-insert :
    (r p : Progress) (progress : List Progress)
    → IsAmong r (insert_progress p progress)
    → (r ≡ p) ⊎ IsAmong r progress
unfolding insert_progress
IsAmong-insert r p [] h = h
IsAmong-insert r p (q ∷ progress) h = elim (Bool-cases (ltb q.line p.line)) [
  | inl e ↦
      let h' : (r ≡ q) ⊎ IsAmong r (insert_progress p progress) =
        subst (λ b. IsAmong r (if b then q ∷ insert_progress p progress else p ∷ q ∷ progress)) e
          h in
      elim h' [
        | inl same ↦ inr (inl same)
        | inr later ↦ elim (IsAmong-insert r p progress later) [
          | inl same ↦ inl same
          | inr there ↦ inr (inr there)
        ]
      ]
  | inr e ↦
      subst (λ b. IsAmong r (if b then q ∷ insert_progress p progress else p ∷ q ∷ progress)) e h
]

IsAmong-sort :
    (r : Progress) (progress : List Progress)
    → IsAmong r (sort_progress progress)
    → IsAmong r progress
unfolding sort_progress
IsAmong-sort r [] h = h
IsAmong-sort r (p ∷ progress) h = elim (IsAmong-insert r p (sort_progress progress) h) [
  | inl same ↦ inl same
  | inr there ↦ inr (IsAmong-sort r progress there)
]

insert-IsSorted :
    (p : Progress) (progress : List Progress)
    → IsSorted progress
    → IsSorted (insert_progress p progress)
unfolding insert_progress
insert-IsSorted p [] h = (tt, tt)
insert-IsSorted p (q ∷ progress) (first, h) = elim (Bool-cases (ltb q.line p.line)) [
  | inl e ↦ rw e (
    All-insert (λ r. q.line ≤ r.line) p progress (ground arith) first,
    insert-IsSorted p progress h,
  )
  | inr e ↦
      let low : p.line ≤ q.line = ground arith in
      rw e (
        (
          low,
          All-map (λ r. q.line ≤ r.line) (λ r. p.line ≤ r.line) progress (λ r le. omega arith)
              first,
        ),
        (first, h),
      )
]

pub sort-IsSorted : (progress : List Progress) → IsSorted (sort_progress progress)
unfolding sort_progress
sort-IsSorted [] = tt
sort-IsSorted (p ∷ progress) = insert-IsSorted p (sort_progress progress) (sort-IsSorted progress)

-- Of the sorted records too.
pub sort-IsLower :
    (progress : List Progress) (line : ℕ) (lower : Option Progress)
    → IsLower (sort_progress progress) line lower
    → IsLower progress line lower
sort-IsLower progress line none all = sort-All _ progress all
sort-IsLower progress line (some p) (le, among, greatest) =
    (le, IsAmong-sort p progress among, sort-All _ progress greatest)

pub sort-IsUpper :
    (progress : List Progress) (line : ℕ) (upper : Option Progress)
    → IsUpper (sort_progress progress) line upper
    → IsUpper progress line upper
sort-IsUpper progress line none all = sort-All _ progress all
sort-IsUpper progress line (some p) (lt, among, least) =
    (lt, IsAmong-sort p progress among, sort-All _ progress least)
