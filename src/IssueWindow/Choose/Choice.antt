-- ===== src/IssueWindow/Choose/Choice.antt =====
-- The group that `choose` picks: ascending, admitted, not issued, ready, not behind a barrier, and
-- at most three instructions with pairwise different pipes.
use open_rv.Prelude.{
  ℕ, zero, suc, ◌+◌, ◌-◌, ◌≤◌, min, ◌≡◌, refl, sym, ap, subst, inl, inr, Bool, true, false, not,
  ◌&&◌, Option, none, some, List, [], ◌∷◌, ◌++◌, map, arith, leb, length, take, All, Bool-cases,
}
use native.Mathlib.Nat.{le_refl}
use open_rv.IssueWindow.{pipe_assignment, is_hard}
use open_rv.IssueWindow.Pipes.{IsAssignment, pipe_assignment_sound}
use open_rv.IssueWindow.State.{Config, State, Policy, strict, window}
use open_rv.IssueWindow.Choose.{
  range, filter, combinations, tuple_lt, indices, ready, barrier_cutoff, strict_candidates,
  strict_choice, breaks_group, better, best_of, window_choice, assignment_or, best_or, unissued,
  choose_by, choose,
}

-- The indices ascend from `lo` on, and each has the property.
abbrev pub Good : (ℕ → Type 0) → ℕ → List ℕ → Type 0
Good P lo [] = Unit
Good P lo (x ∷ xs) = (lo ≤ x) × P x × Good P (suc x) xs

All-append : (Q : List ℕ → Type 0) (xs ys : List (List ℕ)) → All Q xs → All Q ys → All Q (xs ++ ys)
All-append Q [] ys hx hy = hy
All-append Q (x ∷ xs) ys (h, hx) hy = (h, All-append Q xs ys hx hy)

Good-lower : (P : ℕ → Type 0) (lo lo' : ℕ) (xs : List ℕ) → lo ≤ lo' → Good P lo' xs → Good P lo xs
Good-lower P lo lo' [] h good = tt
Good-lower P lo lo' (x ∷ xs) h (le, p, good) = (omega arith, p, good)

module _ (P : ℕ → Type 0) where
  Good-filter :
      (q : ℕ → Bool) (lo : ℕ) (xs : List ℕ)
      → Good P lo xs
      → Good (λ x. P x × (q x ≡ true)) lo (filter q xs)
  unfolding filter
  Good-filter q lo [] good = tt
  Good-filter q lo (x ∷ xs) (le, p, good) = elim (Bool-cases (q x)) [
    | inl e ↦ rw e (le, (p, e), Good-filter q (suc x) xs good)
    | inr e ↦ rw e (
        Good-lower (λ y. P y × (q y ≡ true)) lo (suc x) (filter q xs) (omega arith)
          (Good-filter q (suc x) xs good))
  ]

  Good-take :
      (n lo : ℕ) (xs : List ℕ) → Good P lo xs → Good P lo (take n xs) × (length (take n xs) ≤ n)
  Good-take zero lo xs good = (tt, omega arith)
  Good-take (suc n) lo [] good = (tt, omega arith)
  Good-take (suc n) lo (x ∷ xs) (le, p, good) =
      let (rest, short) = Good-take n (suc x) xs good in ((le, p, rest), omega arith)

  -- The combinations of one width.
  abbrev IsCombination : ℕ → ℕ → List ℕ → Type 0
  IsCombination lo width c = Good P lo c × (length c ≡ width)

  combinations_cons :
      (lo x width : ℕ) (cs : List (List ℕ))
      → lo ≤ x
      → P x
      → All (IsCombination (suc x) width) cs
      → All (IsCombination lo (suc width)) (map (λ c. x ∷ c) cs)
  combinations_cons lo x width [] le p h = tt
  combinations_cons lo x width (c ∷ cs) le p ((good, size), h) =
      (((le, p, good), ap suc size), combinations_cons lo x width cs le p h)

  combinations_lower :
      (lo lo' width : ℕ) (cs : List (List ℕ))
      → lo ≤ lo'
      → All (IsCombination lo' width) cs
      → All (IsCombination lo width) cs
  combinations_lower lo lo' width [] le h = tt
  combinations_lower lo lo' width (c ∷ cs) le ((good, size), h) =
      ((Good-lower P lo lo' c le good, size), combinations_lower lo lo' width cs le h)

  Good-combinations :
      (lo : ℕ) (items : List ℕ) (width : ℕ)
      → Good P lo items
      → All (IsCombination lo width) (combinations items width)
  unfolding combinations
  Good-combinations lo [] zero good = ((tt, refl), tt)
  Good-combinations lo (x ∷ items) zero good = ((tt, refl), tt)
  Good-combinations lo [] (suc width) good = tt
  Good-combinations lo (x ∷ items) (suc width) (le, p, good) =
      All-append (IsCombination lo (suc width)) (map (λ c. x ∷ c) (combinations items width))
        (combinations items (suc width))
        (combinations_cons lo x width (combinations items width) le p
          (Good-combinations (suc x) items width good))
        (combinations_lower lo (suc x) (suc width) (combinations items (suc width)) (omega arith)
          (Good-combinations (suc x) items (suc width) good))

indices-IsAssignment :
    (g : Config) (selected used : List ℕ) (found : List (ℕ × ℕ))
    → IsAssignment g.inst selected used found
    → indices found ≡ selected
unfolding indices
indices-IsAssignment g [] used [] h = refl
indices-IsAssignment g [] used (x ∷ found) h = absurd h
indices-IsAssignment g (index ∷ selected) used [] h = absurd h
indices-IsAssignment g (index ∷ selected) used ((i, pipe) ∷ found) (e, _, _, rest) =
    rw (e, indices-IsAssignment g selected (pipe ∷ used) found rest)

-- A group: an assignment of pipes to a selection with the property, of at most three.
pub record IsGroup (g : Config) (P : ℕ → Type 0) (assignment : List (ℕ × ℕ)) : Type 0 where
  pub good : Good P 0 (indices assignment)
  pub short : length (indices assignment) ≤ 3
  pub pipes : IsAssignment g.inst (indices assignment) [] assignment

module _ (g : Config) (P : ℕ → Type 0) where
  IsGroup-empty : IsGroup g P []
  unfolding indices
  IsGroup-empty = record { good = tt; short = omega arith; pipes = tt }

  IsGroup-of_assignment :
      (selected : List ℕ) (assignment : List (ℕ × ℕ))
      → Good P 0 selected
      → length selected ≤ 3
      → pipe_assignment g.inst selected ≡ some assignment
      → IsGroup g P assignment
  IsGroup-of_assignment selected assignment good short h =
      let valid = pipe_assignment_sound g.inst selected assignment h in
      let same = sym (indices-IsAssignment g selected [] assignment valid) in
      record {
        good = subst (Good P 0) same good;
        short = subst (λ xs. length xs ≤ 3) same short;
        pipes = subst (λ xs. IsAssignment g.inst xs [] assignment) same valid;
      }

  strict_choice-IsGroup :
      (candidates : List ℕ) (width : ℕ)
      → Good P 0 candidates
      → width ≤ 3
      → IsGroup g P (strict_choice g candidates width)
  unfolding strict_choice
  strict_choice-IsGroup candidates zero good small = IsGroup-empty
  strict_choice-IsGroup candidates (suc width) good small =
      let (front, size) = Good-take P (suc width) 0 candidates good in
      go (pipe_assignment g.inst (take (suc width) candidates)) refl front size
        (strict_choice-IsGroup candidates width good (omega arith))
    where
      go :
          (o : Option (List (ℕ × ℕ)))
          → pipe_assignment g.inst (take (suc width) candidates) ≡ o
          → Good P 0 (take (suc width) candidates)
          → length (take (suc width) candidates) ≤ suc width
          → IsGroup g P (strict_choice g candidates width)
          → IsGroup g P (assignment_or o (strict_choice g candidates width))
      go none e front size narrower = narrower
      go (some found) e front size narrower =
          IsGroup-of_assignment (take (suc width) candidates) found front (omega arith) e

  abbrev BestGood : Option (List ℕ × List (ℕ × ℕ)) → Type 0
  BestGood none = Unit
  BestGood (some (c, assignment)) = IsGroup g P assignment

  better-IsGroup :
      (c : List ℕ) (o : Option (List (ℕ × ℕ))) (best : Option (List ℕ × List (ℕ × ℕ)))
      → Good P 0 c
      → length c ≤ 3
      → pipe_assignment g.inst c ≡ o
      → BestGood best
      → BestGood (better g c o best)
  unfolding better
  better-IsGroup c none best good short e hb = hb
  better-IsGroup c (some assignment) none good short e hb =
      IsGroup-of_assignment c assignment good short e
  better-IsGroup c (some assignment) (some (b, old)) good short e hb =
      elim (Bool-cases (tuple_lt c b)) [
        | inl t ↦ rw t (IsGroup-of_assignment c assignment good short e)
        | inr t ↦ rw t hb
      ]

  best_of-IsGroup :
      (width : ℕ) (cs : List (List ℕ)) (best : Option (List ℕ × List (ℕ × ℕ)))
      → width ≤ 3
      → All (IsCombination P 0 width) cs
      → BestGood best
      → BestGood (best_of g cs best)
  unfolding best_of
  best_of-IsGroup width [] best small h hb = hb
  best_of-IsGroup width (c ∷ cs) best small ((good, size), h) hb =
      elim (Bool-cases (breaks_group g c c)) [
        | inl e ↦ rw e (best_of-IsGroup width cs best small h hb)
        | inr e ↦ rw e (
            best_of-IsGroup width cs (better g c (pipe_assignment g.inst c) best) small h
              (better-IsGroup c (pipe_assignment g.inst c) best good (omega arith) refl hb))
      ]

  window_choice-IsGroup :
      (items : List ℕ) (width : ℕ)
      → Good P 0 items
      → width ≤ 3
      → IsGroup g P (window_choice g items width)
  unfolding window_choice
  window_choice-IsGroup items zero good small = IsGroup-empty
  window_choice-IsGroup items (suc width) good small =
      go (best_of g (combinations items (suc width)) none)
        (best_of-IsGroup (suc width) (combinations items (suc width)) none small
          (Good-combinations P 0 items (suc width) good) tt)
        (window_choice-IsGroup items width good (omega arith))
    where
      go :
          (o : Option (List ℕ × List (ℕ × ℕ)))
          → BestGood o
          → IsGroup g P (window_choice g items width)
          → IsGroup g P (best_or o (window_choice g items width))
      go none b narrower = narrower
      go (some (c, found)) b narrower = b

-- What `choose` may pick.
abbrev pub IsEligible : Config → State → ℕ → Type 0
IsEligible g s i =
    (s.admitted i ≡ true)
    × (s.issued i ≡ false)
    × (ready g s i ≡ true)
    × (i ≤ barrier_cutoff g s)
    × (s.retire_head ≤ i)

Good-range : (lo from left : ℕ) → lo ≤ from → Good (λ i. lo ≤ i) from (range from left)
unfolding range
Good-range lo from zero h = tt
Good-range lo from (suc left) h = (
  le_refl from,
  h,
  Good-lower (λ i. lo ≤ i) (suc from) (from + 1) (range (from + 1) left) (omega arith)
      (Good-range lo (from + 1) left (omega arith)),
)

length-strict_candidates :
    (g : Config) (s : State) (xs : List ℕ) → length (strict_candidates g s xs) ≤ length xs
unfolding strict_candidates
length-strict_candidates g s [] = omega arith
length-strict_candidates g s (x ∷ xs) = ground (arith, length-strict_candidates g s xs)

strict_candidates-Good :
    (g : Config) (s : State) (P : ℕ → Type 0) (lo : ℕ) (xs : List ℕ)
    → Good P lo xs
    → Good (λ i. P i × (ready g s i ≡ true)) lo (strict_candidates g s xs)
unfolding strict_candidates
strict_candidates-Good g s P lo [] good = tt
strict_candidates-Good g s P lo (x ∷ xs) (le, p, good) = elim (Bool-cases (ready g s x)) [
  | inr e ↦ rw e tt
  | inl e ↦ elim (Bool-cases (is_hard (g.inst x))) [
    | inl hard ↦ rw (e, hard) (le, (p, e), tt)
    | inr soft ↦ rw (e, soft) (le, (p, e), strict_candidates-Good g s P (suc x) xs good)
  ]
]

Good-map :
    (P Q : ℕ → Type 0) (lo : ℕ) (xs : List ℕ) → ((i : ℕ) → P i → Q i) → Good P lo xs → Good Q lo xs
Good-map P Q lo [] f good = tt
Good-map P Q lo (x ∷ xs) f (le, p, good) = (le, f x p, Good-map P Q (suc x) xs f good)

-- The candidates of `choose`: not issued, and not behind the barrier.
abbrev IsCandidate : Config → State → ℕ → Type 0
IsCandidate g s i =
    (s.retire_head ≤ i)
    × (s.admitted i && not (s.issued i) ≡ true)
    × (leb i (barrier_cutoff g s) ≡ true)

module _ (g : Config) (s : State) where
  candidates-Good :
      Good (IsCandidate g s) 0 (filter (λ i. leb i (barrier_cutoff g s)) (unissued g s))
  unfolding unissued
  candidates-Good =
      let all =
        Good-range s.retire_head s.retire_head (s.next_admit - s.retire_head)
          (le_refl s.retire_head) in
      let waiting =
        Good-filter (λ i. s.retire_head ≤ i) (λ i. s.admitted i && not (s.issued i)) s.retire_head _
          all in
      let before = Good-filter _ (λ i. leb i (barrier_cutoff g s)) s.retire_head _ waiting in
      Good-lower (IsCandidate g s) 0 s.retire_head _ (omega arith)
        (Good-map _ (IsCandidate g s) s.retire_head _ (λ i ((a, b), c). (a, b, c)) before)

  eligible : (i : ℕ) → IsCandidate g s i × (ready g s i ≡ true) → IsEligible g s i
  eligible i h = ground arith

  choose_by-IsGroup :
      (policy : Policy) (candidates : List ℕ)
      → Good (IsCandidate g s) 0 candidates
      → IsGroup g (IsEligible g s) (choose_by g policy s candidates)
  unfolding choose_by
  choose_by-IsGroup strict candidates good =
      let (front, few) = Good-take (IsCandidate g s) 3 0 candidates good in
      let group = strict_candidates g s (take 3 candidates) in
      strict_choice-IsGroup g (IsEligible g s) group (length group)
        (Good-map _ (IsEligible g s) 0 group eligible
          (strict_candidates-Good g s (IsCandidate g s) 0 (take 3 candidates) front))
        (omega (arith, few, length-strict_candidates g s (take 3 candidates)))
  choose_by-IsGroup window candidates good =
      let ready_indices = filter (ready g s) candidates in
      window_choice-IsGroup g (IsEligible g s) ready_indices (min 3 (length ready_indices))
        (Good-map _ (IsEligible g s) 0 ready_indices eligible
          (Good-filter (IsCandidate g s) (ready g s) 0 candidates good))
        (omega arith)

  -- Under either policy the group is a set of at most three instructions in ascending order, each
  -- admitted, not yet issued, ready, at or behind the retirement head and not behind the barrier,
  -- with pairwise different pipes out of the options of each.
  pub choose-IsGroup : IsGroup g (IsEligible g s) (choose g s)
  unfolding choose
  choose-IsGroup = choose_by-IsGroup g.policy _ candidates-Good
