-- ===== src/IssueWindow/Replay/Release.antt =====
-- `monotonic_release` of tools/issue_window_experiment.py is the running maximum.
use open_rv.Prelude.{
  ℕ, zero, suc, max, ◌≤◌, ◌<◌, ◌≡◌, ◌⊎◌, inl, inr, refl, sym, ◌∙◌, ap, arith, some, List, [], ◌∷◌,
  get_elem?, subst, length,
}
use open_rv.IssueWindow.{DynamicInstruction}
use open_rv.IssueWindow.Replay.{monotonic_from, monotonic_release}

abbrev pub IsMaximum : (DynamicInstruction → ℕ) → List DynamicInstruction → ℕ → ℕ → Type 0
IsMaximum field instructions i r =
    ((j : ℕ) (x : DynamicInstruction) → j ≤ i → get_elem? instructions j ≡ some x → field x ≤ r)
    × ((j : ℕ) × (x : DynamicInstruction) × j ≤ i
        × (get_elem? instructions j ≡ some x)
        × (field x ≡ r))

-- The maximum of the first `i + 1` values and of the one before them.
abbrev IsMaximumFrom : ℕ → (DynamicInstruction → ℕ) → List DynamicInstruction → ℕ → ℕ → Type 0
IsMaximumFrom previous field instructions i r =
    previous ≤ r
    × ((j : ℕ) (x : DynamicInstruction) → j ≤ i → get_elem? instructions j ≡ some x → field x ≤ r)
    × ((previous ≡ r)
        ⊎ ((j : ℕ) × (x : DynamicInstruction) × j ≤ i
            × (get_elem? instructions j ≡ some x)
            × (field x ≡ r)))

head_max :
    (previous : ℕ) (field : DynamicInstruction → ℕ) (x : DynamicInstruction)
    (xs : List DynamicInstruction) (r : ℕ)
    → max previous (field x) ≡ r
    → IsMaximumFrom previous field (x ∷ xs) 0 r
head_max previous field x xs r same = (omega (arith, same), below, from_head)
  where
    below : (j : ℕ) (y : DynamicInstruction) → j ≤ 0 → get_elem? (x ∷ xs) j ≡ some y → field y ≤ r
    below zero y le e =
        let here : x ≡ y = ground arith in subst (λ z. field z ≤ r) here (omega (arith, same))
    below (suc j) y le e = absurd (omega arith)

    choose_max : max previous (field x) ≡ previous ⊎ max previous (field x) ≡ field x
    choose_max = omega arith

    from_head :
        (previous ≡ r)
        ⊎ ((j : ℕ) × (y : DynamicInstruction) × j ≤ 0
            × (get_elem? (x ∷ xs) j ≡ some y)
            × (field y ≡ r))
    from_head = elim choose_max [
      | inl e ↦ inl (sym e ∙ same)
      | inr e ↦ inr (0, x, omega arith, refl, sym e ∙ same)
    ]

tail_max :
    (previous : ℕ) (field : DynamicInstruction → ℕ) (x : DynamicInstruction)
    (xs : List DynamicInstruction) (i r : ℕ)
    → IsMaximumFrom (max previous (field x)) field xs i r
    → IsMaximumFrom previous field (x ∷ xs) (suc i) r
tail_max previous field x xs i r (le, all, found) = (omega arith, below, here_or_later)
  where
    below :
        (j : ℕ) (y : DynamicInstruction) → j ≤ suc i → get_elem? (x ∷ xs) j ≡ some y → field y ≤ r
    below zero y le' e =
        let here : x ≡ y = ground arith in subst (λ z. field z ≤ r) here (omega arith)
    below (suc j) y le' e = all j y (omega arith) e

    found_at :
        max previous (field x) ≡ r
        → (previous ≡ r)
          ⊎ ((j : ℕ) × (y : DynamicInstruction) × j ≤ suc i
              × (get_elem? (x ∷ xs) j ≡ some y)
              × (field y ≡ r))
    found_at same =
        let (le0, below0, from_head) = head_max previous field x xs r same in
        elim from_head [ inl e ↦ inl e | inr (j, y, le, e, m) ↦ inr (j, y, omega arith, e, m) ]

    here_or_later :
        (previous ≡ r)
        ⊎ ((j : ℕ) × (y : DynamicInstruction) × j ≤ suc i
            × (get_elem? (x ∷ xs) j ≡ some y)
            × (field y ≡ r))
    here_or_later = elim found [
      | inl same ↦ found_at same
      | inr (j, y, le, e, m) ↦ inr (suc j, y, omega arith, e, m)
    ]

monotonic_from_lem :
    (previous : ℕ) (field : DynamicInstruction → ℕ) (instructions : List DynamicInstruction)
    (i r : ℕ)
    → get_elem? (monotonic_from previous field instructions) i ≡ some r
    → IsMaximumFrom previous field instructions i r
unfolding monotonic_from
monotonic_from_lem previous field [] i r h = cc
monotonic_from_lem previous field (x ∷ xs) zero r h =
    let same : max previous (field x) ≡ r = ground arith in head_max previous field x xs r same
monotonic_from_lem previous field (x ∷ xs) (suc i) r h =
    tail_max previous field x xs i r (monotonic_from_lem (max previous (field x)) field xs i r h)

length-monotonic_from :
    (previous : ℕ) (field : DynamicInstruction → ℕ) (instructions : List DynamicInstruction)
    → length (monotonic_from previous field instructions) ≡ length instructions
unfolding monotonic_from
length-monotonic_from previous field [] = refl
length-monotonic_from previous field (x ∷ xs) =
    ap suc (length-monotonic_from (max previous (field x)) field xs)

get_elem?_lt : {A : Type 0} (xs : List A) (i : ℕ) (a : A) → get_elem? xs i ≡ some a → i < length xs
get_elem?_lt [] i a h = cc
get_elem?_lt (x ∷ xs) zero a h = omega arith
get_elem?_lt (x ∷ xs) (suc i) a h = let lt = get_elem?_lt xs i a h in omega arith

get_elem?-some :
    {A : Type 0} (xs : List A) (i : ℕ) → i < length xs → (a : A) × (get_elem? xs i ≡ some a)
get_elem?-some [] i h = absurd (omega arith)
get_elem?-some (x ∷ xs) zero h = (x, refl)
get_elem?-some (x ∷ xs) (suc i) h = get_elem?-some xs i (omega arith)

-- The release at an index is the greatest value of the field up to that index.
pub monotonic_release-IsMaximum :
    (field : DynamicInstruction → ℕ) (instructions : List DynamicInstruction) (i r : ℕ)
    → get_elem? (monotonic_release field instructions) i ≡ some r
    → IsMaximum field instructions i r
unfolding monotonic_release
monotonic_release-IsMaximum field instructions i r h =
    let (le, all, found) = monotonic_from_lem 0 field instructions i r h in
    let size = length-monotonic_from 0 field instructions in
    let lt = get_elem?_lt (monotonic_from 0 field instructions) i r h in
    let (x, there) = get_elem?-some instructions i (omega (arith, size, lt)) in
    let bound = all i x (omega arith) there in
    (
      all,
      elim found [
        | inl zero_max ↦ (i, x, omega arith, there, omega (arith, zero_max, bound))
        | inr at ↦ at
      ],
    )
