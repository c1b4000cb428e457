-- ===== src/IssueWindow/Pipes.antt =====
-- `pipe_assignment` finds an assignment exactly when there is one.
use open_rv.Prelude.{
  ℕ, ◌≡◌, refl, sym, subst, ==_iff, ◌⊎◌, inl, inr, true, false, none, some, List, [], ◌∷◌, arith,
  ◌==◌, Bool-cases, Option-cases,
}
use open_rv.IssueWindow.{
  DynamicInstruction, pipe_options, contains, first_free, assign, pipe_assignment,
}

-- A choice of pipes for the selected instructions: each takes one of its options, none that is
-- used or that a later one takes.
abbrev pub IsAssignment : (ℕ → DynamicInstruction) → List ℕ → List ℕ → List (ℕ × ℕ) → Type 0
IsAssignment inst [] used [] = Unit
IsAssignment inst (index ∷ selected) used ((i, pipe) ∷ found) =
    (i ≡ index)
    × (contains (pipe_options (inst index)) pipe ≡ true)
    × (contains used pipe ≡ false)
    × IsAssignment inst selected (pipe ∷ used) found
IsAssignment inst [] used (_ ∷ found) = ⊥
IsAssignment inst (index ∷ selected) used [] = ⊥

module _ (inst : ℕ → DynamicInstruction) where
  first_free_sound :
      (index : ℕ) (options used : List ℕ) (selected : List ℕ) (found : List (ℕ × ℕ))
      → ((u : List ℕ) (r : List (ℕ × ℕ))
          → assign inst selected u ≡ some r
          → IsAssignment inst selected u r)
      → ((p : ℕ) → contains options p ≡ true → contains (pipe_options (inst index)) p ≡ true)
      → first_free index options used (λ u. assign inst selected u) ≡ some found
      → IsAssignment inst (index ∷ selected) used found
  unfolding first_free contains
  first_free_sound index [] used selected found ih sub h = cc
  first_free_sound index (p ∷ options) used selected found ih sub h =
      let later =
        first_free_sound index options used selected found ih (λ q m. sub q (ground (arith, m))) in
      elim (Bool-cases (contains used p)) [
        | inl taken ↦ later (rw taken at h)
        | inr free ↦ elim (Option-cases (assign inst selected (p ∷ used))) [
          | inl stuck ↦ later (rw (free, stuck) at h)
          | inr (r, e) ↦
              let same : some ((index, p) ∷ r) ≡ some found = rw (free, e) at h in
              let same' : (index, p) ∷ r ≡ found = cc in
              subst (IsAssignment inst (index ∷ selected) used) same'
                (refl, sub p (ground arith), free, ih (p ∷ used) r e)
        ]
      ]

  assign_sound :
      (selected used : List ℕ) (found : List (ℕ × ℕ))
      → assign inst selected used ≡ some found
      → IsAssignment inst selected used found
  unfolding assign
  assign_sound [] used [] h = tt
  assign_sound [] used (x ∷ found) h = cc
  assign_sound (index ∷ selected) used found h =
      first_free_sound index (pipe_options (inst index)) used selected found
        (λ u r e. assign_sound selected u r e) (λ q m. m) h

  -- If the search fails, no option that is tried leaves the rest assignable.
  first_free_complete :
      (index : ℕ) (options used selected : List ℕ)
      → ((u : List ℕ) (r : List (ℕ × ℕ))
          → assign inst selected u ≡ none
          → IsAssignment inst selected u r
          → ⊥)
      → first_free index options used (λ u. assign inst selected u) ≡ none
      → (pipe : ℕ) (r : List (ℕ × ℕ)) → contains options pipe ≡ true
      → contains used pipe ≡ false
      → IsAssignment inst selected (pipe ∷ used) r
      → ⊥
  unfolding first_free contains
  first_free_complete index [] used selected ih h pipe r m free ok = cc
  first_free_complete index (p ∷ options) used selected ih h pipe r m free ok =
      let later =
        λ (e : first_free index options used (λ u. assign inst selected u) ≡ none)
            (k : contains options pipe ≡ true).
          first_free_complete index options used selected ih e pipe r k free ok in
      elim (Bool-cases (p == pipe)) [
        | inl e ↦ here ((==_iff p pipe).0 e) h
        | inr e ↦ later (rest h) (ground arith)
      ]
    where
      here : p ≡ pipe → first_free index (p ∷ options) used (λ u. assign inst selected u) ≡ none → ⊥
      here e g = elim (Option-cases (assign inst selected (p ∷ used))) [
        | inl stuck ↦
            ih (p ∷ used) r stuck (subst (λ q. IsAssignment inst selected (q ∷ used) r) (sym e) ok)
        | inr (s, found) ↦
            let free' : contains used p ≡ false = rw e free in
            let g' : some ((index, p) ∷ s) ≡ none = rw (free', found) at g in cc
      ]

      rest :
          first_free index (p ∷ options) used (λ u. assign inst selected u) ≡ none
          → first_free index options used (λ u. assign inst selected u) ≡ none
      rest g = elim (Bool-cases (contains used p)) [
        | inl taken ↦ rw taken at g
        | inr free' ↦ elim (Option-cases (assign inst selected (p ∷ used))) [
          | inl stuck ↦ rw (free', stuck) at g
          | inr (s, found) ↦ let g' : some ((index, p) ∷ s) ≡ none = rw (free', found) at g in cc
        ]
      ]

  assign_complete :
      (selected used : List ℕ) (r : List (ℕ × ℕ))
      → assign inst selected used ≡ none
      → IsAssignment inst selected used r
      → ⊥
  unfolding assign
  assign_complete [] used r h ok = cc
  assign_complete (index ∷ selected) used [] h ok = ok
  assign_complete (index ∷ selected) used ((i, pipe) ∷ r) h (_, option, free, rest) =
      first_free_complete index (pipe_options (inst index)) used selected
        (λ u s e good. assign_complete selected u s e good) h pipe r option free rest

pub pipe_assignment_sound :
    (inst : ℕ → DynamicInstruction) (selected : List ℕ) (found : List (ℕ × ℕ))
    → pipe_assignment inst selected ≡ some found
    → IsAssignment inst selected [] found
unfolding pipe_assignment
pipe_assignment_sound inst selected found h = assign_sound inst selected [] found h

-- `pipe_assignment` returns a choice of pairwise different pipes, each among the options of its
-- instruction, or `None` if there is no such choice.
pub pipe_assignment_decides :
    (inst : ℕ → DynamicInstruction) (selected : List ℕ)
    → ((found : List (ℕ × ℕ)) × (pipe_assignment inst selected ≡ some found)
        × IsAssignment inst selected [] found)
      ⊎ ((pipe_assignment inst selected ≡ none)
          × ¬ ((found : List (ℕ × ℕ)) × IsAssignment inst selected [] found))
unfolding pipe_assignment
pipe_assignment_decides inst selected = elim (Option-cases (assign inst selected [])) [
  | inl stuck ↦ inr (stuck, λ (found, good). assign_complete inst selected [] found stuck good)
  | inr (found, e) ↦ inl (found, e, assign_sound inst selected [] found e)
]
