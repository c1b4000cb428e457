-- ===== src/ParallelMap/Unvisited.antt =====
-- The modules that `accumulate` of synth/core/parallel_map.py has not in progress.
use open_rv.Prelude.{
  ℕ, suc, ◌≤◌, ◌<◌, ◌≡◌, refl, sym, ap, subst, ◌∙◌, inl, inr, arith, true, false, ◌||◌, List, [],
  ◌∷◌, if◌then◌else◌, length, All, Bool-cases,
}
use open_rv.Text.{Text, text_eq, has_text}
use open_rv.Text.Equal.{text_eq_sound, text_eq_refl}

-- The modules that are not in progress.
pub unvisited : List Text → List Text → ℕ
unvisited [] visiting = 0
unvisited (name ∷ names) visiting =
    let rest = unvisited names visiting in if has_text name visiting then rest else suc rest

-- A module fewer, once it is in progress.
unvisited_cons :
    (names : List Text) (name : Text) (visiting : List Text)
    → unvisited names (name ∷ visiting) ≤ unvisited names visiting
unfolding unvisited
unvisited_cons [] name visiting = omega arith
unvisited_cons (other ∷ names) name visiting =
    let rest = unvisited_cons names name visiting in
    elim (Bool-cases (text_eq other name)) [
      | inl e ↦ elim (Bool-cases (has_text other visiting)) [
        | inl v ↦ rw e (rw v rest)
        | inr v ↦ rw e (rw v (omega arith))
      ]
      | inr e ↦ elim (Bool-cases (has_text other visiting)) [
        | inl v ↦ rw e (rw v rest)
        | inr v ↦ rw e (rw v (omega arith))
      ]
    ]

pub unvisited_falls :
    (names : List Text) (name : Text) (visiting : List Text)
    → has_text name names ≡ true
    → has_text name visiting ≡ false
    → unvisited names (name ∷ visiting) < unvisited names visiting
unfolding unvisited
unvisited_falls [] name visiting h new = cc
unvisited_falls (other ∷ names) name visiting h new =
    let later = unvisited_cons names name visiting in
    elim (Bool-cases (text_eq name other)) [
      | inl e ↦
          let same : name ≡ other = text_eq_sound name other e in
          let here : text_eq other name ≡ true =
            subst (λ n. text_eq n name ≡ true) same (text_eq_refl name) in
          let fresh : has_text other visiting ≡ false =
            subst (λ n. has_text n visiting ≡ false) same new in
          rw here (rw fresh (omega arith))
      | inr e ↦
          let rest =
            unvisited_falls names name visiting (sym (ap (λ b. b || has_text name names) e) ∙ h)
              new in
          elim (Bool-cases (text_eq other name)) [
            | inl back ↦ elim (Bool-cases (has_text other visiting)) [
              | inl v ↦ rw back (rw v rest)
              | inr v ↦ rw back (rw v (omega arith))
            ]
            | inr away ↦ elim (Bool-cases (has_text other visiting)) [
              | inl v ↦ rw away (rw v rest)
              | inr v ↦ rw away (rw v (omega arith))
            ]
          ]
    ]

pub unvisited_nil : (names : List Text) → unvisited names [] ≡ length names
unfolding unvisited
unvisited_nil [] = refl
unvisited_nil (name ∷ names) = ap suc (unvisited_nil names)

-- What has a smaller rank than all calls in progress is none of them.
pub above-new :
    (rank : Text → ℕ) (name : Text) (visiting : List Text)
    → All (λ v. rank name < rank v) visiting
    → has_text name visiting ≡ false
above-new rank name [] all = refl
above-new rank name (v ∷ visiting) (first, all) = elim (Bool-cases (text_eq name v)) [
  | inl e ↦ let same : rank name ≡ rank v = ap rank (text_eq_sound name v e) in absurd (omega arith)
  | inr e ↦ rw e (above-new rank name visiting all)
]
