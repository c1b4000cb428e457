-- ===== src/ParallelMap/Returns.antt =====
-- Where the accumulation of synth/core/parallel_map.py returns. A rank that falls from each module to its
-- children shows that a hierarchy has no cycle.
use open_rv.Prelude.{
  ℕ, zero, suc, ◌<◌, ◌≡◌, refl, subst, inl, inr, arith, true, false, Option, none, some, List, [],
  ◌∷◌, Result, ok, if◌then◌else◌, length, All, All-map, Bool-cases,
}
use open_rv.Text.{Text, text_eq, has_text, has_all}
use open_rv.ParallelMap.{
  MapError, Hierarchy, children_of, all_present, Totals, add, put, recall, add_children, sum_up,
  accumulate, accumulate_all, recursive_totals,
}
use open_rv.Text.Members.{All-has_text, has_all-All, has_text_self}
use open_rv.ParallelMap.Unvisited.{unvisited, unvisited_falls, unvisited_nil, above-new}

module _ {A : Type 0} (plus : A → A → A) where
  abbrev Returns : Result MapError ((A × A) × Totals A) → Type 0
  Returns result = (value : A × A) × (noted : Totals A) × (result ≡ ok (value, noted))

  add_children-Returns :
      (visit : Text → Totals A → Result MapError ((A × A) × Totals A)) (names : List Text)
      → All (λ name. (totals : Totals A) → Returns (visit name totals)) names
      → (part : A × A) (totals : Totals A) → Returns (add_children plus visit names part totals)
  unfolding add_children
  add_children-Returns visit [] all part totals = (part, totals, refl)
  add_children-Returns visit (name ∷ names) (first, all) part totals =
      let (value, noted, e) = first totals in
      rw e (add_children-Returns visit names all (add plus part value) noted)

  sum_up-Returns :
      (visit : Text → Totals A → Result MapError ((A × A) × Totals A)) (name : Text)
      (direct : Option (A × A)) (own : A × A) (names : List Text)
      → direct ≡ some own
      → All (λ name. (totals : Totals A) → Returns (visit name totals)) names
      → (totals : Totals A) → Returns (sum_up plus visit name direct names totals)
  unfolding sum_up
  sum_up-Returns visit name direct own names e all totals =
      let (whole, noted, added) = add_children-Returns visit names all own totals in
      rw e (rw added (whole, put name whole noted, refl))

  recall-Returns :
      (known : Option (A × A)) (totals : Totals A) (visited : Result MapError ((A × A) × Totals A))
      → Returns visited
      → Returns (recall known totals visited)
  recall-Returns none totals visited h = h
  recall-Returns (some whole) totals visited h = (whole, totals, refl)

-- A complete hierarchy in which the rank falls.
abbrev IsBelow : List Text → (Text → ℕ) → (Text → List Text) → Text → Type 0
IsBelow modules rank children name =
    All (λ child. (has_text child modules ≡ true) × rank child < rank name) (children name)

abbrev pub HasStats : {A : Type 0} → (Text → Option (A × A)) → Text → Type 0
HasStats {A} direct name = (own : A × A) × (direct name ≡ some own)

below-visiting :
    (rank : Text → ℕ) (name child : Text) (visiting : List Text)
    → rank child < rank name
    → All (λ v. rank name < rank v) visiting
    → All (λ v. rank child < rank v) visiting
below-visiting rank name child [] low all = tt
below-visiting rank name child (v ∷ visiting) low (first, all) =
    (omega arith, below-visiting rank name child visiting low all)

module _ {A : Type 0} (plus : A → A → A) (direct : Text → Option (A × A))
    (children : Text → List Text) (modules : List Text) (rank : Text → ℕ) where
  accumulate-Returns :
      All (HasStats direct) modules
      → All (IsBelow modules rank children) modules
      → (fuel : ℕ) (visiting : List Text) (name : Text) → has_text name modules ≡ true
      → All (λ v. rank name < rank v) visiting
      → unvisited modules visiting < fuel
      → (totals : Totals A)
      → Returns plus (accumulate plus direct children fuel visiting name totals)
  unfolding accumulate
  accumulate-Returns stats below zero visiting name here above enough totals = absurd (omega arith)
  accumulate-Returns stats below (suc fuel) visiting name here above enough totals =
      let new = above-new rank name visiting above in
      let falls = unvisited_falls modules name visiting here new in
      let (own, e) = All-has_text (HasStats direct) name modules stats here in
      let under = All-has_text (IsBelow modules rank children) name modules below here in
      let visit = accumulate plus direct children fuel (name ∷ visiting) in
      let each =
        All-map _ (λ child. (totals : Totals A) → Returns plus (visit child totals)) (children name)
          (λ child (child_here, low) child_totals.
            accumulate-Returns stats below fuel (name ∷ visiting) child child_here
              (low, below-visiting rank name child visiting low above) (omega arith) child_totals)
          under in
      recall-Returns plus (totals name) totals _
        (rw new (sum_up-Returns plus visit name (direct name) own (children name) e each totals))

  accumulate_all_returns :
      All (HasStats direct) modules
      → All (IsBelow modules rank children) modules
      → (fuel : ℕ) → length modules < fuel
      → (names : List Text) → All (λ name. has_text name modules ≡ true) names
      → (totals : Totals A)
      → (final : Totals A) × (accumulate_all plus direct children fuel names totals ≡ ok final)
  unfolding accumulate_all
  accumulate_all_returns stats below fuel enough [] all totals = (totals, refl)
  accumulate_all_returns stats below fuel enough (name ∷ names) (here, all) totals =
      let room : unvisited modules [] < fuel = omega (arith, unvisited_nil modules) in
      let (value, noted, e) = accumulate-Returns stats below fuel [] name here tt room totals in
      rw e (accumulate_all_returns stats below fuel enough names all noted)

all_present-children :
    (modules : List Text) (hierarchy : Hierarchy) (name : Text)
    → all_present modules hierarchy ≡ true
    → All (λ child. has_text child modules ≡ true) (children_of hierarchy name)
unfolding all_present children_of
all_present-children modules [] name h = tt
all_present-children modules ((other, children) ∷ hierarchy) name h =
    elim (Bool-cases (has_all children modules)) [
      | inl e ↦
          let rest = subst (λ b. (if b then all_present modules hierarchy else false) ≡ true) e h in
          elim (Bool-cases (text_eq other name)) [
            | inl hit ↦ rw hit (has_all-All children modules e)
            | inr miss ↦ rw miss (all_present-children modules hierarchy name rest)
          ]
      | inr e ↦ cc
    ]

All-pair :
    {A : Type 0} (P Q : A → Type 0) (xs : List A) → All P xs → All Q xs → All (λ x. P x × Q x) xs
All-pair P Q [] p q = tt
All-pair P Q (x ∷ xs) (p, ps) (q, qs) = ((p, q), All-pair P Q xs ps qs)

-- If every module has statistics, every child is a module, and a rank falls from each module to
-- its children, then the accumulation returns the totals: it meets no cycle, misses no key and
-- does not run out of the fuel of one call for each module and one more.
pub recursive_totals_returns :
    {A : Type 0} (plus : A → A → A) (direct : Text → Option (A × A)) (hierarchy : Hierarchy)
    (modules : List Text) (rank : Text → ℕ)
    → All (HasStats direct) modules
    → all_present modules hierarchy ≡ true
    → All (λ name. All (λ child. rank child < rank name) (children_of hierarchy name)) modules
    → (totals : Totals A) × (recursive_totals plus direct hierarchy modules ≡ ok totals)
unfolding recursive_totals
recursive_totals_returns plus direct hierarchy modules rank stats complete falls =
    let below =
      All-map _ (IsBelow modules rank (children_of hierarchy)) modules
        (λ name low.
          All-pair (λ child. has_text child modules ≡ true) (λ child. rank child < rank name)
            (children_of hierarchy name) (all_present-children modules hierarchy name complete) low)
        falls in
    rw complete (
      accumulate_all_returns plus direct (children_of hierarchy) modules rank stats below
        (suc (length modules)) (omega arith) modules (has_text_self modules) (λ name. none))
