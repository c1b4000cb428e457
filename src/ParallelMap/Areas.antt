-- ===== src/ParallelMap/Areas.antt =====
-- The totals of synth/core/parallel_map.py against the recursive sum over the hierarchy, which has no
-- table of what is known.
use open_rv.Prelude.{
  ℕ, zero, suc, ◌≡◌, refl, sym, subst, ◌∙◌, inl, inr, Bool, true, false, not, Option, none, some,
  List, [], ◌∷◌, Result, ok, if◌then◌else◌, length, All, Bool-cases, refuse_if-eq-ok, >>=-eq-ok,
}
use open_rv.Text.{Text, text_eq, has_text}
use open_rv.ParallelMap.{
  MapError, cycle, absent, Hierarchy, children_of, all_present, Totals, put, add, add_children,
  sum_up, recall, accumulate, accumulate_all, recursive_totals,
}
use open_rv.Text.Equal.{text_eq_sound, text_eq_refl}

if_true {ℓ} : {B : Type ℓ} (b : Bool) (x y : B) → b ≡ true → (if b then x else y) ≡ x
if_true b x y e = rw e refl

if_false {ℓ} : {B : Type ℓ} (b : Bool) (x y : B) → b ≡ false → (if b then x else y) ≡ y
if_false b x y e = rw e refl

module _ {A : Type 0} (plus : A → A → A) (direct : Text → Option (A × A))
    (children : Text → List Text) where
  -- The area of a module with those of the modules in it, and the sum of these behind a first part.
  mutual
    pub data IsTotal : Text → A × A → Type 0 where
      total :
          {name : Text} {own whole : A × A}
          → direct name ≡ some own
          → IsSum (children name) own whole
          → IsTotal name whole

    pub data IsSum : List Text → A × A → A × A → Type 0 where
      done : {part : A × A} → IsSum [] part part
      behind :
          {child : Text} {rest : List Text} {part value whole : A × A}
          → IsTotal child value
          → IsSum rest (add plus part value) whole
          → IsSum (child ∷ rest) part whole

  abbrev AreTotals : Totals A → Type 0
  AreTotals totals = (name : Text) (whole : A × A) → totals name ≡ some whole → IsTotal name whole

  abbrev IsKnown : Totals A → Text → Type 0
  IsKnown totals name = (whole : A × A) × (totals name ≡ some whole)

  -- What a visit of a module leaves: its total is right and known, and so is all that was known.
  abbrev IsVisited : Totals A → Text → A × A → Totals A → Type 0
  IsVisited totals name value noted =
      IsTotal name value
      × AreTotals noted
      × ((other : Text) → IsKnown totals other → IsKnown noted other)
      × IsKnown noted name

  abbrev IsVisit : (Text → Totals A → Result MapError ((A × A) × Totals A)) → Type 0
  IsVisit visit =
      (name : Text) (totals : Totals A) (value : A × A) (noted : Totals A)
      → AreTotals totals
      → visit name totals ≡ ok (value, noted)
      → IsVisited totals name value noted

  add_children_lem :
      (visit : Text → Totals A → Result MapError ((A × A) × Totals A))
      → IsVisit visit
      → (names : List Text) (part whole : A × A) (totals noted : Totals A) → AreTotals totals
      → add_children plus visit names part totals ≡ ok (whole, noted)
      → IsSum names part whole
        × AreTotals noted
        × ((other : Text) → IsKnown totals other → IsKnown noted other)
  unfolding add_children
  add_children_lem visit right [] part whole totals noted sound h =
      let same_total : part ≡ whole = cc in
      let same : totals ≡ noted = cc in
      (
        subst (IsSum [] part) same_total done,
        subst AreTotals same sound,
        subst (λ t. (other : Text) → IsKnown totals other → IsKnown t other) same (λ other k. k),
      )
  add_children_lem visit right (name ∷ names) part whole totals noted sound h =
      let ((value, mid), visited, rest) = >>=-eq-ok (visit name totals) _ h in
      let (is_total, mid_sound, kept, here) = right name totals value mid sound visited in
      let (sum, end_sound, later) =
        add_children_lem visit right names (add plus part value) whole mid noted mid_sound rest in
      (behind is_total sum, end_sound, (λ other k. later other (kept other k)))

  put_lem :
      (name : Text) (whole : A × A) (totals noted : Totals A)
      → IsTotal name whole
      → AreTotals noted
      → ((other : Text) → IsKnown totals other → IsKnown noted other)
      → IsVisited totals name whole (put name whole noted)
  put_lem name whole totals noted is_total sound kept = (
    is_total,
    (λ other value h. elim (Bool-cases (text_eq other name)) [
      | inl e ↦
          let same : other ≡ name = text_eq_sound other name e in
          let found : some whole ≡ some value =
            sym (if_true (text_eq other name) (some whole) (noted other) e) ∙ h in
          let same_total : whole ≡ value = cc in
          subst (λ n. IsTotal n value) (sym same) (subst (IsTotal name) same_total is_total)
      | inr e ↦
          sound other value (sym (if_false (text_eq other name) (some whole) (noted other) e) ∙ h)
    ]),
    (λ other known. elim (Bool-cases (text_eq other name)) [
      | inl e ↦ (whole, if_true (text_eq other name) (some whole) (noted other) e)
      | inr e ↦
          let (value, found) = kept other known in
          (value, if_false (text_eq other name) (some whole) (noted other) e ∙ found)
    ]),
    (whole, if_true (text_eq name name) (some whole) (noted name) (text_eq_refl name)),
  )

  visit_lem :
      (name : Text) (own : Option (A × A))
      (visit : Text → Totals A → Result MapError ((A × A) × Totals A))
      → IsVisit visit
      → direct name ≡ own
      → (totals : Totals A) (value : A × A) (noted : Totals A) → AreTotals totals
      → sum_up plus visit name own (children name) totals ≡ ok (value, noted)
      → IsVisited totals name value noted
  unfolding sum_up
  visit_lem name none visit right e totals value noted sound h = cc
  visit_lem name (some own) visit right e totals value noted sound h =
      let ((whole, end), added, finished) =
        >>=-eq-ok (add_children plus visit (children name) own totals) _ h in
      let (sum, end_sound, kept) =
        add_children_lem visit right (children name) own whole totals end sound added in
      let same_total : whole ≡ value = cc in
      let same : put name whole end ≡ noted = cc in
      subst (λ t. IsVisited totals name value t) same
        (subst (λ v. IsVisited totals name v (put name whole end)) same_total
          (put_lem name whole totals end (total e sum) end_sound kept))

  recall_lem :
      (name : Text) (known : Option (A × A)) (visited : Result MapError ((A × A) × Totals A))
      (totals : Totals A) (value : A × A) (noted : Totals A)
      → totals name ≡ known
      → AreTotals totals
      → (visited ≡ ok (value, noted) → IsVisited totals name value noted)
      → recall known totals visited ≡ ok (value, noted)
      → IsVisited totals name value noted
  recall_lem name none visited totals value noted e sound right h = right h
  recall_lem name (some whole) visited totals value noted e sound right h =
      let same_total : whole ≡ value = cc in
      let same : totals ≡ noted = cc in
      subst (λ t. IsVisited totals name value t) same
        (subst (λ v. IsVisited totals name v totals) same_total
          (sound name whole e, sound, (λ other k. k), (whole, e)))

  accumulate-IsVisit :
      (fuel : ℕ) (visiting : List Text) → IsVisit (accumulate plus direct children fuel visiting)
  unfolding accumulate
  accumulate-IsVisit zero visiting name totals value noted sound h = cc
  accumulate-IsVisit (suc fuel) visiting name totals value noted sound h =
      recall_lem name (totals name) _ totals value noted refl sound
        (λ fresh.
          let (new, step) = refuse_if-eq-ok (has_text name visiting) (cycle name) _ fresh in
          visit_lem name (direct name) (accumulate plus direct children fuel (name ∷ visiting))
            (accumulate-IsVisit fuel (name ∷ visiting)) refl totals value noted sound step)
        h

  accumulate_all-IsTotal :
      (fuel : ℕ) (modules : List Text) (totals final : Totals A)
      → AreTotals totals
      → accumulate_all plus direct children fuel modules totals ≡ ok final
      → AreTotals final
        × ((other : Text) → IsKnown totals other → IsKnown final other)
        × All (IsKnown final) modules
  unfolding accumulate_all
  accumulate_all-IsTotal fuel [] totals final sound h =
      let same : totals ≡ final = cc in
      subst (λ t. AreTotals t × ((other : Text) → IsKnown totals other → IsKnown t other) × Unit)
        same (sound, (λ other k. k), tt)
  accumulate_all-IsTotal fuel (name ∷ modules) totals final sound h =
      let ((value, noted), visited, rest) =
        >>=-eq-ok (accumulate plus direct children fuel [] name totals) _ h in
      let (is_total, noted_sound, kept, here) =
        accumulate-IsVisit fuel [] name totals value noted sound visited in
      let (end_sound, later, all) =
        accumulate_all-IsTotal fuel modules noted final noted_sound rest in
      (end_sound, (λ other k. later other (kept other k)), (later name here, all))

  with_totals :
      (totals : Totals A)
      → AreTotals totals
      → (modules : List Text) → All (IsKnown totals) modules
      → All (λ name. (whole : A × A) × (totals name ≡ some whole) × IsTotal name whole) modules
  with_totals totals sound [] known = tt
  with_totals totals sound (name ∷ modules) ((whole, e), known) =
      ((whole, e, sound name whole e), with_totals totals sound modules known)

-- If the accumulation returns, then every module has a total, and it is the recursive sum: the
-- statistics of the module itself, and the total of each of its children added in their order,
-- once for each cell.
pub recursive_totals-IsTotal :
    {A : Type 0} (plus : A → A → A) (direct : Text → Option (A × A)) (hierarchy : Hierarchy)
    (modules : List Text) (totals : Totals A)
    → recursive_totals plus direct hierarchy modules ≡ ok totals
    → All
        (λ name.
          (whole : A × A) × (totals name ≡ some whole)
          × IsTotal plus direct (children_of hierarchy) name whole)
        modules
unfolding recursive_totals
recursive_totals-IsTotal plus direct hierarchy modules totals h =
    let (complete, step) = refuse_if-eq-ok (not (all_present modules hierarchy)) absent _ h in
    let (sound, _, known) =
      accumulate_all-IsTotal plus direct (children_of hierarchy) (suc (length modules)) modules
        (λ name. none) totals (λ name whole e. cc) step in
    with_totals plus direct (children_of hierarchy) totals sound modules known
