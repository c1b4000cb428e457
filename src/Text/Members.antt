-- ===== src/Text/Members.antt =====
-- Membership of a text in a list of texts.
use open_rv.Prelude.{
  ◌≡◌, refl, sym, ap, subst, ◌∙◌, inl, inr, Bool, true, false, ◌&&◌, ◌||◌, List, [], ◌∷◌, All,
  All-map, Bool-cases,
}
use open_rv.Text.{Text, text_eq, has_text, has_all}
use open_rv.Text.Equal.{text_eq_sound, text_eq_refl}

pub All-has_text :
    (P : Text → Type 0) (name : Text) (names : List Text)
    → All P names
    → has_text name names ≡ true
    → P name
All-has_text P name [] all h = cc
All-has_text P name (other ∷ names) (first, all) h = elim (Bool-cases (text_eq name other)) [
  | inl e ↦ subst P (sym (text_eq_sound name other e)) first
  | inr e ↦ All-has_text P name names all (sym (ap (λ b. b || has_text name names) e) ∙ h)
]

pub has_all-All :
    (names header : List Text)
    → has_all names header ≡ true
    → All (λ name. has_text name header ≡ true) names
has_all-All [] header h = tt
has_all-All (name ∷ names) header h = elim (Bool-cases (has_text name header)) [
  | inl e ↦ (e, has_all-All names header (sym (ap (λ b. b && has_all names header) e) ∙ h))
  | inr e ↦ cc
]

or_true : (b c : Bool) → c ≡ true → (b || c) ≡ true
or_true true c h = refl
or_true false c h = h

pub has_text_self : (names : List Text) → All (λ name. has_text name names ≡ true) names
has_text_self [] = tt
has_text_self (name ∷ names) = (
  ap (λ b. b || has_text name names) (text_eq_refl name),
  All-map _ (λ other. has_text other (name ∷ names) ≡ true) names
      (λ other h. or_true (text_eq other name) (has_text other names) h) (has_text_self names),
)
