-- ===== src/Text/Equal.antt =====
-- Equality of texts, and membership in a list of them.
use open_rv.Prelude.{
  ◌≡◌, refl, sym, ap, ◌∙◌, inl, inr, arith, true, ◌&&◌, [], ◌∷◌, ◌==◌, Bool-cases,
}
use open_rv.Text.{Text, text_eq}

pub text_eq_sound : (a b : Text) → text_eq a b ≡ true → a ≡ b
text_eq_sound [] [] h = refl
text_eq_sound [] (y ∷ b) h = cc
text_eq_sound (x ∷ a) [] h = cc
text_eq_sound (x ∷ a) (y ∷ b) h = elim (Bool-cases (x == y)) [
  | inl e ↦
      let same : x ≡ y = ground arith in
      let rest : a ≡ b = text_eq_sound a b (sym (ap (λ t. t && text_eq a b) e) ∙ h) in cc
  | inr e ↦ cc
]

pub text_eq_refl : (a : Text) → text_eq a a ≡ true
text_eq_refl [] = refl
text_eq_refl (x ∷ a) = let hit : (x == x) ≡ true = ground arith in rw hit (text_eq_refl a)
