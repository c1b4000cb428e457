-- ===== src/ElfImage/Words.antt =====
-- The memory that the words of `image_words` hold, and one write to it.
use open_rv.Prelude.{
  ℕ, zero, suc, ◌-◌, ◌/◌, ◌%◌, ◌≤◌, ◌<◌, ◌≡◌, refl, sym, ap, ◌∙◌, subst, ◌⊎◌, inl, inr, true, ◌&&◌,
  ◌||◌, Option, none, some, List, [], ◌∷◌, arith, ◌==◌, if◌then◌else◌, length, get_or, set,
  replicate, All, Bool-cases, length-set, length-replicate,
}
use open_rv.Buffer.{Bytes}
use open_rv.ElfImage.{Memory, set_lane, store_byte}

abbrev pub word_at : ℕ → List (ℕ × Bytes) → Bytes
word_at index [] = []
word_at index ((i, word) ∷ words) = if i == index then word else word_at index words

-- The byte that the words hold at an address, or 0 where they hold none.
abbrev pub memory_byte : ℕ → ℕ → List (ℕ × Bytes) → ℕ → ℕ
memory_byte base word_bytes words a =
    get_or (word_at ((a - base) / word_bytes) words) ((a - base) % word_bytes) 0

get_or-set :
    (xs : Bytes) (i j v : ℕ)
    → i < length xs
    → get_or (set xs i v) j 0 ≡ (if i == j then v else get_or xs j 0)
get_or-set [] i j v h = absurd (omega arith)
get_or-set (x ∷ xs) zero zero v h = refl
get_or-set (x ∷ xs) zero (suc j) v h = ground arith
get_or-set (x ∷ xs) (suc i) zero v h = ground arith
get_or-set (x ∷ xs) (suc i) (suc j) v h = ground (arith, get_or-set xs i j v (omega arith))

pub get_or-replicate : (n j : ℕ) → get_or {A = ℕ} (replicate n 0) j 0 ≡ 0
get_or-replicate zero j = refl
get_or-replicate (suc n) zero = refl
get_or-replicate (suc n) (suc j) = get_or-replicate n j

abbrev pub IsSized : ℕ → List (ℕ × Bytes) → Type 0
IsSized word_bytes = All (λ (i, word). length word ≡ word_bytes)

module _ (word_bytes index lane value : ℕ) (inside : lane < word_bytes) where
  set_lane-IsSized :
      (words : List (ℕ × Bytes))
      → IsSized word_bytes words
      → IsSized word_bytes (set_lane word_bytes index lane value words)
  unfolding set_lane
  set_lane-IsSized [] h =
      (length-set (replicate word_bytes 0) lane value ∙ length-replicate {A = ℕ} word_bytes 0, tt)
  set_lane-IsSized ((i, word) ∷ words) (h, hs) = elim (Bool-cases (i == index)) [
    | inl e ↦ rw e (length-set word lane value ∙ h, hs)
    | inr e ↦ rw e (h, set_lane-IsSized words hs)
  ]

  word_at-set_lane :
      (words : List (ℕ × Bytes)) (j k : ℕ)
      → IsSized word_bytes words
      → get_or (word_at j (set_lane word_bytes index lane value words)) k 0
        ≡ (if index == j && lane == k then value else get_or (word_at j words) k 0)
  unfolding set_lane
  word_at-set_lane [] j k h =
      let fresh =
        get_or-set (replicate word_bytes 0) lane k value
          (omega (arith, length-replicate {A = ℕ} word_bytes 0)) in
      ground (arith, fresh, get_or-replicate word_bytes k)
  word_at-set_lane ((i, word) ∷ words) j k (h, hs) =
      let here = get_or-set word lane k value (omega arith) in
      ground (arith, here, word_at-set_lane words j k hs)

same_place_8 : (x y : ℕ) → (x / 8 == y / 8 && x % 8 == y % 8) ≡ (y == x)
same_place_8 x y = ground arith

same_place_32 : (x y : ℕ) → (x / 32 == y / 32 && x % 32 == y % 32) ≡ (y == x)
same_place_32 x y = ground arith

widths : (w : ℕ) → w == 8 || w == 32 ≡ true → (w ≡ 8) ⊎ (w ≡ 32)
widths w h = ground arith

-- Two addresses with the same word and lane are the same.
same_place : (x y w : ℕ) → w == 8 || w == 32 ≡ true → (x / w == y / w && x % w == y % w) ≡ (y == x)
same_place x y w h = elim (widths w h) [
  | inl e ↦ subst (λ n. (x / n == y / n && x % n == y % n) ≡ (y == x)) (sym e) (same_place_8 x y)
  | inr e ↦ subst (λ n. (x / n == y / n && x % n == y % n) ≡ (y == x)) (sym e) (same_place_32 x y)
]

pub lane_bound : (x w : ℕ) → w == 8 || w == 32 ≡ true → x % w < w
lane_bound x w h = elim (widths w h) [
  | inl e ↦ subst (λ n. x % n < n) (sym e) (omega arith)
  | inr e ↦ subst (λ n. x % n < n) (sym e) (omega arith)
]

-- The value that the owner of an address stored.
abbrev pub owned : Option (ℕ × ℕ) → ℕ
owned none = 0
owned (some (_, value)) = value

-- The words hold what the owners stored.
pub record IsFaithful (base word_bytes : ℕ) (m : Memory) : Type 0 where
  pub sized : IsSized word_bytes m.words
  pub agrees : (a : ℕ) → base ≤ a → memory_byte base word_bytes m.words a ≡ owned (m.owner a)

module _ (base word_bytes : ℕ) (width : word_bytes == 8 || word_bytes == 32 ≡ true) where
  memory_byte-set_lane :
      (words : List (ℕ × Bytes)) (absolute value a : ℕ)
      → IsSized word_bytes words
      → base ≤ absolute
      → base ≤ a
      → memory_byte base word_bytes
          (set_lane word_bytes
            ((absolute - base) / word_bytes)
            ((absolute - base) % word_bytes)
            value
            words)
          a
        ≡ (if a == absolute then value else memory_byte base word_bytes words a)
  memory_byte-set_lane words absolute value a h lo lo' =
      let i = (absolute - base) / word_bytes in
      let l = (absolute - base) % word_bytes in
      let offset : (a - base == absolute - base) ≡ (a == absolute) = ground arith in
      word_at-set_lane word_bytes i l value (lane_bound (absolute - base) word_bytes width) words
        ((a - base) / word_bytes) ((a - base) % word_bytes) h
      ∙ ap (λ c. if c then value else memory_byte base word_bytes words a)
          (same_place (absolute - base) (a - base) word_bytes width ∙ offset)

  pub store_byte-IsFaithful :
      (segment_index absolute value : ℕ) (m : Memory)
      → base ≤ absolute
      → IsFaithful base word_bytes m
      → IsFaithful base word_bytes (store_byte base word_bytes segment_index absolute value m)
  unfolding store_byte
  store_byte-IsFaithful segment_index absolute value m lo f = record {
    sized =
        set_lane-IsSized word_bytes ((absolute - base) / word_bytes)
          ((absolute - base) % word_bytes) value (lane_bound (absolute - base) word_bytes width)
          m.words f.sized;
    agrees = λ a h.
        memory_byte-set_lane m.words absolute value a f.sized lo h ∙ ground (arith, f.agrees a h);
  }
