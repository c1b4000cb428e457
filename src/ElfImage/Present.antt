-- ===== src/ElfImage/Present.antt =====
-- Which words `image_words` of tools/elf2mem.py makes: those in which a byte was stored.
use open_rv.Prelude.{
  ℕ, zero, suc, ◌+◌, ◌-◌, ◌/◌, ◌%◌, ◌≤◌, ◌<◌, ◌≡◌, refl, sym, ap, ◌∙◌, subst, inl, inr, arith, Bool,
  true, false, ◌||◌, Option, none, some, List, [], ◌∷◌, ok, ◌==◌, if◌then◌else◌, length, get_or,
  get_elem?, Bool-cases, refuse_if-eq-ok,
}
use open_rv.Buffer.{Bytes}
use open_rv.ElfImage.{Memory, conflict, is_conflict, set_lane, store_byte, store_bytes}
use open_rv.ElfImage.Words.{word_at, IsSized}

abbrev pub has_word : ℕ → List (ℕ × Bytes) → Bool
has_word index [] = false
has_word index ((i, word) ∷ words) = i == index || has_word index words

abbrev pub find_word : ℕ → List (ℕ × Bytes) → Option Bytes
find_word index [] = none
find_word index ((i, word) ∷ words) = if i == index then some word else find_word index words

abbrev pub byte_of : Option Bytes → ℕ → Option ℕ
byte_of none lane = none
byte_of (some word) lane = get_elem? word lane

-- The byte that the words hold at an address, and none where there is no word for it.
abbrev pub byte_at : ℕ → ℕ → List (ℕ × Bytes) → ℕ → Option ℕ
byte_at base word_bytes words a =
    byte_of (find_word ((a - base) / word_bytes) words) ((a - base) % word_bytes)

get_elem?-get_or : (xs : Bytes) (i : ℕ) → i < length xs → get_elem? xs i ≡ some (get_or xs i 0)
get_elem?-get_or [] i lt = absurd (omega arith)
get_elem?-get_or (x ∷ xs) zero lt = refl
get_elem?-get_or (x ∷ xs) (suc i) lt = get_elem?-get_or xs i (omega arith)

pub byte_of-find_word :
    (word_bytes j k : ℕ) (words : List (ℕ × Bytes))
    → k < word_bytes
    → IsSized word_bytes words
    → byte_of (find_word j words) k
      ≡ (if has_word j words then some (get_or (word_at j words) k 0) else none)
byte_of-find_word word_bytes j k [] lt h = refl
byte_of-find_word word_bytes j k ((i, word) ∷ words) lt (size, h) = elim (Bool-cases (i == j)) [
  | inl e ↦ rw e (get_elem?-get_or word k (omega arith))
  | inr e ↦ rw e (byte_of-find_word word_bytes j k words lt h)
]

has_word-set_lane :
    (word_bytes index lane value j : ℕ) (words : List (ℕ × Bytes))
    → has_word j (set_lane word_bytes index lane value words) ≡ (index == j || has_word j words)
unfolding set_lane
has_word-set_lane word_bytes index lane value j [] = refl
has_word-set_lane word_bytes index lane value j ((i, word) ∷ words) =
    ground (arith, has_word-set_lane word_bytes index lane value j words)

module _ (base word_bytes : ℕ) where
  abbrev pub IsOwned : Memory → ℕ → Type 0
  IsOwned m a = (o : ℕ × ℕ) × (m.owner a ≡ some o)

  -- There is a word for each byte that has an owner, and no other.
  pub record IsPresent (m : Memory) : Type 0 where
    pub present : (a : ℕ) → IsOwned m a → has_word ((a - base) / word_bytes) m.words ≡ true
    pub justified :
        (j : ℕ)
        → has_word j m.words ≡ true
        → (a : ℕ) × (base ≤ a) × ((a - base) / word_bytes ≡ j) × IsOwned m a

  store_byte-IsPresent :
      (index absolute value : ℕ) (m : Memory)
      → base ≤ absolute
      → IsPresent m
      → IsPresent (store_byte base word_bytes index absolute value m)
  unfolding store_byte
  store_byte-IsPresent index absolute value m lo p =
      let at = (absolute - base) / word_bytes in
      let lane = (absolute - base) % word_bytes in
      record {
        present = λ a (o, e). elim (Bool-cases (a == absolute)) [
          | inl here ↦
              let same : absolute ≡ a = ground arith in
              let word : at ≡ (a - base) / word_bytes = ap (λ x. (x - base) / word_bytes) same in
              has_word-set_lane word_bytes at lane value ((a - base) / word_bytes) m.words
              ∙ ground arith
          | inr other ↦
              let before =
                p.present a
                  (o, sym (ap (λ b. if b then some (index, value) else m.owner a) other) ∙ e) in
              has_word-set_lane word_bytes at lane value ((a - base) / word_bytes) m.words
              ∙ ground (arith, before)
        ];
        justified = λ j h.
            let split = sym (has_word-set_lane word_bytes at lane value j m.words) ∙ h in
            elim (Bool-cases (at == j)) [
              | inl here ↦
                  let hit : (absolute == absolute) ≡ true = ground arith in
                  (absolute, lo, ground arith, ((index, value), rw hit refl))
              | inr other ↦
                  let (a, above, e, (o, owner)) =
                    p.justified j (sym (ap (λ b. b || has_word j m.words) other) ∙ split) in
                  (
                    a,
                    above,
                    e,
                    elim (Bool-cases (a == absolute)) [
                      | inl again ↦ ((index, value), rw again refl)
                      | inr apart ↦ (o, rw apart owner)
                    ],
                  )
            ];
      }

  pub store_bytes-IsPresent :
      (index absolute : ℕ) (payload : Bytes) (m m' : Memory)
      → base ≤ absolute
      → IsPresent m
      → store_bytes base word_bytes index absolute payload m ≡ ok m'
      → IsPresent m'
  unfolding store_bytes
  store_bytes-IsPresent index absolute [] m m' lo p h =
      let same : m ≡ m' = cc in subst IsPresent same p
  store_bytes-IsPresent index absolute (value ∷ payload) m m' lo p h =
      let (_, rest) =
        refuse_if-eq-ok (is_conflict (m.owner absolute) value) (conflict absolute) _ h in
      store_bytes-IsPresent index (absolute + 1) payload
        (store_byte base word_bytes index absolute value m) m' (omega arith)
        (store_byte-IsPresent index absolute value m lo p) rest
