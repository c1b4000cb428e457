-- ===== src/ElfImage/Succeeds.antt =====
-- Segments that agree with one memory image are never refused.
use open_rv.Prelude.{
  ℕ, suc, ◌+◌, ◌≤◌, ◌<◌, ◌≡◌, refl, ap, ◌∙◌, inl, inr, true, false, ◌||◌, Option, none, some, List,
  [], ◌∷◌, ok, arith, ltb, ◌==◌, length, get_or, All, Bool-cases,
}
use open_rv.Buffer.{Bytes}
use open_rv.ElfImage.{
  Segment, Memory, is_conflict, store_byte, store_bytes, payload_of, store_segments, image_words,
}

-- Every byte that is stored is the image's.
abbrev IsOf : (ℕ → ℕ) → ℕ → Option (ℕ × ℕ) → Type 0
IsOf image a none = Unit
IsOf image a (some (_, value)) = value ≡ image a

-- The segment lies inside the RAM, its data fit its memory, and its payload is the image's there.
pub record IsPartOf (image : ℕ → ℕ) (base limit : ℕ) (segment : Segment) : Type 0 where
  pub above : base ≤ segment.address
  pub below : segment.address + segment.memory_size ≤ limit
  pub fits : length segment.data_bytes ≤ segment.memory_size
  pub bytes :
      (k : ℕ)
      → k < length (payload_of segment)
      → get_or (payload_of segment) k 0 ≡ image (segment.address + k)

is_conflict-IsOf :
    (image : ℕ → ℕ) (a value : ℕ) (o : Option (ℕ × ℕ))
    → IsOf image a o
    → value ≡ image a
    → is_conflict o value ≡ false
is_conflict-IsOf image a value none h e = refl
is_conflict-IsOf image a value (some (i, previous)) h e = ground arith

module _ (image : ℕ → ℕ) (base word_bytes : ℕ) where
  store_byte-IsOf :
      (index absolute value : ℕ) (m : Memory)
      → value ≡ image absolute
      → ((a : ℕ) → IsOf image a (m.owner a))
      → (a : ℕ) → IsOf image a ((store_byte base word_bytes index absolute value m).owner a)
  unfolding store_byte
  store_byte-IsOf index absolute value m e h a = elim (Bool-cases (a == absolute)) [
    | inr other ↦ rw other (h a)
    | inl here ↦ let same : absolute ≡ a = ground arith in rw here (e ∙ ap image same)
  ]

  store_bytes-succeeds :
      (index absolute : ℕ) (payload : Bytes) (m : Memory)
      → ((k : ℕ) → k < length payload → get_or payload k 0 ≡ image (absolute + k))
      → ((a : ℕ) → IsOf image a (m.owner a))
      → (m' : Memory) × (store_bytes base word_bytes index absolute payload m ≡ ok m')
        × ((a : ℕ) → IsOf image a (m'.owner a))
  unfolding store_bytes
  store_bytes-succeeds index absolute [] m bytes h = (m, refl, h)
  store_bytes-succeeds index absolute (value ∷ payload) m bytes h =
      let e : value ≡ image absolute = bytes 0 (omega arith) ∙ ap image (omega arith) in
      let free = is_conflict-IsOf image absolute value (m.owner absolute) (h absolute) e in
      let (m', stored, h') =
        store_bytes-succeeds index (absolute + 1) payload
          (store_byte base word_bytes index absolute value m)
          (λ k lt. bytes (suc k) (omega arith) ∙ ap image (omega arith))
          (store_byte-IsOf index absolute value m e h) in
      (m', rw (free, stored) refl, h')

  store_segments-succeeds :
      (limit index : ℕ) (segments : List Segment) (m : Memory)
      → All (IsPartOf image base limit) segments
      → ((a : ℕ) → IsOf image a (m.owner a))
      → (m' : Memory) × (store_segments base limit word_bytes index segments m ≡ ok m')
  unfolding store_segments
  store_segments-succeeds limit index [] m parts h = (m, refl)
  store_segments-succeeds limit index (segment ∷ segments) m (part, parts) h =
      let (m₁, first, h₁) =
        store_bytes-succeeds index segment.address (payload_of segment) m part.bytes h in
      let (m', rest) = store_segments-succeeds limit (index + 1) segments m₁ parts h₁ in
      let above = part.above in
      let below = part.below in
      let range : ltb segment.address base
            || (ltb limit (segment.address + segment.memory_size)
                || ltb (segment.address + segment.memory_size) segment.address)
          ≡ false =
        ground arith in
      let size : ltb segment.memory_size (length segment.data_bytes) ≡ false =
        let fits = part.fits in ground arith in
      (m', rw (range, size, first, rest) refl)

-- With a word size of 8 or 32 bytes, segments that lie inside the RAM, have no more data than
-- memory and agree with one memory image wherever they overlap are never refused: `image_words`
-- returns.
pub image_words_succeeds :
    (image : ℕ → ℕ) (segments : List Segment) (base size word_bytes : ℕ)
    → word_bytes == 8 || word_bytes == 32 ≡ true
    → All (IsPartOf image base (base + size)) segments
    → (words : List (ℕ × Bytes)) × (image_words segments base size word_bytes ≡ ok words)
unfolding image_words
image_words_succeeds image segments base size word_bytes width parts =
    let (m, stored) =
      store_segments-succeeds image base word_bytes (base + size) 0 segments
        (record { owner = λ a. none; words = [] }) parts (λ a. tt) in
    (m.words, rw (width, stored) refl)
