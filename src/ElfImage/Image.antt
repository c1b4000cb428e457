-- ===== src/ElfImage/Image.antt =====
-- The bytes that `image_words` of tools/elf2mem.py holds, and the words that it makes.
use open_rv.Prelude.{
  ℕ, zero, suc, ◌+◌, ◌-◌, ◌/◌, ◌%◌, ◌≤◌, ◌<◌, ◌≡◌, refl, sym, ap, ◌∙◌, subst, ◌⊎◌, inl, inr, true,
  not, ◌||◌, Option, none, some, List, [], ◌∷◌, ◌++◌, ok, >>=-eq-ok, refuse_if-eq-ok, arith, ltb,
  ◌==◌, if◌then◌else◌, get_or, get_elem?, replicate, All, Bool-cases,
}
use open_rv.Buffer.{Bytes}
use open_rv.ElfImage.{Segment, Memory, bad_word_size, payload_of, store_segments, image_words}
use open_rv.ElfImage.Present.{
  has_word, byte_at, byte_of-find_word, IsOwned, IsPresent, store_bytes-IsPresent,
}
use open_rv.ElfImage.Stored.{
  Has, Has-owned, HasSegment, AllStored, store_step, store_segments-AllStored,
}
use open_rv.ElfImage.Words.{lane_bound, owned, get_or-replicate}

get_or-append_zeros : (xs : Bytes) (n k : ℕ) → get_or (xs ++ replicate n 0) k 0 ≡ get_or xs k 0
get_or-append_zeros [] n k = get_or-replicate n k
get_or-append_zeros (x ∷ xs) n zero = refl
get_or-append_zeros (x ∷ xs) n (suc k) = get_or-append_zeros xs n k

All-get_elem? :
    (P : Segment → Type 0) (segments : List Segment) (n : ℕ) {segment : Segment}
    → All P segments
    → get_elem? segments n ≡ some segment
    → P segment
All-get_elem? P [] n h e = cc
All-get_elem? P (s ∷ segments) zero {segment = segment} (h, hs) e =
    let same : s ≡ segment = cc in subst P same h
All-get_elem? P (s ∷ segments) (suc n) (h, hs) e = All-get_elem? P segments n hs e

abbrev no_memory : Memory
no_memory = record { owner = λ a. none; words = [] }

image_words_step :
    (segments : List Segment) (base size word_bytes : ℕ) (words : List (ℕ × Bytes))
    → image_words segments base size word_bytes ≡ ok words
    → (word_bytes == 8 || word_bytes == 32 ≡ true)
      × ((m : Memory) × (store_segments base (base + size) word_bytes 0 segments no_memory ≡ ok m)
          × (m.words ≡ words))
unfolding image_words
image_words_step segments base size word_bytes words h =
    let (width, h₁) =
      refuse_if-eq-ok (not (word_bytes == 8 || word_bytes == 32)) bad_word_size _ h in
    let (m, stored, done) =
      >>=-eq-ok (store_segments base (base + size) word_bytes 0 segments no_memory) _ h₁ in
    (ground arith, (m, stored, cc))

module _ (base word_bytes : ℕ) (width : word_bytes == 8 || word_bytes == 32 ≡ true) where
  store_segments-IsPresent :
      (limit index : ℕ) (segments : List Segment) (m m' : Memory)
      → IsPresent base word_bytes m
      → store_segments base limit word_bytes index segments m ≡ ok m'
      → IsPresent base word_bytes m'
  unfolding store_segments
  store_segments-IsPresent limit index [] m m' p h =
      let same : m ≡ m' = cc in subst (IsPresent base word_bytes) same p
  store_segments-IsPresent limit index (segment ∷ segments) m m' p h =
      let (lo, hi, size, (m₁, first, rest)) =
        store_step base word_bytes width limit index segment segments m m' h in
      store_segments-IsPresent limit (index + 1) segments m₁ m'
        (store_bytes-IsPresent base word_bytes index segment.address (payload_of segment) m m₁ lo p
          first)
        rest

-- The address lies in the memory of one of the segments.
abbrev pub IsCovered : ℕ → List Segment → Type 0
IsCovered a [] = ⊥
IsCovered a (s ∷ segments) =
    ((s.address ≤ a) × (a < s.address + s.memory_size)) ⊎ IsCovered a segments

abbrev pub IsOutside : ℕ → Segment → Type 0
IsOutside a s = (a < s.address) ⊎ (s.address + s.memory_size ≤ a)

IsCovered-or_IsOutside :
    (a : ℕ) (segments : List Segment) → IsCovered a segments ⊎ All (IsOutside a) segments
IsCovered-or_IsOutside a [] = inr tt
IsCovered-or_IsOutside a (s ∷ segments) = elim (IsCovered-or_IsOutside a segments) [
  | inl there ↦ inl (inr there)
  | inr out ↦ elim (Bool-cases (ltb a s.address)) [
    | inl below ↦ inr (inl (ground arith), out)
    | inr above ↦ elim (Bool-cases (ltb a (s.address + s.memory_size))) [
      | inl here ↦ inl (inl (ground arith, ground arith))
      | inr behind ↦ inr (inr (ground arith), out)
    ]
  ]
]

-- A segment has a byte in the word of the address.
abbrev pub SharesWord : ℕ → ℕ → List Segment → ℕ → Type 0
SharesWord base word_bytes segments a =
    (b : ℕ) × (base ≤ b)
    × ((b - base) / word_bytes ≡ (a - base) / word_bytes)
    × IsCovered b segments

Has-IsOwned :
    (base word_bytes : ℕ) (m : Memory) (a v : ℕ) (o : Option (ℕ × ℕ))
    → m.owner a ≡ o
    → Has o v
    → IsOwned base word_bytes m a
Has-IsOwned base word_bytes m a v none e h = absurd h
Has-IsOwned base word_bytes m a v (some o) e h = (o, e)

covered-IsOwned :
    (base word_bytes : ℕ) (width : word_bytes == 8 || word_bytes == 32 ≡ true) (limit : ℕ)
    (m : Memory) (b : ℕ) (segments : List Segment)
    → All (HasSegment base word_bytes width limit m) segments
    → IsCovered b segments
    → IsOwned base word_bytes m b
unfolding HasSegment
covered-IsOwned base word_bytes width limit m b [] all h = absurd h
covered-IsOwned base word_bytes width limit m b (s ∷ segments) ((_, _, has), all) (inl (lo, hi)) =
    let k = b - s.address in
    let e : s.address + k ≡ b = omega arith in
    Has-IsOwned base word_bytes m b (get_or (payload_of s) k 0) (m.owner b) refl
      (subst (λ x. Has (m.owner x) (get_or (payload_of s) k 0)) e (has k (omega arith)))
covered-IsOwned base word_bytes width limit m b (s ∷ segments) (first, all) (inr there) =
    covered-IsOwned base word_bytes width limit m b segments all there

-- The state behind the words that `image_words` returns.
record IsState (segments : List Segment) (base size word_bytes : ℕ) (words : List (ℕ × Bytes))
    : Type 0 where
  width : word_bytes == 8 || word_bytes == 32 ≡ true
  memory : Memory
  same : memory.words ≡ words
  all : AllStored base word_bytes width (base + size) segments no_memory memory
  presence : IsPresent base word_bytes memory

image_words-IsState :
    (segments : List Segment) (base size word_bytes : ℕ) (words : List (ℕ × Bytes))
    → image_words segments base size word_bytes ≡ ok words
    → IsState segments base size word_bytes words
image_words-IsState segments base size word_bytes words h =
    let (width, (m, stored, same)) = image_words_step segments base size word_bytes words h in
    record {
      width = width;
      memory = m;
      same = same;
      all =
          store_segments-AllStored base word_bytes width (base + size) 0 segments no_memory
            (record { sized = tt; agrees = λ a lo. refl }) stored;
      presence =
          store_segments-IsPresent base word_bytes width (base + size) 0 segments no_memory m
            (record { present = λ a (o, e). cc; justified = λ j e. cc }) stored;
    }

module _ (segments : List Segment) (base size word_bytes : ℕ) (words : List (ℕ × Bytes))
    (s : IsState segments base size word_bytes words) where
  -- Where there is a word, its byte is what the owner stored.
  byte_at-owned :
      (a : ℕ)
      → base ≤ a
      → byte_at base word_bytes words a ≡ (
          if has_word ((a - base) / word_bytes) s.memory.words
          then some (owned (s.memory.owner a))
          else none)
  byte_at-owned a lo =
      let j = (a - base) / word_bytes in
      let faithful = s.all.later.faithful in
      sym (ap (λ w. byte_at base word_bytes w a) s.same)
      ∙ byte_of-find_word word_bytes j ((a - base) % word_bytes) s.memory.words
          (lane_bound (a - base) word_bytes s.width) faithful.sized
      ∙ ap (λ v. if has_word j s.memory.words then some v else none) (faithful.agrees a lo)

  -- A word is there if and only if a segment has a byte in it.
  shares-has_word :
      (a : ℕ)
      → SharesWord base word_bytes segments a
      → has_word ((a - base) / word_bytes) s.memory.words ≡ true
  shares-has_word a (b, lo, e, covered) =
      subst (λ j. has_word j s.memory.words ≡ true) e
        (s.presence.present b (
          covered-IsOwned base word_bytes s.width (base + size) s.memory b segments s.all.stored
            covered))

  has_word-shares :
      (a : ℕ)
      → has_word ((a - base) / word_bytes) s.memory.words ≡ true
      → SharesWord base word_bytes segments a
  has_word-shares a h =
      let (b, lo, e, (o, owner)) = s.presence.justified ((a - base) / word_bytes) h in
      elim (IsCovered-or_IsOutside b segments) [
        | inl covered ↦ (b, lo, e, covered)
        | inr out ↦ let free : s.memory.owner b ≡ none = s.all.apart b out in cc
      ]

-- If `image_words` returns, then each segment lies inside the RAM, and for each byte of its
-- memory there is a word that holds it: the data of the file, and zero behind them.
pub image_words-byte_at :
    (segments : List Segment) (base size word_bytes : ℕ) (words : List (ℕ × Bytes)) (n k : ℕ)
    (segment : Segment)
    → image_words segments base size word_bytes ≡ ok words
    → get_elem? segments n ≡ some segment
    → k < segment.memory_size
    → (base ≤ segment.address)
      × (segment.address + segment.memory_size ≤ base + size)
      × (byte_at base word_bytes words (segment.address + k) ≡ some (get_or segment.data_bytes k 0))
unfolding HasSegment
image_words-byte_at segments base size word_bytes words n k segment h e lt =
    let s = image_words-IsState segments base size word_bytes words h in
    let (lo, hi, has) = All-get_elem? _ segments n s.all.stored e in
    let a = segment.address + k in
    let value = Has-owned _ _ (has k lt) in
    let there =
      s.presence.present a
        (Has-IsOwned base word_bytes s.memory a _ (s.memory.owner a) refl (has k lt)) in
    (
      lo,
      hi,
      byte_at-owned segments base size word_bytes words s a (omega arith)
          ∙ rw there (ap some (value ∙ get_or-append_zeros segment.data_bytes _ k)),
    )

-- If `image_words` returns, then at an address from the base of the RAM on that no segment covers
-- there is a zero byte if a segment has a byte in the same word, and no word otherwise.
pub image_words_outside :
    (segments : List Segment) (base size word_bytes a : ℕ) (words : List (ℕ × Bytes))
    → image_words segments base size word_bytes ≡ ok words
    → base ≤ a
    → All (IsOutside a) segments
    → ((byte_at base word_bytes words a ≡ some 0) × SharesWord base word_bytes segments a)
      ⊎ ((byte_at base word_bytes words a ≡ none) × ¬ SharesWord base word_bytes segments a)
image_words_outside segments base size word_bytes a words h lo out =
    let s = image_words-IsState segments base size word_bytes words h in
    let byte = byte_at-owned segments base size word_bytes words s a lo in
    elim (Bool-cases (has_word ((a - base) / word_bytes) s.memory.words)) [
      | inl there ↦ inl (
        byte ∙ rw there (ap some (ap owned (s.all.apart a out))),
        has_word-shares segments base size word_bytes words s a there,
      )
      | inr absent ↦ inr (
        byte ∙ rw absent refl,
        λ shares. let there = shares-has_word segments base size word_bytes words s a shares in cc,
      )
    ]
