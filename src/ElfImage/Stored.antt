-- ===== src/ElfImage/Stored.antt =====
-- What the loops of `image_words` in tools/elf2mem.py store.
use open_rv.Prelude.{
  ℕ, zero, suc, ◌+◌, ◌-◌, ◌≤◌, ◌<◌, ◌≡◌, refl, ◌∙◌, subst, ◌⊎◌, inl, inr, true, false, ◌||◌, Option,
  none, some, List, [], ◌∷◌, ok, >>=-eq-ok, refuse_if-eq-ok, arith, ltb, ◌==◌, length, get_or,
  replicate, All, Bool-cases, length-append, length-replicate,
}
use open_rv.Buffer.{Bytes}
use open_rv.ElfImage.{
  Segment, Memory, conflict, outside_ram, negative_padding, is_conflict, store_byte, store_bytes,
  payload_of, store_segments,
}
use open_rv.ElfImage.Words.{owned, IsFaithful, store_byte-IsFaithful}

-- The address has an owner that stored this byte.
abbrev pub Has : Option (ℕ × ℕ) → ℕ → Type 0
Has none value = ⊥
Has (some (_, previous)) value = previous ≡ value

pub Has-owned : (o : Option (ℕ × ℕ)) (value : ℕ) → Has o value → owned o ≡ value
Has-owned none value h = absurd h
Has-owned (some (i, previous)) value h = h

-- A later state of the loops: it agrees with its owners, and no byte that was stored has changed.
pub record IsLater (base word_bytes : ℕ) (m m' : Memory) : Type 0 where
  pub faithful : IsFaithful base word_bytes m'
  pub kept : (a v : ℕ) → Has (m.owner a) v → Has (m'.owner a) v

module _ (base word_bytes : ℕ) (width : word_bytes == 8 || word_bytes == 32 ≡ true) where
  -- The write keeps what is stored, since it is no conflict.
  Has-store_byte :
      (segment_index absolute value a v : ℕ) (m : Memory)
      → is_conflict (m.owner absolute) value ≡ false
      → Has (m.owner a) v
      → Has ((store_byte base word_bytes segment_index absolute value m).owner a) v
  unfolding store_byte
  Has-store_byte segment_index absolute value a v m agree h = elim (Bool-cases (a == absolute)) [
    | inr e ↦ rw e h
    | inl e ↦
        let same : a ≡ absolute = ground arith in
        rw e (same_value (m.owner absolute) agree (subst (λ b. Has (m.owner b) v) same h))
  ]
    where
      same_value : (o : Option (ℕ × ℕ)) → is_conflict o value ≡ false → Has o v → value ≡ v
      same_value none e k = absurd k
      same_value (some (i, previous)) e k = ground arith

  Has-store_byte_self :
      (segment_index absolute value a : ℕ) (m : Memory)
      → a ≡ absolute
      → Has ((store_byte base word_bytes segment_index absolute value m).owner a) value
  unfolding store_byte
  Has-store_byte_self segment_index absolute value a m same =
      let e : (a == absolute) ≡ true = ground arith in rw e refl

  owner-store_byte_ne :
      (segment_index absolute value a : ℕ) (m : Memory)
      → (a < absolute) ⊎ (absolute < a)
      → (store_byte base word_bytes segment_index absolute value m).owner a ≡ m.owner a
  unfolding store_byte
  owner-store_byte_ne segment_index absolute value a m apart =
      let e : (a == absolute) ≡ false = ground arith in rw e

  record IsStored (absolute : ℕ) (payload : Bytes) (m m' : Memory) : Type 0 where
    later : IsLater base word_bytes m m'
    stored : (k : ℕ) → k < length payload → Has (m'.owner (absolute + k)) (get_or payload k 0)
    apart : (a : ℕ) → (a < absolute) ⊎ (absolute + length payload ≤ a) → m'.owner a ≡ m.owner a

  store_bytes-IsStored :
      (segment_index absolute : ℕ) (payload : Bytes) (m : Memory) {m' : Memory}
      → base ≤ absolute
      → IsFaithful base word_bytes m
      → store_bytes base word_bytes segment_index absolute payload m ≡ ok m'
      → IsStored absolute payload m m'
  unfolding store_bytes
  store_bytes-IsStored segment_index absolute [] m {m' = m'} lo f h =
      let same : m ≡ m' = cc in
      subst (IsStored absolute [] m) same (record {
        later = record { faithful = f; kept = λ a v k. k };
        stored = λ k lt. absurd (omega arith);
        apart = λ a k. refl;
      })
  store_bytes-IsStored segment_index absolute (value ∷ payload) m {m' = m'} lo f h =
      let (agree, h') =
        refuse_if-eq-ok (is_conflict (m.owner absolute) value) (conflict absolute) _ h in
      let m₁ = store_byte base word_bytes segment_index absolute value m in
      let f₁ = store_byte-IsFaithful base word_bytes width segment_index absolute value m lo f in
      let s = store_bytes-IsStored segment_index (absolute + 1) payload m₁ (omega arith) f₁ h' in
      record {
        later = record {
          faithful = s.later.faithful;
          kept =
              λ a v k. s.later.kept a v (Has-store_byte segment_index absolute value a v m agree k);
        };
        stored = λ k lt. at k lt s;
        apart = λ a out. s.apart a (further a out) ∙ other a out;
      }
    where
      at :
          (k : ℕ)
          → k < length (value ∷ payload)
          → IsStored
              (absolute + 1)
              payload
              (store_byte base word_bytes segment_index absolute value m)
              m'
          → Has (m'.owner (absolute + k)) (get_or (value ∷ payload) k 0)
      at zero lt s =
          s.later.kept (absolute + 0) value
            (Has-store_byte_self segment_index absolute value (absolute + 0) m (omega arith))
      at (suc k) lt s =
          let e : absolute + 1 + k ≡ absolute + suc k = omega arith in
          subst (λ a. Has (m'.owner a) (get_or payload k 0)) e (s.stored k (omega arith))

      further :
          (a : ℕ)
          → (a < absolute) ⊎ (absolute + suc (length payload) ≤ a)
          → (a < absolute + 1) ⊎ (absolute + 1 + length payload ≤ a)
      further a out = omega arith

      other :
          (a : ℕ)
          → (a < absolute) ⊎ (absolute + suc (length payload) ≤ a)
          → (store_byte base word_bytes segment_index absolute value m).owner a ≡ m.owner a
      other a out = owner-store_byte_ne segment_index absolute value a m (omega arith)

  -- The bytes of a segment are owned by a state.
  unfoldable pub HasSegment : ℕ → Memory → Segment → Type 0
  HasSegment limit m segment =
      (base ≤ segment.address)
      × (segment.address + segment.memory_size ≤ limit)
      × ((k : ℕ)
          → k < segment.memory_size
          → Has (m.owner (segment.address + k)) (get_or (payload_of segment) k 0))

  length-payload_of :
      (segment : Segment)
      → length segment.data_bytes ≤ segment.memory_size
      → length (payload_of segment) ≡ segment.memory_size
  length-payload_of segment h = omega (
    arith,
    length-append segment.data_bytes
        (replicate (segment.memory_size - length segment.data_bytes) 0),
    length-replicate {A = ℕ} (segment.memory_size - length segment.data_bytes) 0,
  )

  pub record AllStored (limit : ℕ) (segments : List Segment) (m m' : Memory) : Type 0 where
    pub later : IsLater base word_bytes m m'
    pub stored : All (HasSegment limit m') segments
    pub apart :
        (a : ℕ)
        → All (λ s. (a < s.address) ⊎ (s.address + s.memory_size ≤ a)) segments
        → m'.owner a ≡ m.owner a

  pub store_step :
      (limit index : ℕ) (segment : Segment) (segments : List Segment) (m m' : Memory)
      → store_segments base limit word_bytes index (segment ∷ segments) m ≡ ok m'
      → (base ≤ segment.address)
        × (segment.address + segment.memory_size ≤ limit)
        × (length segment.data_bytes ≤ segment.memory_size)
        × ((m₁ : Memory) × (store_bytes base word_bytes index segment.address (payload_of segment) m
              ≡ ok m₁)
            × (store_segments base limit word_bytes (index + 1) segments m₁ ≡ ok m'))
  unfolding store_segments
  store_step limit index segment segments m m' h =
      let end = segment.address + segment.memory_size in
      let (range, h₁) =
        refuse_if-eq-ok (ltb segment.address base || (ltb limit end || ltb end segment.address))
          (outside_ram segment.address end) _ h in
      let (size, h₂) =
        refuse_if-eq-ok (ltb segment.memory_size (length segment.data_bytes)) negative_padding _
          h₁ in
      let (m₁, first, rest) =
        >>=-eq-ok (store_bytes base word_bytes index segment.address (payload_of segment) m) _ h₂ in
      (ground (arith, range), ground (arith, range), ground (arith, size), (m₁, first, rest))

  pub store_segments-AllStored :
      (limit index : ℕ) (segments : List Segment) (m : Memory) {m' : Memory}
      → IsFaithful base word_bytes m
      → store_segments base limit word_bytes index segments m ≡ ok m'
      → AllStored limit segments m m'
  unfolding store_segments HasSegment
  store_segments-AllStored limit index [] m {m' = m'} f h =
      let same : m ≡ m' = cc in
      subst (AllStored limit [] m) same (record {
        later = record { faithful = f; kept = λ a v k. k };
        stored = tt;
        apart = λ a k. refl;
      })
  store_segments-AllStored limit index (segment ∷ segments) m {m' = m'} f h =
      let (lo, hi, size, (m₁, first, rest)) = store_step limit index segment segments m m' h in
      let s = store_bytes-IsStored index segment.address (payload_of segment) m lo f first in
      let r = store_segments-AllStored limit (index + 1) segments m₁ s.later.faithful rest in
      let len = length-payload_of segment size in
      record {
        later = record {
          faithful = r.later.faithful;
          kept = λ a v k. r.later.kept a v (s.later.kept a v k);
        };
        stored = (
          (
            lo,
            hi,
            λ k lt.
                r.later.kept (segment.address + k) (get_or (payload_of segment) k 0)
                  (s.stored k (omega (arith, len, lt))),
          ),
          r.stored,
        );
        apart = λ a (out, outs). r.apart a outs ∙ s.apart a (omega (arith, len, out));
      }
