-- ===== src/Multichase/Layout.antt =====
-- What the assembled lines of `emit` hold: one pointer in each element, to the next one of the ring.
use open_rv.Prelude.{
  ℕ, zero, suc, ◌+◌, ◌-◌, ◌*◌, ◌/◌, ◌%◌, ◌^◌, ◌≤◌, ◌<◌, ◌≡◌, refl, ap, ◌∙◌, inl, inr, true, false,
  not, ◌||◌, Option, none, some, List, [], ◌∷◌, arith, ok, ltb, ◌==◌, if◌then◌else◌, length, get_or,
  Bool-cases,
}
use native.Mathlib.Nat.{div-add-mod'}
use open_rv.Multichase.{
  Line, zero_bytes, start_label, quad, zero_line, node_lines, bounded, draw_offsets, emit,
}
use open_rv.Multichase.Permutation.{bounded-le}
use open_rv.Multichase.Ring.{IsOneRing, make_successors-follow}

-- The bytes that the lines take.
pub size : List Line → ℕ
size [] = 0
size (zero_bytes n ∷ lines) = n + size lines
size (start_label ∷ lines) = size lines
size (quad target ∷ lines) = 8 + size lines

-- The word that the lines, placed at `base`, store at an address.
unfoldable pub word_at : ℕ → List Line → ℕ → Option ℕ
word_at base [] address = none
word_at base (zero_bytes n ∷ lines) address = word_at (base + n) lines address
word_at base (start_label ∷ lines) address = word_at base lines address
word_at base (quad target ∷ lines) address =
    if address == base then some target else word_at (base + 8) lines address

word_at-zero_line :
    (base n : ℕ) (lines : List Line) (address : ℕ)
    → word_at base (zero_line n lines) address ≡ word_at (base + n) lines address
unfolding word_at
word_at-zero_line base n lines address = elim (Bool-cases (n == 0)) [
  | inl e ↦ rw e (ap (λ b. word_at b lines address) (ground arith))
  | inr e ↦ rw e
]

size-zero_line : (n : ℕ) (lines : List Line) → size (zero_line n lines) ≡ n + size lines
unfolding size
size-zero_line n lines = ground arith

module _ (stride : ℕ) (offsets : List ℕ) (fit : (i : ℕ) → get_or offsets i 0 + 8 ≤ stride) where
  -- An element: its pointer, and the later lines behind it.
  word_at-element :
      (base node successor : ℕ) (rest : List ℕ) (address : ℕ)
      → word_at base (node_lines stride offsets node (successor ∷ rest)) address ≡ (
          if address == base + get_or offsets node 0
          then some (successor * stride + get_or offsets successor 0)
          else word_at (base + stride) (node_lines stride offsets (node + 1) rest) address)
  unfolding node_lines word_at
  word_at-element base node successor rest address =
      let o = get_or offsets node 0 in
      let inside = fit node in
      let later = node_lines stride offsets (node + 1) rest in
      let behind = word_at-zero_line (base + o + 8) (stride - o - 8) later address in
      let e : base + o + 8 + (stride - o - 8) ≡ base + stride = omega arith in
      let after = behind ∙ ap (λ b. word_at b later address) e in
      word_at-zero_line base o _ address ∙ elim (Bool-cases (node == 0)) [
        | inl first ↦ rw (first, after)
        | inr other ↦ rw (other, after)
      ]

  size-node_lines :
      (node : ℕ) (rest : List ℕ) → size (node_lines stride offsets node rest) ≡ length rest * stride
  unfolding node_lines size
  size-node_lines node [] = omega arith
  size-node_lines node (successor ∷ rest) =
      let o = get_or offsets node 0 in
      let inside = fit node in
      let later = node_lines stride offsets (node + 1) rest in
      let tail = size-zero_line (stride - o - 8) later in
      let ih = size-node_lines (node + 1) rest in
      let grow : suc (length rest) * stride ≡ length rest * stride + stride = grind arith in
      size-zero_line o _ ∙ elim (Bool-cases (node == 0)) [
        | inl first ↦ rw first (omega (arith, tail, ih, grow))
        | inr other ↦ rw other (omega (arith, tail, ih, grow))
      ]

  word_at-node_lines :
      (base node i : ℕ) (rest : List ℕ)
      → i < length rest
      → word_at base
          (node_lines stride offsets node rest)
          (base + i * stride + get_or offsets (node + i) 0)
        ≡ some (get_or rest i 0 * stride + get_or offsets (get_or rest i 0) 0)
  word_at-node_lines base node i [] lt = absurd (omega arith)
  word_at-node_lines base node zero (successor ∷ rest) lt =
      let e : base + 0 * stride + get_or offsets (node + 0) 0 ≡ base + get_or offsets node 0 =
        let here : node + 0 ≡ node = omega arith in
        ap (λ k. base + 0 * stride + get_or offsets k 0) here ∙ omega arith in
      word_at-element base node successor rest _ ∙ ground (arith, e)
  word_at-node_lines base node (suc i) (successor ∷ rest) lt =
      let address = base + suc i * stride + get_or offsets (node + suc i) 0 in
      let inside = fit node in
      let grow : suc i * stride ≡ i * stride + stride = grind arith in
      let other : address == base + get_or offsets node 0 ≡ false = ground arith in
      let same : address ≡ base + stride + i * stride + get_or offsets (node + 1 + i) 0 =
        let there : node + suc i ≡ node + 1 + i = omega arith in
        ap (λ k. base + suc i * stride + get_or offsets k 0) there ∙ omega (arith, grow) in
      word_at-element base node successor rest address
      ∙ rw other (
          ap (word_at (base + stride) (node_lines stride offsets (node + 1) rest)) same
          ∙ word_at-node_lines (base + stride) (node + 1) i rest (omega arith))

-- The offsets leave room for a pointer in the element.
draw_offsets_fit :
    (stride left s i : ℕ)
    → 8 ≤ stride
    → get_or (draw_offsets (stride / 8 - 1) left s) i 0 + 8 ≤ stride
unfolding draw_offsets
draw_offsets_fit stride zero s i le = omega arith
draw_offsets_fit stride (suc left) s zero le = omega (arith, bounded-le (stride / 8 - 1) s)
draw_offsets_fit stride (suc left) s (suc i) le =
    draw_offsets_fit stride left (bounded (stride / 8 - 1) s).1 i le

-- A multiple of the stride that is not zero has a positive quotient.
quotient_pos : (m stride : ℕ) → 0 < m → m % stride ≡ 0 → 0 < m / stride
quotient_pos m stride pos whole =
    let split = div-add-mod' m stride in
    elim (Bool-cases (m / stride == 0)) [
      | inl e ↦
          let z : m / stride ≡ 0 = ground arith in
          let none_left : m / stride * stride ≡ 0 = ap (λ q. q * stride) z ∙ omega arith in
          absurd (omega arith)
      | inr e ↦ ground arith
    ]

module _ (byte_count stride : ℕ) (offsets : List ℕ)
    (fit : (i : ℕ) → get_or offsets i 0 + 8 ≤ stride) where
  layout_size :
      (successors : List ℕ)
      → length successors ≡ byte_count / stride
      → byte_count % stride ≡ 0
      → size (node_lines stride offsets 0 successors) ≡ byte_count
  layout_size successors len whole =
      let split = div-add-mod' byte_count stride in
      size-node_lines stride offsets fit 0 successors
      ∙ ap (λ n. n * stride) len
      ∙ omega (arith, split, whole)

layout_word :
    (stride : ℕ) (offsets : List ℕ)
    → ((i : ℕ) → get_or offsets i 0 + 8 ≤ stride)
    → (a : ℕ) (successors : List ℕ) → a < length successors
    → word_at 0 (node_lines stride offsets 0 successors) (a * stride + get_or offsets a 0)
      ≡ some (get_or successors a 0 * stride + get_or offsets (get_or successors a 0) 0)
layout_word stride offsets fit a successors lt =
    let here : 0 + a ≡ a = omega arith in
    let e : a * stride + get_or offsets a 0 ≡ 0 + a * stride + get_or offsets (0 + a) 0 =
      omega (arith, ap (λ k. get_or offsets k 0) here) in
    ap (word_at 0 (node_lines stride offsets 0 successors)) e
    ∙ word_at-node_lines stride offsets fit 0 0 a successors lt

-- Each element holds a pointer inside its stride, to the pointer of its successor.
abbrev pub IsLaidOut : ℕ → ℕ → List Line → List ℕ → List ℕ → Type 0
IsLaidOut stride nodes lines successors offsets =
    (a : ℕ)
    → a < nodes
    → (get_or offsets a 0 + 8 ≤ stride)
      × (word_at 0 lines (a * stride + get_or offsets a 0)
          ≡ some (get_or successors a 0 * stride + get_or offsets (get_or successors a 0) 0))

-- With positive sizes, a stride that is a multiple of 8 and at least 8, and a byte count and a
-- locality that are multiples of it, `emit` succeeds for any seed, and its lines take the byte
-- count and form one ring of all elements: there are successors such that each element holds a
-- pointer inside its stride to the pointer of its successor, and following them from element 0
-- meets each element in fewer steps than there are elements, and is back at element 0 after as
-- many steps as there are.
pub emit_chases :
    (byte_count stride locality seed : ℕ)
    → 8 ≤ stride
    → stride % 8 ≡ 0
    → 0 < byte_count
    → byte_count % stride ≡ 0
    → 0 < locality
    → locality % stride ≡ 0
    → (lines : List Line) × (successors : List ℕ) × (offsets : List ℕ) × (emit byte_count stride
          locality seed
        ≡ ok lines)
      × (size lines ≡ byte_count)
      × IsLaidOut stride (byte_count / stride) lines successors offsets
      × IsOneRing (byte_count / stride) successors
unfolding emit
emit_chases byte_count stride locality seed wide even some_bytes whole_bytes some_locality
      whole_locality =
    let nodes = byte_count / stride in
    let (order, state, successors, ordered, linked, ring) =
      make_successors-follow nodes (locality / stride) (seed % 2 ^ 64)
        (quotient_pos locality stride some_locality whole_locality)
        (quotient_pos byte_count stride some_bytes whole_bytes) in
    let offsets = draw_offsets (stride / 8 - 1) nodes state in
    let fit = λ (i : ℕ). draw_offsets_fit stride nodes state i wide in
    let positive : byte_count == 0 || (stride == 0 || locality == 0) ≡ false = ground arith in
    let aligned : ltb stride 8 || not (stride % 8 == 0) ≡ false = ground arith in
    let bytes : byte_count % stride == 0 ≡ true = ground arith in
    let local : locality % stride == 0 ≡ true = ground arith in
    (
      node_lines stride offsets 0 successors,
      successors,
      offsets,
      rw (positive, aligned, bytes, local, ordered, linked) refl,
      layout_size byte_count stride offsets fit successors (ring.0) whole_bytes,
      λ a lt. (fit a, layout_word stride offsets fit a successors (omega (arith, ring.0, lt))),
      ring,
    )
