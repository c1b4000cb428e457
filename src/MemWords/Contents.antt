-- ===== src/MemWords/Contents.antt =====
-- What the lines of tools/bin2mem.py hold.
use Prim.Native.Nat.{bit_and}
use native.Mathlib.Nat.{
  pow-suc, div-div-eq-div-mul, div-add-mod', mod-lt, zero-div, mul-le-mul_right, div-lt_iff_lt-mul,
}
use open_rv.Prelude.{
  ℕ, zero, suc, ◌+◌, ◌-◌, ◌*◌, ◌/◌, ◌%◌, ◌^◌, ◌<◌, ◌≤◌, ◌≡◌, refl, sym, ap, subst, ◌∙◌, arith,
  false, not, ◌||◌, some, List, [], ◌∷◌, ok, ltb, ◌==◌, length, get_or, get_elem?, All,
}
use open_rv.Buffer.{Bytes, Buffer, zeros, read, slice, splice, from_le}
use open_rv.Buffer.Laws.{get_or-read, slice-read}
use open_rv.Text.{Text, uint, int_of, format_hex}
use open_rv.Text.Hex.{int_of-format_hex}
use open_rv.MemWords.{word_lines, convert}

abbrev pub IsByteList : Bytes → Type 0
IsByteList = All (λ x. x < 256)

-- Byte `j` of a little-endian number.
from_le-byte : (bs : Bytes) (j : ℕ) → IsByteList bs → from_le bs / 256 ^ j % 256 ≡ get_or bs j 0
unfolding from_le
from_le-byte [] j h = ap (λ q. q % 256) (zero-div (256 ^ j))
from_le-byte (x ∷ bs) zero (first, h) = omega arith
from_le-byte (x ∷ bs) (suc j) (first, h) =
    let power : 256 ^ suc j ≡ 256 * 256 ^ j = pow-suc 256 j ∙ omega arith in
    let rest = from_le-byte bs j h in
    let quotient : (x + 256 * from_le bs) / 256 ≡ from_le bs = omega arith in
    ap (λ p. (x + 256 * from_le bs) / p % 256) power
    ∙ ap (λ q. q % 256) (sym (div-div-eq-div-mul (x + 256 * from_le bs) 256 (256 ^ j)))
    ∙ ap (λ q. q / 256 ^ j % 256) quotient
    ∙ rest

word_lines-get_elem? :
    (image : Buffer) (w left offset k : ℕ)
    → k < left
    → get_elem? (word_lines image w left offset) k
      ≡ some (format_hex (w * 2) (from_le (slice image (offset + k * w) w)))
unfolding word_lines
word_lines-get_elem? image w zero offset k lt = absurd (omega arith)
word_lines-get_elem? image w (suc left) offset zero lt =
    ap (λ o. some (format_hex (w * 2) (from_le (slice image o w)))) (omega arith)
word_lines-get_elem? image w (suc left) offset (suc k) lt =
    let same : offset + w + k * w ≡ offset + suc k * w = grind arith in
    word_lines-get_elem? image w left (offset + w) k (omega arith)
    ∙ ap (λ o. some (format_hex (w * 2) (from_le (slice image o w)))) same

length-word_lines :
    (image : Buffer) (w left offset : ℕ) → length (word_lines image w left offset) ≡ left
unfolding word_lines
length-word_lines image w zero offset = refl
length-word_lines image w (suc left) offset = ap suc (length-word_lines image w left (offset + w))

read-IsByteList : (b : Buffer) (off n : ℕ) → ((i : ℕ) → b.byte i < 256) → IsByteList (read b off n)
unfolding read
read-IsByteList b off zero h = tt
read-IsByteList b off (suc n) h = (h off, read-IsByteList b (off + 1) n h)

get_or-byte : (bs : Bytes) (i : ℕ) → IsByteList bs → get_or bs i 0 < 256
get_or-byte [] i h = omega arith
get_or-byte (x ∷ bs) zero (first, h) = first
get_or-byte (x ∷ bs) (suc i) (first, h) = get_or-byte bs i h

get_or_outside : (bs : Bytes) (i : ℕ) → length bs ≤ i → get_or bs i 0 ≡ 0
get_or_outside [] i h = refl
get_or_outside (x ∷ bs) zero h = absurd (omega arith)
get_or_outside (x ∷ bs) (suc i) h = get_or_outside bs i (omega arith)

-- The image has the bytes of the source, and zero behind them.
image_byte :
    (source : Bytes) (size i : ℕ) → (splice (zeros size) 0 source).byte i ≡ get_or source i 0
unfolding splice zeros
image_byte source size i = let outside = get_or_outside source i in ground arith

-- The row of an offset lies in the image.
room_in :
    (size w offset : ℕ) (source : Bytes)
    → offset / w < size / w
    → size / w * w + size % w ≡ size
    → size % w ≡ 0
    → offset / w * w + w ≤ (splice (zeros size) 0 source).size
unfolding splice zeros
room_in size w offset source row total whole =
    let last : suc (offset / w) * w ≤ size / w * w = mul-le-mul_right w row in
    let step : suc (offset / w) * w ≡ offset / w * w + w = grind arith in
    omega (arith, last, step, total, whole)

-- For a word size that is a power of two, a memory size that is a positive multiple of it and a
-- source of bytes that fits it, `convert` writes one line for each word, and the line of each
-- offset reads back as a number whose byte there is the byte of the source, or zero behind its
-- end.
pub convert_holds :
    (source : Bytes) (size word_bytes offset : ℕ)
    → 0 < word_bytes
    → bit_and word_bytes (word_bytes - 1) ≡ 0
    → 0 < size
    → size % word_bytes ≡ 0
    → length source ≤ size
    → IsByteList source
    → offset < size
    → (lines : List Text) × (line : Text) × (word : ℕ) × (convert source size word_bytes
        ≡ ok (length source, lines))
      × (length lines ≡ size / word_bytes)
      × (get_elem? lines (offset / word_bytes) ≡ some line)
      × (int_of 16 line ≡ uint word)
      × (word / 256 ^ (offset % word_bytes) % 256 ≡ get_or source offset 0)
unfolding convert
convert_holds source size w offset positive power some_size whole fits bytes inside =
    let image = splice (zeros size) 0 source in
    let start = offset / w * w in
    let lanes = offset % w in
    let split : start + lanes ≡ offset = div-add-mod' offset w in
    let total : size / w * w + size % w ≡ size = div-add-mod' size w in
    let lane : lanes < w = mod-lt offset positive in
    let row : offset / w < size / w =
      (div-lt_iff_lt-mul {k = w} {x = offset} {y = size / w} positive).1 (omega arith) in
    let room : start + w ≤ image.size = room_in size w offset source row total whole in
    let word = from_le (read image start w) in
    let known : (w == 0 || not (bit_and w (w - 1) == 0)) ≡ false = ground arith in
    let even : (size == 0 || not (size % w == 0)) ≡ false = ground arith in
    let enough : ltb size (length source) ≡ false = ground arith in
    let byte : get_or (read image start w) lanes 0 ≡ get_or source offset 0 =
      get_or-read image start w lanes lane ∙ ap image.byte split ∙ image_byte source size offset in
    let small : (i : ℕ) → image.byte i < 256 =
      λ i. subst (λ b. b < 256) (sym (image_byte source size i)) (get_or-byte source i bytes) in
    let line_at : get_elem? (word_lines image w (size / w) 0) (offset / w)
        ≡ some (format_hex (w * 2) word) =
      word_lines-get_elem? image w (size / w) 0 (offset / w) row
      ∙ ap (λ o. some (format_hex (w * 2) (from_le (slice image o w)))) (omega arith)
      ∙ ap (λ bs. some (format_hex (w * 2) (from_le bs))) (slice-read image start w room) in
    (
      word_lines image w (size / w) 0,
      format_hex (w * 2) word,
      word,
      rw (known, even, enough) refl,
      length-word_lines image w (size / w) 0,
      line_at,
      int_of-format_hex (w * 2) word (omega arith),
      from_le-byte (read image start w) lanes (read-IsByteList image start w small) ∙ byte,
    )
