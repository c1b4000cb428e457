-- ===== src/Buffer/Laws.antt =====
-- The laws of slices and little-endian fields.
use open_rv.Prelude.{
  ℕ, zero, suc, ◌+◌, ◌-◌, ◌*◌, ◌/◌, ◌^◌, ◌≤◌, ◌<◌, ◌≡◌, refl, true, ◌∙◌, ◌⊎◌, [], ◌∷◌, ap, subst,
  arith, length, get_or,
}
use native.Mathlib.Nat.{pow-suc}
use open_rv.Buffer.{
  Bytes, Buffer, zeros, read, slice, prefix, bytes_eq, splice, clear, to_le, from_le,
}

pub length-read : (b : Buffer) (off n : ℕ) → length (read b off n) ≡ n
unfolding read
length-read b off zero = refl
length-read b off (suc n) = ap suc (length-read b (off + 1) n)

pub length-to_le : (n v : ℕ) → length (to_le n v) ≡ n
unfolding to_le
length-to_le zero v = refl
length-to_le (suc n) v = ap suc (length-to_le n (v / 256))

-- A write outside the range that is read.
pub read-splice_disjoint :
    (b : Buffer) (o : ℕ) (bs : Bytes) (off n : ℕ)
    → (off + n ≤ o) ⊎ (o + length bs ≤ off)
    → read (splice b o bs) off n ≡ read b off n
unfolding read splice
read-splice_disjoint b o bs off zero h = refl
read-splice_disjoint b o bs off (suc n) h =
    ground (arith, read-splice_disjoint b o bs (off + 1) n (omega arith))

-- `read` of a byte function that holds `bs` from `off` on.
read_of_get :
    (b : Buffer) (bs : Bytes) (off : ℕ)
    → ((i : ℕ) → i < length bs → b.byte (off + i) ≡ get_or bs i 0)
    → read b off (length bs) ≡ bs
unfolding read
read_of_get b [] off h = refl
read_of_get b (x ∷ bs) off h =
    let first : b.byte off ≡ x =
      let e : off + 0 ≡ off = omega arith in rw e at (h 0 (omega arith)) in
    cc (
      first,
      read_of_get b bs (off + 1) (λ i p.
          let e : off + 1 + i ≡ off + suc i = omega arith in rw e (h (suc i) (omega arith))),
    )

-- What was written is read back.
pub read-splice_self : (b : Buffer) (o : ℕ) (bs : Bytes) → read (splice b o bs) o (length bs) ≡ bs
unfolding splice
read-splice_self b o bs = read_of_get (splice b o bs) bs o (λ i p. written i p)
  where
    written : (i : ℕ) → i < length bs → (splice b o bs).byte (o + i) ≡ get_or bs i 0
    written i p = let e : o + i - o ≡ i = omega arith in ground (arith, ap (λ k. get_or bs k 0) e)

-- Little-endian fields are read back if they fit their width.
pub from_le-to_le : (n v : ℕ) → v < 256 ^ n → from_le (to_le n v) ≡ v
unfolding from_le to_le
from_le-to_le zero v h = omega arith
from_le-to_le (suc n) v h =
    let e : 256 ^ suc n ≡ 256 ^ n * 256 = pow-suc 256 n in
    omega (arith, e, from_le-to_le n (v / 256) (omega (arith, e)))

-- `read` of a cleared range, and outside of it.
pub read-clear_disjoint :
    (b : Buffer) (o k off n : ℕ)
    → (off + n ≤ o) ⊎ (o + k ≤ off)
    → read (clear b o k) off n ≡ read b off n
unfolding read clear
read-clear_disjoint b o k off zero h = refl
read-clear_disjoint b o k off (suc n) h =
    ground (arith, read-clear_disjoint b o k (off + 1) n (omega arith))

pub from_le-read-clear :
    (b : Buffer) (o k off n : ℕ)
    → o ≤ off
    → off + n ≤ o + k
    → from_le (read (clear b o k) off n) ≡ 0
unfolding read clear from_le
from_le-read-clear b o k off zero h g = refl
from_le-read-clear b o k off (suc n) h g =
    ground (arith, from_le-read-clear b o k (off + 1) n (omega arith) (omega arith))

pub read-splice_at :
    (b : Buffer) (o : ℕ) (bs : Bytes) (n : ℕ) → length bs ≡ n → read (splice b o bs) o n ≡ bs
read-splice_at b o bs n e = subst (λ k. read (splice b o bs) o k ≡ bs) e (read-splice_self b o bs)

-- A field of `width` bytes that was stored, and one beside it.
pub field-splice_self :
    (b : Buffer) (o width v : ℕ)
    → v < 256 ^ width
    → from_le (read (splice b o (to_le width v)) o width) ≡ v
field-splice_self b o width v h =
    rw (read-splice_at b o (to_le width v) width (length-to_le width v)) (from_le-to_le width v h)

pub read-splice-to_le_disjoint :
    (b : Buffer) (o width v off n : ℕ)
    → (off + n ≤ o) ⊎ (o + width ≤ off)
    → read (splice b o (to_le width v)) off n ≡ read b off n
read-splice-to_le_disjoint b o width v off n h =
    read-splice_disjoint b o (to_le width v) off n (omega (arith, length-to_le width v))

pub get_or-read : (b : Buffer) (off n i : ℕ) → i < n → get_or (read b off n) i 0 ≡ b.byte (off + i)
unfolding read
get_or-read b off zero i h = absurd (omega arith)
get_or-read b off (suc n) zero h = ap b.byte (omega arith)
get_or-read b off (suc n) (suc i) h =
    get_or-read b (off + 1) n i (omega arith) ∙ ap b.byte (omega arith)

-- `read` sees the bytes of its range alone.
pub read_congr :
    (b c : Buffer) (off n : ℕ)
    → ((i : ℕ) → off ≤ i → i < off + n → b.byte i ≡ c.byte i)
    → read b off n ≡ read c off n
unfolding read
read_congr b c off zero h = refl
read_congr b c off (suc n) h = cc (
  h off (omega arith) (omega arith),
  read_congr b c (off + 1) n (λ i lo hi. h i (omega arith) (omega arith)),
)

-- A part of a copied range.
pub read-splice_copy :
    (b c : Buffer) (m off n : ℕ) → off + n ≤ m → read (splice b 0 (read c 0 m)) off n ≡ read c off n
unfolding splice
read-splice_copy b c m off n h =
    read_congr _ c off n (λ i lo hi. ground (arith, length-read c 0 m, get_or-read c 0 m i))

-- A slice inside the buffer.
pub slice-read : (b : Buffer) (off n : ℕ) → off + n ≤ b.size → slice b off n ≡ read b off n
unfolding slice
slice-read b off n h = ap (read b off) (omega arith)

pub read-prefix : (b : Buffer) (m off n : ℕ) → read (prefix b m) off n ≡ read b off n
unfolding prefix
read-prefix b m off n = read_congr _ b off n (λ i lo hi. refl)

pub bytes_eq_refl : (bs : Bytes) → bytes_eq bs bs ≡ true
unfolding bytes_eq
bytes_eq_refl [] = refl
bytes_eq_refl (x ∷ bs) = ground (arith, bytes_eq_refl bs)

pub byte-zeros : (n i : ℕ) → (zeros n).byte i ≡ 0
unfolding zeros
byte-zeros n i = refl
