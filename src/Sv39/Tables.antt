-- ===== src/Sv39/Tables.antt =====
-- Reading back page-table entries.
use open_rv.Prelude.{
  ℕ, zero, suc, ◌+◌, ◌-◌, ◌*◌, ◌/◌, ◌%◌, ◌^◌, ◌≤◌, ◌<◌, ◌≡◌, refl, ◌∙◌, ◌⊎◌, inl, inr, ap, arith,
  leb, ltb, ◌==◌, ◌&&◌, if◌then◌else◌, Bool-cases, ==_iff,
}
use open_rv.Buffer.{Buffer, clear, splice}
use open_rv.Buffer.Laws.{
  length-to_le, field-splice_self, read-splice-to_le_disjoint, read-clear_disjoint,
  from_le-read-clear,
}
use open_rv.Sv39.{put_u64, load_u64, pte, pte_flags_rwxad, map_pages}

load_u64-put_u64_self : (b : Buffer) (o v : ℕ) → v < 2 ^ 64 → load_u64 (put_u64 b o v) o ≡ v
unfolding load_u64 put_u64
load_u64-put_u64_self b o v h = field-splice_self b o 8 v h

load_u64-put_u64_ne :
    (b : Buffer) (o v k : ℕ) → (k + 8 ≤ o) ⊎ (o + 8 ≤ k) → load_u64 (put_u64 b o v) k ≡ load_u64 b k
unfolding load_u64 put_u64
load_u64-put_u64_ne b o v k h = rw (read-splice-to_le_disjoint b o 8 v k 8 h)

-- Between aligned offsets a store changes one word.
pub load_u64-put_u64 :
    (b : Buffer) (o v k : ℕ)
    → v < 2 ^ 64
    → o % 8 ≡ 0
    → k % 8 ≡ 0
    → load_u64 (put_u64 b o v) k ≡ (if o == k then v else load_u64 b k)
load_u64-put_u64 b o v k h ho hk = elim (Bool-cases (o == k)) [
  | inl e ↦ rw (e, ← ((==_iff o k).0 e)) (load_u64-put_u64_self b o v h)
  | inr e ↦ rw e (load_u64-put_u64_ne b o v k (ground arith))
]

pub load_u64-clear :
    (b : Buffer) (o n k : ℕ)
    → o % 8 ≡ 0
    → n % 8 ≡ 0
    → k % 8 ≡ 0
    → load_u64 (clear b o n) k ≡ (if leb o k && ltb k (o + n) then 0 else load_u64 b k)
unfolding load_u64
load_u64-clear b o n k ho hn hk = elim (Bool-cases (leb o k && ltb k (o + n))) [
  | inl e ↦ rw e (from_le-read-clear b o n k 8 (ground arith) (ground arith))
  | inr e ↦ rw (e, read-clear_disjoint b o n k 8 (ground arith))
]

pub pte-lt : (p f : ℕ) → p < 2 ^ 60 → f < 2 ^ 10 → pte p f < 2 ^ 64
unfolding pte
pte-lt p f h g = omega arith

-- The page loop writes one entry for each page and no other word.
pub load_u64-map_pages :
    (level0 physical left page : ℕ) (b : Buffer) (k : ℕ)
    → level0 % 8 ≡ 0
    → k % 8 ≡ 0
    → physical + (page + left) * 0x1000 < 2 ^ 60
    → load_u64 (map_pages level0 physical left page b) k ≡ (
        if leb (level0 + page * 8) k && ltb k (level0 + (page + left) * 8)
        then pte (physical + (k - level0) / 8 * 0x1000) pte_flags_rwxad
        else load_u64 b k)
unfolding map_pages
load_u64-map_pages level0 physical zero page b k hl hk hp = ground arith
load_u64-map_pages level0 physical (suc left) page b k hl hk hp =
    let entry = pte (physical + page * 0x1000) pte_flags_rwxad in
    let here : level0 + page * 8 ≡ k
        → entry ≡ pte (physical + (k - level0) / 8 * 0x1000) pte_flags_rwxad =
      λ e. ap (λ q. pte (physical + q * 0x1000) pte_flags_rwxad) (omega arith) in
    let stored =
      load_u64-put_u64 b (level0 + page * 8) entry k (pte-lt _ _ (omega arith) (omega arith))
        (omega arith) hk in
    let rest =
      load_u64-map_pages level0 physical left (page + 1) (put_u64 b (level0 + page * 8) entry) k hl
        hk (omega arith) in
    ground (arith, here, stored, rest)

-- Bytes outside of the stored words, and the size of the image.
pub byte-put_u64 :
    (b : Buffer) (o v i : ℕ) → (i < o) ⊎ (o + 8 ≤ i) → (put_u64 b o v).byte i ≡ b.byte i
unfolding put_u64 splice
byte-put_u64 b o v i h = ground (arith, length-to_le 8 v)

pub size-put_u64 : (b : Buffer) (o v : ℕ) → o + 8 ≤ b.size → (put_u64 b o v).size ≡ b.size
unfolding put_u64 splice
size-put_u64 b o v h = omega (arith, length-to_le 8 v)

pub byte-map_pages :
    (level0 physical left page : ℕ) (b : Buffer) (i : ℕ)
    → (i < level0) ⊎ (level0 + (page + left) * 8 ≤ i)
    → (map_pages level0 physical left page b).byte i ≡ b.byte i
unfolding map_pages
byte-map_pages level0 physical zero page b i h = refl
byte-map_pages level0 physical (suc left) page b i h =
    byte-map_pages level0 physical left (page + 1) _ i (omega arith)
    ∙ byte-put_u64 b (level0 + page * 8) _ i (omega arith)

pub size-map_pages :
    (level0 physical left page : ℕ) (b : Buffer)
    → level0 + (page + left) * 8 ≤ b.size
    → (map_pages level0 physical left page b).size ≡ b.size
unfolding map_pages
size-map_pages level0 physical zero page b h = refl
size-map_pages level0 physical (suc left) page b h =
    let stored =
      size-put_u64 b (level0 + page * 8) (pte (physical + page * 0x1000) pte_flags_rwxad)
        (omega arith) in
    size-map_pages level0 physical left (page + 1) _ (omega (arith, stored)) ∙ stored
