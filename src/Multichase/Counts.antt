-- ===== src/Multichase/Counts.antt =====
-- How often a value stands in a list, under writes, sorting and ranges.
use open_rv.Prelude.{
  ℕ, zero, suc, ◌+◌, ◌≤◌, ◌<◌, ◌≡◌, refl, ap, inl, inr, false, ◌&&◌, List, [], ◌∷◌, ◌++◌, arith,
  ltb, leb, ◌==◌, if◌then◌else◌, length, get_or, set, take, Bool-cases,
}
use open_rv.Multichase.{insert, sorted, range}

abbrev pub count : ℕ → List ℕ → ℕ
count node [] = 0
count node (entry ∷ later) = (if entry == node then 1 else 0) + count node later

-- `a` is one of `n` numbers from `lo` on.
abbrev pub within : ℕ → ℕ → ℕ → ℕ
within lo n a = if leb lo a && ltb a (lo + n) then 1 else 0

pub count-append :
    (first second : List ℕ) (node : ℕ)
    → count node (first ++ second) ≡ count node first + count node second
count-append [] second node = omega arith
count-append (entry ∷ first) second node =
    let rest = count-append first second node in omega (arith, rest)

pub get_or-set_self : (xs : List ℕ) (i v : ℕ) → i < length xs → get_or (set xs i v) i 0 ≡ v
get_or-set_self [] i v h = absurd (omega arith)
get_or-set_self (x ∷ xs) zero v h = refl
get_or-set_self (x ∷ xs) (suc i) v h = get_or-set_self xs i v (omega arith)

pub get_or-set_ne :
    (xs : List ℕ) (i j v : ℕ) → i == j ≡ false → get_or (set xs i v) j 0 ≡ get_or xs j 0
get_or-set_ne [] i j v h = refl
get_or-set_ne (x ∷ xs) zero zero v h = ground arith
get_or-set_ne (x ∷ xs) zero (suc j) v h = refl
get_or-set_ne (x ∷ xs) (suc i) zero v h = refl
get_or-set_ne (x ∷ xs) (suc i) (suc j) v h = get_or-set_ne xs i j v (ground arith)

-- A write in the first `k` places exchanges one value for another.
pub count-take-set :
    (a v : ℕ) (xs : List ℕ) (k j : ℕ)
    → j < k
    → j < length xs
    → count a (take k (set xs j v)) + (if get_or xs j 0 == a then 1 else 0)
      ≡ count a (take k xs) + (if v == a then 1 else 0)
count-take-set a v [] k j h lt = absurd (omega arith)
count-take-set a v (x ∷ xs) zero j h lt = absurd (omega arith)
count-take-set a v (x ∷ xs) (suc k) zero h lt = omega arith
count-take-set a v (x ∷ xs) (suc k) (suc j) h lt =
    omega (arith, count-take-set a v xs k j (omega arith) (omega arith))

pub count-take_next :
    (a : ℕ) (xs : List ℕ) (k : ℕ)
    → k < length xs
    → count a (take (suc k) xs) ≡ count a (take k xs) + (if get_or xs k 0 == a then 1 else 0)
count-take_next a [] k h = absurd (omega arith)
count-take_next a (x ∷ xs) zero h = omega arith
count-take_next a (x ∷ xs) (suc k) h = omega (arith, count-take_next a xs k (omega arith))

pub take_all : (xs : List ℕ) (k : ℕ) → length xs ≤ k → take k xs ≡ xs
take_all [] zero h = refl
take_all [] (suc k) h = refl
take_all (x ∷ xs) zero h = absurd (omega arith)
take_all (x ∷ xs) (suc k) h = ap (◌∷◌ x) (take_all xs k (omega arith))

count-insert : (a x : ℕ) (xs : List ℕ) → count a (insert x xs) ≡ count a (x ∷ xs)
unfolding insert
count-insert a x [] = refl
count-insert a x (y ∷ ys) = ground (arith, count-insert a x ys)

pub count-sorted : (a : ℕ) (xs : List ℕ) → count a (sorted xs) ≡ count a xs
unfolding sorted
count-sorted a [] = refl
count-sorted a (x ∷ xs) = omega (arith, count-insert a x (sorted xs), count-sorted a xs)

-- Ascending from `lo` on.
abbrev pub IsAscending : ℕ → List ℕ → Type 0
IsAscending lo [] = Unit
IsAscending lo (x ∷ xs) = (lo ≤ x) × IsAscending x xs

insert-IsAscending :
    (lo x : ℕ) (xs : List ℕ) → lo ≤ x → IsAscending lo xs → IsAscending lo (insert x xs)
unfolding insert
insert-IsAscending lo x [] le h = (le, tt)
insert-IsAscending lo x (y ∷ ys) le (low, h) = elim (Bool-cases (leb x y)) [
  | inl e ↦ rw e (le, (ground arith, h))
  | inr e ↦ rw e (low, insert-IsAscending y x ys (ground arith) h)
]

pub sorted-IsAscending : (xs : List ℕ) → IsAscending 0 (sorted xs)
unfolding sorted
sorted-IsAscending [] = tt
sorted-IsAscending (x ∷ xs) =
    insert-IsAscending 0 x (sorted xs) (omega arith) (sorted-IsAscending xs)

count-below : (a lo : ℕ) (xs : List ℕ) → a < lo → IsAscending lo xs → count a xs ≡ 0
count-below a lo [] lt h = refl
count-below a lo (x ∷ xs) lt (le, h) = ground (arith, count-below a x xs (omega arith) h)

-- An ascending list that has each of `n` numbers once, and no other, is their range.
pub ascending-eq-range :
    (b lo n : ℕ) (xs : List ℕ)
    → IsAscending b xs
    → ((a : ℕ) → count a xs ≡ within lo n a)
    → xs ≡ range lo n
unfolding range
ascending-eq-range b lo zero [] h c = refl
ascending-eq-range b lo zero (x ∷ xs) h c = let e = c x in absurd (ground arith)
ascending-eq-range b lo (suc n) [] h c = let e = c lo in absurd (ground arith)
ascending-eq-range b lo (suc n) (x ∷ xs) (le, h) c =
    let own = c x in
    let first = c lo in
    let low : lo ≤ x = ground arith in
    let high : x ≤ lo = ground (arith, count-below lo x xs) in
    let same : x ≡ lo = omega arith in
    rw same (
      ap (◌∷◌ lo) (
        ascending-eq-range x (lo + 1) n xs h
          (λ a. let e = c a in ground (arith, count-below lo x xs))))
