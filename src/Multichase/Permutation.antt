-- ===== src/Multichase/Permutation.antt =====
-- `make_order` gives a permutation of the nodes, so that its internal check never fails.
use open_rv.Prelude.{
  ℕ, zero, suc, ◌+◌, ◌-◌, ◌*◌, ◌/◌, ◌≤◌, ◌<◌, min, ◌≡◌, refl, sym, ap, subst, ◌∙◌, ◌↔◌, inl, inr,
  true, ◌&&◌, List, [], ◌∷◌, arith, ok, ltb, ◌==◌, if◌then◌else◌, length, get_or, set, take,
  replicate, Bool-cases, length-set, length-replicate,
}
use native.Mathlib.Nat.{mod-lt, div-add-mod', div-lt_iff_lt-mul, le-div_iff_mul-le}
use open_rv.Multichase.{
  insert, next, bounded, permute, random_permutation, extend_order, sorted, range, list_eq,
  make_order,
}
use open_rv.Multichase.Counts.{
  count, within, count-append, get_or-set_self, get_or-set_ne, count-take-set, count-take_next,
  take_all, count-sorted, sorted-IsAscending, ascending-eq-range,
}

-- One round: the first `index + 1` places hold what the first `index` held, and `v`.
round_count :
    (a v : ℕ) (xs : List ℕ) (index target : ℕ)
    → target ≤ index
    → index < length xs
    → count a (take (suc index) (set (set xs index (get_or xs target 0)) target v))
      ≡ count a (take index xs) + (if v == a then 1 else 0)
round_count a v xs index target le lt =
    let moved = set xs index (get_or xs target 0) in
    let size = length-set {0} xs index (get_or xs target 0) in
    let old = count-take_next a xs index lt in
    let first = count-take-set a (get_or xs target 0) xs (suc index) index (omega arith) lt in
    let second = count-take-set a v moved (suc index) target (omega arith) (omega (arith, size)) in
    let kept : get_or moved target 0 ≡ get_or xs target 0 = elim (Bool-cases (index == target)) [
      | inl same ↦
          let e : target ≡ index = ground arith in
          subst (λ t. get_or (set xs index (get_or xs t 0)) t 0 ≡ get_or xs t 0) (sym e)
            (get_or-set_self xs index (get_or xs index 0) lt)
      | inr other ↦ get_or-set_ne xs index target (get_or xs target 0) other
    ] in
    let same = ap (λ x. let n : ℕ = if x == a then 1 else 0 in n) kept in
    omega (arith, old, first, second, same)

pub bounded-le : (limit s : ℕ) → (bounded limit s).0 ≤ limit
unfolding bounded
bounded-le limit s = let h = mod-lt (next s).0 {m = limit + 1} (omega arith) in omega arith

length-permute :
    (base left index : ℕ) (xs : List ℕ) (s : ℕ)
    → length (permute base left index xs s).0 ≡ length xs
unfolding permute
length-permute base zero index xs s = refl
length-permute base (suc left) index xs s =
    length-permute base left (index + 1) _ (bounded index s).1
    ∙ length-set {0} (set xs index (get_or xs (bounded index s).0 0)) (bounded index s).0
        (base + index)
    ∙ length-set {0} xs index (get_or xs (bounded index s).0 0)

permute_count :
    (base left index : ℕ) (xs : List ℕ) (s a : ℕ)
    → left + index ≡ length xs
    → count a (take index xs) ≡ within base index a
    → count a (permute base left index xs s).0 ≡ within base (length xs) a
unfolding permute
permute_count base zero index xs s a size h =
    ap (count a) (sym (take_all xs index (omega arith)))
    ∙ h
    ∙ ap (λ n. within base n a) (omega arith)
permute_count base (suc left) index xs s a size h =
    let target = (bounded index s).0 in
    let written = set (set xs index (get_or xs target 0)) target (base + index) in
    let len : length written ≡ length xs =
      length-set {0} (set xs index (get_or xs target 0)) target (base + index)
      ∙ length-set {0} xs index (get_or xs target 0) in
    let added = round_count a (base + index) xs index target (bounded-le index s) (omega arith) in
    let e : suc index ≡ index + 1 = omega arith in
    let now : count a (take (suc index) written) ≡ within base (suc index) a =
      added ∙ ground (arith, h) in
    let all =
      permute_count base left (index + 1) written (bounded index s).1 a (omega arith)
        (subst (λ k. count a (take k written) ≡ within base k a) e now) in
    all ∙ ap (λ n. within base n a) len

pub random_permutation_count :
    (n base s a : ℕ) → count a (random_permutation n base s).0 ≡ within base n a
unfolding random_permutation
random_permutation_count n base s a =
    let size = length-replicate {A = ℕ} n 0 in
    permute_count base n 0 (replicate n 0) s a (omega arith) (ground arith)
    ∙ ap (λ k. within base k a) size

block_cases :
    (m q per nodes g a : ℕ)
    → (g ≤ q) ↔ (m ≤ a)
    → (q ≤ g) ↔ (a < m + per)
    → within m (min per (nodes - m)) a ≡ (if ltb a nodes && (g == q) then 1 else 0)
block_cases m q per nodes g a low high = ground (arith, low.0, low.1, high.0, high.1)

-- A block has the nodes of its group.
block_within :
    (per nodes g a : ℕ)
    → 0 < per
    → within (g * per) (min per (nodes - g * per)) a
      ≡ (if ltb a nodes && (g == a / per) then 1 else 0)
block_within per nodes g a pos =
    let low = le-div_iff_mul-le {k = per} {x = g} {y = a} pos in
    let high = div-lt_iff_lt-mul {k = per} {x = a} {y = suc g} pos in
    let next_block : suc g * per ≡ g * per + per = grind arith in
    block_cases (g * per) (a / per) per nodes g a low (
      (λ le. let lt = high.0 (omega arith) in omega arith),
      (λ lt. let le = high.1 (omega arith) in omega arith),
    )

extend_order_count :
    (nodes per : ℕ) (groups : List ℕ) (s a : ℕ)
    → 0 < per
    → count a (extend_order nodes per groups s).0
      ≡ (if ltb a nodes then count (a / per) groups else 0)
unfolding extend_order
extend_order_count nodes per [] s a pos = ground arith
extend_order_count nodes per (g ∷ groups) s a pos =
    let block = random_permutation (min per (nodes - g * per)) (g * per) s in
    let rest = extend_order nodes per groups block.1 in
    count-append block.0 rest.0 a
    ∙ ground (
      arith,
      random_permutation_count (min per (nodes - g * per)) (g * per) s a,
      block_within per nodes g a pos,
      extend_order_count nodes per groups block.1 a pos,
    )

list_eq_refl : (xs : List ℕ) → list_eq xs xs ≡ true
unfolding list_eq
list_eq_refl [] = refl
list_eq_refl (x ∷ xs) = ground (arith, list_eq_refl xs)

length-insert : (x : ℕ) (xs : List ℕ) → length (insert x xs) ≡ suc (length xs)
unfolding insert
length-insert x [] = refl
length-insert x (y ∷ ys) = ground (arith, length-insert x ys)

length-sorted : (xs : List ℕ) → length (sorted xs) ≡ length xs
unfolding sorted
length-sorted [] = refl
length-sorted (x ∷ xs) = length-insert x (sorted xs) ∙ ap suc (length-sorted xs)

length-range : (lo n : ℕ) → length (range lo n) ≡ n
unfolding range
length-range lo zero = refl
length-range lo (suc n) = ap suc (length-range (lo + 1) n)

-- The last group holds the last node.
group_bound : (nodes per a : ℕ) → 0 < per → a < nodes → a / per < (nodes + per - 1) / per
group_bound nodes per a pos lt =
    let groups = (nodes + per - 1) / per in
    let whole = div-add-mod' (nodes + per - 1) per in
    let rest = mod-lt (nodes + per - 1) {m = per} pos in
    (div-lt_iff_lt-mul {k = per} {x = a} {y = groups} pos).1 (omega arith)

-- Each node once, and nothing else.
pub record IsOrder (nodes : ℕ) (order : List ℕ) : Type 0 where
  pub size : length order ≡ nodes
  pub once : (a : ℕ) → count a order ≡ within 0 nodes a

-- For a group size above 0 `make_order` returns an order with as many entries as nodes that holds
-- each node exactly once.
pub make_order_lem :
    (nodes per s : ℕ)
    → 0 < per
    → (order : List ℕ) × (end : ℕ) × (make_order nodes per s ≡ ok (order, end))
      × IsOrder nodes order
unfolding make_order
make_order_lem nodes per s pos =
    let groups = (nodes + per - 1) / per in
    let group_order = random_permutation groups 0 s in
    let order = extend_order nodes per group_order.0 group_order.1 in
    let once : (a : ℕ) → count a order.0 ≡ within 0 nodes a = λ a. ground (
      arith,
      extend_order_count nodes per group_order.0 group_order.1 a pos,
      random_permutation_count groups 0 s (a / per),
      group_bound nodes per a pos,
    ) in
    let straight : sorted order.0 ≡ range 0 nodes =
      ascending-eq-range 0 0 nodes (sorted order.0) (sorted-IsAscending order.0)
        (λ a. count-sorted a order.0 ∙ once a) in
    let size = sym (length-sorted order.0) ∙ ap length straight ∙ length-range 0 nodes in
    let passes : list_eq (sorted order.0) (range 0 nodes) ≡ true =
      ap (λ xs. list_eq xs (range 0 nodes)) straight ∙ list_eq_refl (range 0 nodes) in
    (order.0, order.1, rw passes refl, record { size = size; once = once })
