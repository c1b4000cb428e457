-- ===== src/Multichase/Ring.antt =====
-- `make_successors` links the nodes of an order to one ring, so that its checks never fail.
use open_rv.Prelude.{
  ℕ, zero, suc, ◌+◌, ◌-◌, ◌%◌, ◌≤◌, ◌<◌, ◌≡◌, refl, sym, ap, subst, ◌∙◌, inl, inr, true, false,
  List, [], ◌∷◌, arith, ok, ltb, leb, ◌==◌, if◌then◌else◌, length, get_or, set, replicate, All,
  Bool-cases, length-set, length-replicate,
}
use native.Mathlib.Nat.{mod-eq_of_lt, mod_self}
use open_rv.Multichase.{make_order, link, is_visited, walk, make_successors}
use open_rv.Multichase.Counts.{count, get_or-set_self, get_or-set_ne}
use open_rv.Multichase.Permutation.{IsOrder, make_order_lem}

-- A value that stands in a list has a place there, and two places if it stands there twice.
count_pos : (a : ℕ) (xs : List ℕ) → 0 < count a xs → (i : ℕ) × (i < length xs) × (get_or xs i 0 ≡ a)
count_pos a [] h = absurd (omega arith)
count_pos a (x ∷ xs) h = elim (Bool-cases (x == a)) [
  | inl here ↦ (0, omega arith, ground arith)
  | inr there ↦ let (i, lt, e) = count_pos a xs (ground arith) in (suc i, omega arith, e)
]

count_at : (xs : List ℕ) (i : ℕ) → i < length xs → 0 < count (get_or xs i 0) xs
count_at [] i h = absurd (omega arith)
count_at (x ∷ xs) zero h = ground arith
count_at (x ∷ xs) (suc i) h = omega (arith, count_at xs i (omega arith))

count_twice :
    (xs : List ℕ) (i j : ℕ)
    → i < j
    → j < length xs
    → get_or xs i 0 ≡ get_or xs j 0
    → 1 < count (get_or xs i 0) xs
count_twice [] i j h lt e = absurd (omega arith)
count_twice (x ∷ xs) i zero h lt e = absurd (omega arith)
count_twice (x ∷ xs) zero (suc j) h lt e =
    let later = subst (λ a. 0 < count a xs) (sym e) (count_at xs j (omega arith)) in ground arith
count_twice (x ∷ xs) (suc i) (suc j) h lt e =
    omega (arith, count_twice xs i j (omega arith) (omega arith) e)

-- The place behind `i` in a ring of `n`.
abbrev next_place : ℕ → ℕ → ℕ
next_place n i = if i + 1 == n then 0 else i + 1

-- The place after `k` steps from `p`.
abbrev pub place : ℕ → ℕ → ℕ → ℕ
place n p k = if ltb (p + k) n then p + k else p + k - n

-- The three steps of `make_successors`, each passed.
make_successors_steps :
    (nodes successors all : List ℕ) (m : ℕ)
    → length nodes ≡ m
    → link nodes nodes 0 (replicate (length nodes) 0) ≡ ok successors
    → walk successors m [] 0 ≡ ok (all, 0)
    → length all ≡ m
    → make_successors nodes ≡ ok successors
unfolding make_successors
make_successors_steps nodes successors all m size made walked counted =
    let walked' : walk successors (length nodes) [] 0 ≡ ok (all, 0) =
      subst (λ k. walk successors k [] 0 ≡ ok (all, 0)) (sym size) walked in
    let full : length all == length nodes ≡ true = ground arith in rw (made, walked', full) refl

module _ (order : List ℕ) (n : ℕ) (o : IsOrder n order) where
  node_bound : (i : ℕ) → i < n → get_or order i 0 < n
  node_bound i lt =
      let some_place = count_at order i (omega (arith, o.size)) in
      ground (arith, o.once (get_or order i 0))

  distinct : (i j : ℕ) → i < n → j < n → get_or order i 0 ≡ get_or order j 0 → i ≡ j
  distinct i j hi hj e = elim (Bool-cases (ltb i j)) [
    | inl less ↦
        let twice = count_twice order i j (ground arith) (omega (arith, o.size)) e in
        let once = o.once (get_or order i 0) in absurd (ground arith)
    | inr notless ↦ elim (Bool-cases (ltb j i)) [
      | inl less ↦
          let twice = count_twice order j i (ground arith) (omega (arith, o.size)) (sym e) in
          let once = o.once (get_or order j 0) in absurd (ground arith)
      | inr same ↦ ground arith
    ]
  ]

  mod_next : (i : ℕ) → i < n → (i + 1) % length order ≡ next_place n i
  mod_next i lt = ap (λ m. (i + 1) % m) o.size ∙ elim (Bool-cases (i + 1 == n)) [
    | inl e ↦ let whole : i + 1 ≡ n = ground arith in rw e (ap (λ m. m % n) whole ∙ mod_self n)
    | inr e ↦ rw e (mod-eq_of_lt (ground arith))
  ]

  -- The first `index` nodes are linked.
  Linked : ℕ → List ℕ → Type 0
  Linked index successors =
      (j : ℕ) → j < index → get_or successors (get_or order j 0) 0 ≡ get_or order (next_place n j) 0

  link_lem :
      (nodes : List ℕ) (index : ℕ) (successors : List ℕ)
      → index + length nodes ≡ n
      → ((k : ℕ) → k < length nodes → get_or nodes k 0 ≡ get_or order (index + k) 0)
      → length successors ≡ n
      → Linked index successors
      → (linked : List ℕ) × (link order nodes index successors ≡ ok linked)
        × (length linked ≡ n)
        × Linked n linked
  unfolding link Linked
  link_lem [] index successors size same len h =
      let e : index ≡ n = omega arith in
      (successors, refl, len, subst (λ k. Linked k successors) e h)
  link_lem (node ∷ nodes) index successors size same len h =
      let here : node ≡ get_or order index 0 =
        same 0 (omega arith) ∙ ap (λ k. get_or order k 0) (omega arith) in
      let bound = node_bound index (omega arith) in
      let inside : leb (length successors) node ≡ false = ground arith in
      let value = get_or order ((index + 1) % length order) 0 in
      let right : value ≡ get_or order (next_place n index) 0 =
        ap (λ k. get_or order k 0) (mod_next index (omega arith)) in
      let written = set successors node value in
      let len' : length written ≡ n = length-set {0} successors node value ∙ len in
      let linked : Linked (index + 1) written = λ j lt.
        elim (Bool-cases (node == get_or order j 0)) [
          | inl e ↦
              let target : node ≡ get_or order j 0 = ground arith in
              let same_place : index ≡ j =
                distinct index j (omega arith) (omega arith) (sym here ∙ target) in
              ap (λ a. get_or written a 0) (sym target)
              ∙ get_or-set_self successors node value (omega (arith, here, bound))
              ∙ right
              ∙ ap (λ i. get_or order (next_place n i) 0) same_place
          | inr e ↦
              get_or-set_ne successors node (get_or order j 0) value e
              ∙ h j (elim (Bool-cases (j == index)) [
                | inl at ↦
                    let i : index ≡ j = ground arith in
                    let eq : node ≡ get_or order j 0 = here ∙ ap (λ k. get_or order k 0) i in
                    absurd (ground arith)
                | inr before ↦ ground arith
              ])
        ] in
      let (out, linked_all, len_out, all) =
        link_lem nodes (index + 1) written (omega arith)
          (λ k lt. same (suc k) (omega arith) ∙ ap (λ i. get_or order i 0) (omega arith)) len'
          linked in
      (out, rw inside linked_all, len_out, all)

  -- The nodes of the first `k` steps from the place `p`.
  Before : ℕ → ℕ → List ℕ → Type 0
  Before p k = All (λ v. (j : ℕ) × (j < k) × (v ≡ get_or order (place n p j) 0))

  Before-later : (p k : ℕ) (visited : List ℕ) → Before p k visited → Before p (k + 1) visited
  unfolding Before
  Before-later p k [] h = tt
  Before-later p k (v ∷ visited) ((j, lt, e), h) = ((j, omega arith, e), Before-later p k visited h)

  -- A node that is not yet back at its start is new.
  not-is_visited :
      (p k node : ℕ) (visited : List ℕ)
      → p < n
      → k < n
      → node ≡ get_or order (place n p k) 0
      → Before p k visited
      → is_visited node visited ≡ false
  unfolding is_visited Before
  not-is_visited p k node [] hp hk e h = refl
  not-is_visited p k node (v ∷ visited) hp hk e ((j, lt, ev), h) = elim (Bool-cases (v == node)) [
    | inl same ↦
        let eq : v ≡ node = ground arith in
        let places =
          distinct (place n p j) (place n p k) (ground arith) (ground arith) (sym ev ∙ eq ∙ e) in
        absurd (ground arith)
    | inr other ↦ rw other (not-is_visited p k node visited hp hk e h)
  ]

  place_next : (p k : ℕ) → p < n → k < n → next_place n (place n p k) ≡ place n p (k + 1)
  place_next p k hp hk = ground arith

  module _ (successors : List ℕ) (len : length successors ≡ n) (linked : Linked n successors)
      (p : ℕ) (hp : p < n) where
    -- The walk from the place `p` on passes every check.
    walk_lem :
        (left k node : ℕ) (visited : List ℕ)
        → left + k ≡ n
        → length visited ≡ k
        → node ≡ get_or order (place n p k) 0
        → Before p k visited
        → (all : List ℕ) × (walk successors left visited node
            ≡ ok (all, get_or order (place n p n) 0))
          × (length all ≡ n)
    unfolding walk Linked Before
    walk_lem zero k node visited size count_k e h =
        let done : k ≡ n = omega arith in
        (
          visited,
          ap (λ v. ok (visited, v)) (e ∙ ap (λ i. get_or order (place n p i) 0) done),
          count_k ∙ done,
        )
    walk_lem (suc left) k node visited size count_k e h =
        let fresh = not-is_visited p k node visited hp (omega arith) e h in
        let bound = node_bound (place n p k) (ground arith) in
        let inside : leb (length successors) node ≡ false = ground arith in
        let follows : get_or successors node 0 ≡ get_or order (place n p (k + 1)) 0 =
          ap (λ v. get_or successors v 0) e
          ∙ linked (place n p k) (ground arith)
          ∙ ap (λ i. get_or order i 0) (place_next p k hp (omega arith)) in
        let (all, walked, counted) =
          walk_lem left (k + 1) (get_or successors node 0) (node ∷ visited) (omega arith)
            (omega arith) follows ((k, omega arith, e), Before-later p k visited h) in
        (all, rw (fresh, inside) walked, counted)

  -- The links run through the places of the order, from some place on.
  record IsRing (successors : List ℕ) : Type 0 where
    start : ℕ
    start_bound : start < n
    from_zero : get_or order start 0 ≡ 0
    linked : Linked n successors
    size : length successors ≡ n

  make_successors-IsRing :
      0 < n → (successors : List ℕ) × (make_successors order ≡ ok successors) × IsRing successors
  unfolding Linked Before
  make_successors-IsRing pos =
      let zeros : List ℕ = replicate (length order) 0 in
      let (successors, made, len, linked) =
        link_lem order 0 zeros (omega (arith, o.size))
          (λ k lt. ap (λ i. get_or order i 0) (omega arith))
          (length-replicate {A = ℕ} (length order) 0 ∙ o.size) (λ j lt. absurd (omega arith)) in
      let (p, hp, zero_at) = count_pos 0 order (let once = o.once 0 in ground arith) in
      let hp' : p < n = omega (arith, o.size, hp) in
      let start : 0 ≡ get_or order (place n p 0) 0 =
        sym zero_at ∙ ap (λ i. get_or order i 0) (ground arith) in
      let (all, walked, counted) =
        walk_lem successors len linked p hp' n 0 0 [] (omega arith) refl start tt in
      let back : get_or order (place n p n) 0 ≡ 0 =
        ap (λ i. get_or order i 0) (ground arith) ∙ zero_at in
      let walked' = subst (λ v. walk successors n [] 0 ≡ ok (all, v)) back walked in
      (
        successors,
        make_successors_steps order successors all n o.size made walked' counted,
        record { start = p; start_bound = hp'; from_zero = zero_at; linked = linked; size = len },
      )

-- The node after `k` links from the node 0.
pub follow : List ℕ → ℕ → ℕ
follow successors zero = 0
follow successors (suc k) = get_or successors (follow successors k) 0

module _ (order : List ℕ) (n : ℕ) (o : IsOrder n order) (successors : List ℕ)
    (r : IsRing order n o successors) where
  follow_lem : (k : ℕ) → k ≤ n → follow successors k ≡ get_or order (place n r.start k) 0
  unfolding follow Linked
  follow_lem zero le =
      let lt = r.start_bound in sym r.from_zero ∙ ap (λ i. get_or order i 0) (ground arith)
  follow_lem (suc k) le =
      let lt = r.start_bound in
      ap (λ v. get_or successors v 0) (follow_lem k (omega arith))
      ∙ r.linked (place n r.start k) (ground arith)
      ∙ ap (λ i. get_or order i 0)
          (place_next order n o r.start k lt (omega arith) ∙ ap (place n r.start) (omega arith))

  follow_all : (a : ℕ) → a < n → (k : ℕ) × (k < n) × (follow successors k ≡ a)
  follow_all a lt =
      let once = o.once a in
      let (i, hi, at) = count_pos a order (ground arith) in
      let hp = r.start_bound in
      let size = o.size in
      let k = if leb r.start i then i - r.start else i + n - r.start in
      let bound : k < n = ground arith in
      let there : place n r.start k ≡ i = ground arith in
      (k, bound, follow_lem k (omega arith) ∙ ap (λ j. get_or order j 0) there ∙ at)

  follow_back : follow successors n ≡ 0
  follow_back =
      let lt = r.start_bound in
      follow_lem n (omega arith) ∙ ap (λ i. get_or order i 0) (ground arith) ∙ r.from_zero

-- The walk from element 0 meets each element within a round, and ends where it began.
abbrev pub IsOneRing : ℕ → List ℕ → Type 0
IsOneRing nodes successors =
    (length successors ≡ nodes)
    × ((a : ℕ) → a < nodes → (k : ℕ) × (k < nodes) × (follow successors k ≡ a))
    × (follow successors nodes ≡ 0)

pub make_successors-follow :
    (nodes per s : ℕ)
    → 0 < per
    → 0 < nodes
    → (order : List ℕ) × (end : ℕ) × (successors : List ℕ) × (make_order nodes per s
        ≡ ok (order, end))
      × (make_successors order ≡ ok successors)
      × IsOneRing nodes successors
make_successors-follow nodes per s pos some_nodes =
    let (order, end, ordered, o) = make_order_lem nodes per s pos in
    let (successors, linked, ring) = make_successors-IsRing order nodes o some_nodes in
    (
      order,
      end,
      successors,
      ordered,
      linked,
      (
        ring.size,
        follow_all order nodes o successors ring,
        follow_back order nodes o successors ring,
      ),
    )
