-- ===== src/Multichase.antt =====
-- tools/gen_multichase_ring.py: the generator of random numbers, the order of the nodes, the ring of
-- pointers and the assembler lines. The lines before and behind the ring are constant text and are
-- left out.
pub mod Counts
pub mod Permutation
pub mod Ring
pub mod Layout
use Prim.Native.Nat.{bit_xor}
use open_rv.Prelude.{
  ℕ, zero, suc, ◌+◌, ◌-◌, ◌*◌, ◌/◌, ◌%◌, ◌^◌, min, Bool, true, false, not, ◌&&◌, ◌||◌, List, [],
  ◌∷◌, ◌++◌, Result, ok, err, ◌>>=◌, ◌>>◌, refuse_if, ltb, leb, ◌==◌, if◌then◌else◌, length, get_or,
  set, replicate,
}

-- `SplitMix64.next`: the value and the new state.
unfoldable pub next : ℕ → ℕ × ℕ
next s =
    let state = (s + 0x9E3779B97F4A7C15) % 2 ^ 64 in
    let first = bit_xor state (state / 2 ^ 30) * 0xBF58476D1CE4E5B9 % 2 ^ 64 in
    let second = bit_xor first (first / 2 ^ 27) * 0x94D049BB133111EB % 2 ^ 64 in
    (bit_xor second (second / 2 ^ 31), state)

-- `SplitMix64.bounded`; no caller's limit is negative.
unfoldable pub bounded : ℕ → ℕ → ℕ × ℕ
bounded limit_inclusive s = let (value, state) = next s in (value % (limit_inclusive + 1), state)

-- `left` rounds of the loop of `random_permutation`, from `index` on.
unfoldable pub permute : ℕ → ℕ → ℕ → List ℕ → ℕ → List ℕ × ℕ
permute base zero index permutation s = (permutation, s)
permute base (suc left) index permutation s =
    let (target, state) = bounded index s in
    permute base left (index + 1)
      (set (set permutation index (get_or permutation target 0)) target (base + index)) state

unfoldable pub random_permutation : ℕ → ℕ → ℕ → List ℕ × ℕ
random_permutation count base s = permute base count 0 (replicate count 0) s

-- The two internal errors of the ring, that of the order, and an index out of range.
pub data RingError : Type 0 where
  not_a_permutation closes_early not_one_ring index_error : RingError
  not_positive bad_stride bad_bytes bad_locality : RingError

-- The loop of `make_order` over the groups.
unfoldable pub extend_order : ℕ → ℕ → List ℕ → ℕ → List ℕ × ℕ
extend_order nodes per_group [] s = ([], s)
extend_order nodes per_group (group ∷ groups) s =
    let base = group * per_group in
    let (block, state) = random_permutation (min per_group (nodes - base)) base s in
    let (rest, end) = extend_order nodes per_group groups state in (block ++ rest, end)

unfoldable pub insert : ℕ → List ℕ → List ℕ
insert x [] = x ∷ []
insert x (y ∷ ys) = if leb x y then x ∷ y ∷ ys else y ∷ insert x ys

-- `sorted`
unfoldable pub sorted : List ℕ → List ℕ
unfolding insert
sorted [] = []
sorted (x ∷ xs) = insert x (sorted xs)

-- `list(range(from, from + left))`
unfoldable pub range : ℕ → ℕ → List ℕ
range from zero = []
range from (suc left) = from ∷ range (from + 1) left

unfoldable pub list_eq : List ℕ → List ℕ → Bool
list_eq [] [] = true
list_eq [] (y ∷ ys) = false
list_eq (x ∷ xs) [] = false
list_eq (x ∷ xs) (y ∷ ys) = x == y && list_eq xs ys

-- The order and the state of the generator.
unfoldable pub make_order : ℕ → ℕ → ℕ → Result RingError (List ℕ × ℕ)
make_order nodes per_group s =
    let groups = (nodes + per_group - 1) / per_group in
    let (group_order, state) = random_permutation groups 0 s in
    let (order, end) = extend_order nodes per_group group_order state in
    if list_eq (sorted order) (range 0 nodes) then ok (order, end) else err not_a_permutation

-- The first loop of `make_successors`, from `index` on.
unfoldable pub link : List ℕ → List ℕ → ℕ → List ℕ → Result RingError (List ℕ)
link order [] index successors = ok successors
link order (node ∷ nodes) index successors = do
  refuse_if (leb (length successors) node) index_error
  link order nodes (index + 1) (set successors node (get_or order ((index + 1) % length order) 0))

unfoldable pub is_visited : ℕ → List ℕ → Bool
is_visited node [] = false
is_visited node (v ∷ visited) = v == node || is_visited node visited

-- The second loop: the set of visited nodes, and the node that it ends at.
unfoldable pub walk : List ℕ → ℕ → List ℕ → ℕ → Result RingError (List ℕ × ℕ)
walk successors zero visited node = ok (visited, node)
walk successors (suc left) visited node = do
  refuse_if (is_visited node visited) closes_early
  refuse_if (leb (length successors) node) index_error
  walk successors left (node ∷ visited) (get_or successors node 0)

unfoldable pub make_successors : List ℕ → Result RingError (List ℕ)
make_successors order = do
  successors ← link order order 0 (replicate (length order) 0)
  (visited, node) ← walk successors (length order) [] 0
  refuse_if (not (node == 0) || not (length visited == length order)) not_one_ring
  ok successors

-- The lines that reserve `n` zero bytes, name the first pointer and store the pointer to
-- `pointer_chase_arena + n`.
pub data Line : Type 0 where
  zero_bytes : ℕ → Line
  start_label : Line
  quad : ℕ → Line

abbrev pub zero_line : ℕ → List Line → List Line
zero_line n lines = if n == 0 then lines else zero_bytes n ∷ lines

-- The loop over the successors, from `node` on.
unfoldable pub node_lines : ℕ → List ℕ → ℕ → List ℕ → List Line
node_lines stride offsets node [] = []
node_lines stride offsets node (successor ∷ rest) =
    let offset = get_or offsets node 0 in
    let target = successor * stride + get_or offsets successor 0 in
    let later = zero_line (stride - offset - 8) (node_lines stride offsets (node + 1) rest) in
    zero_line offset (if node == 0 then start_label ∷ quad target ∷ later else quad target ∷ later)

-- `[rng.bounded(limit) * 8 for _ in range(left)]`
unfoldable pub draw_offsets : ℕ → ℕ → ℕ → List ℕ
draw_offsets limit zero s = []
draw_offsets limit (suc left) s =
    let (value, state) = bounded limit s in value * 8 ∷ draw_offsets limit left state

unfoldable pub emit : ℕ → ℕ → ℕ → ℕ → Result RingError (List Line)
emit byte_count stride locality seed = do
  refuse_if (byte_count == 0 || (stride == 0 || locality == 0)) not_positive
  refuse_if (ltb stride 8 || not (stride % 8 == 0)) bad_stride
  refuse_if (not (byte_count % stride == 0)) bad_bytes
  refuse_if (not (locality % stride == 0)) bad_locality
  let nodes = byte_count / stride
  (order, state) ← make_order nodes (locality / stride) (seed % 2 ^ 64)
  successors ← make_successors order
  let offsets = draw_offsets (stride / 8 - 1) nodes state
  ok (node_lines stride offsets 0 successors)
