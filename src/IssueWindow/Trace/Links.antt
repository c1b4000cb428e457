-- ===== src/IssueWindow/Trace/Links.antt =====
-- The operands and the memory order that `load_trace` of tools/issue_window_experiment.py finds.
use open_rv.Prelude.{
  ℕ, zero, suc, ◌+◌, ◌≡◌, ◌≢◌, ◌↔◌, ◌⊎◌, refl, sym, ap, subst, ◌∙◌, inl, inr, arith, Bool, true,
  false, ◌||◌, Option, none, some, List, [], ◌∷◌, ◌++◌, ok, >>=-eq-ok, ◌==◌, get_elem?, Bool-cases,
}
use open_rv.IssueWindow.{DynamicInstruction, opcode, is_mem, contains}
use open_rv.IssueWindow.Trace.{TraceRow, no_tables, read_rows}
use open_rv.IssueWindow.Trace.Extract.{
  extract, Seen, producer, add_dep, link, note, nothing_seen, link_all, finish, load_trace, Stats,
}
use open_rv.IssueWindow.Trace.Totals.{finish_ok}
use open_rv.IssueWindow.Trace.Latest.{
  IsLatest, latest-IsLatest, IsLatest-latest, writes, accesses, IsHistory, note-IsHistory,
  IsLatest-same, start-IsHistory,
}

-- `d` is the instruction whose result a used register holds at `i`.
abbrev pub IsProducer : (ℕ → Option DynamicInstruction) → ℕ → Bool → ℕ → ℕ → Type 0
IsProducer at i uses reg d = (uses ≡ true) × (reg ≢ 0) × IsLatest (writes at reg) i d

abbrev pub IsLinked : (ℕ → Option DynamicInstruction) → ℕ → DynamicInstruction → Type 0
IsLinked at i x =
    ((d : ℕ)
      → (contains x.deps d ≡ true)
        ↔ (IsProducer at i x.uses_rs1 x.rs1 d ⊎ IsProducer at i x.uses_rs2 x.rs2 d))
    × (is_mem x ≡ true → (d : ℕ) → (x.previous_mem ≡ some d) ↔ IsLatest (accesses at) i d)

none_contained : (d : ℕ) → contains [] d ≢ true
unfolding contains
none_contained d h = cc

contains-snoc :
    (deps : List ℕ) (k d : ℕ) → contains (deps ++ (k ∷ [])) d ≡ (contains deps d || k == d)
unfolding contains
contains-snoc [] k d = ground arith
contains-snoc (x ∷ deps) k d = let rest = contains-snoc deps k d in ground arith

contains-add_dep :
    (o : Option ℕ) (deps : List ℕ) (d : ℕ)
    → (contains (add_dep o deps) d ≡ true) ↔ ((contains deps d ≡ true) ⊎ (o ≡ some d))
unfolding add_dep
contains-add_dep none deps d = (λ h. inl h, λ h. ground arith)
contains-add_dep (some k) deps d = elim (Bool-cases (contains deps k)) [
  | inl there ↦ rw there (
    λ h. inl h,
    λ h. elim h [
      | inl old ↦ old
      | inr e ↦ let same : k ≡ d = ground arith in subst (λ j. contains deps j ≡ true) same there
    ],
  )
  | inr missing ↦ let e = contains-snoc deps k d in rw (missing, e) (ground arith)
]

producer_iff :
    (at : ℕ → Option DynamicInstruction) (i : ℕ) (seen : Seen) (uses : Bool) (reg d : ℕ)
    → IsHistory at i seen
    → (producer seen.last_writer uses reg ≡ some d) ↔ IsProducer at i uses reg d
producer_iff at i seen false reg d h = (λ e. cc, λ (used, more, last). cc)
producer_iff at i seen true reg d h = elim (Bool-cases (reg == 0)) [
  | inl e ↦
      let zero_reg : reg ≡ 0 = ground arith in
      rw e (λ p. cc, λ (used, positive, last). absurd (positive zero_reg))
  | inr e ↦
      let positive : reg ≢ 0 = ground arith in
      let found = h.writer reg positive in
      rw e (
        λ p. (refl, positive, latest-IsLatest (writes at reg) i d (sym found ∙ p)),
        λ (used, _, last). found ∙ IsLatest-latest (writes at reg) i d last,
      )
]

is_mem-link : (seen : Seen) (x : DynamicInstruction) → is_mem (link seen x) ≡ is_mem x
unfolding is_mem opcode link
is_mem-link seen x = refl

link-IsLinked :
    (at : ℕ → Option DynamicInstruction) (i : ℕ) (seen : Seen) (x : DynamicInstruction)
    → IsHistory at i seen
    → IsLinked at i (link seen x)
unfolding link
link-IsLinked at i seen x h = (
  λ d.
      let (first, first') = contains-add_dep (producer seen.last_writer x.uses_rs1 x.rs1) [] d in
      let second =
        contains-add_dep (producer seen.last_writer x.uses_rs2 x.rs2)
          (add_dep (producer seen.last_writer x.uses_rs1 x.rs1) []) d in
      let (rs1, rs1') = producer_iff at i seen x.uses_rs1 x.rs1 d h in
      let (rs2, rs2') = producer_iff at i seen x.uses_rs2 x.rs2 d h in
      (
        λ there. elim (second.0 there) [
          | inl old ↦ elim (first old) [
            | inl old ↦ absurd (none_contained d old)
            | inr p ↦ inl (rs1 p)
          ]
          | inr p ↦ inr (rs2 p)
        ],
        λ produced. elim produced [
          | inl p ↦ second.1 (inl (first' (inr (rs1' p))))
          | inr p ↦ second.1 (inr (rs2' p))
        ],
      ),
  λ mem d.
      let is : is_mem x ≡ true = sym (is_mem-link seen x) ∙ mem in
      rw is (
        λ p. latest-IsLatest (accesses at) i d (sym h.mem ∙ p),
        λ last. h.mem ∙ IsLatest-latest (accesses at) i d last,
      ),
)

-- Where the instructions from `index` on stand.
abbrev IsRest : (ℕ → Option DynamicInstruction) → ℕ → List DynamicInstruction → Type 0
IsRest at index rest = (k : ℕ) → at (index + k) ≡ get_elem? rest k

link_all-IsLinked :
    (at : ℕ → Option DynamicInstruction) (index : ℕ) (seen : Seen) (rest : List DynamicInstruction)
    (k : ℕ) (x : DynamicInstruction)
    → IsRest at index rest
    → IsHistory at index seen
    → get_elem? (link_all index seen rest) k ≡ some x
    → IsLinked at (index + k) x
unfolding link_all
link_all-IsLinked at index seen [] k x rest h e = cc
link_all-IsLinked at index seen (y ∷ rest) zero x is_rest h e =
    let here : index ≡ index + 0 = omega arith in
    let same : link seen y ≡ x = ground arith in
    subst (λ i. IsLinked at i x) here
      (subst (IsLinked at index) same (link-IsLinked at index seen y h))
link_all-IsLinked at index seen (y ∷ rest) (suc k) x is_rest h e =
    let here : index + 0 ≡ index = omega arith in
    let there : suc index + k ≡ index + suc k = omega arith in
    let current : at index ≡ some y = ap at (sym here) ∙ is_rest 0 in
    let later : IsRest at (suc index) rest =
      λ j. let same : suc index + j ≡ index + suc j = omega arith in ap at same ∙ is_rest (suc j) in
    let counted : index + 1 ≡ suc index = omega arith in
    let rest_e : get_elem? (link_all (suc index) (note index seen y) rest) k ≡ some x =
      subst (λ n. get_elem? (link_all n (note index seen y) rest) k ≡ some x) counted e in
    subst (λ i. IsLinked at i x) there
      (link_all-IsLinked at (suc index) (note index seen y) rest k x later
        (note-IsHistory at index seen y current h) rest_e)

-- Linking changes neither what an instruction writes nor whether it accesses memory.
writes-link_all :
    (index : ℕ) (seen : Seen) (rest : List DynamicInstruction) (reg j : ℕ)
    → writes (get_elem? (link_all index seen rest)) reg j ≡ writes (get_elem? rest) reg j
unfolding link_all link
writes-link_all index seen [] reg j = refl
writes-link_all index seen (y ∷ rest) reg zero = refl
writes-link_all index seen (y ∷ rest) reg (suc j) =
    writes-link_all (index + 1) (note index seen y) rest reg j

accesses-link_all :
    (index : ℕ) (seen : Seen) (rest : List DynamicInstruction) (j : ℕ)
    → accesses (get_elem? (link_all index seen rest)) j ≡ accesses (get_elem? rest) j
unfolding link_all
accesses-link_all index seen [] j = refl
accesses-link_all index seen (y ∷ rest) zero = is_mem-link seen y
accesses-link_all index seen (y ∷ rest) (suc j) =
    accesses-link_all (index + 1) (note index seen y) rest j

IsProducer-same :
    (at to : ℕ → Option DynamicInstruction) (i : ℕ) (uses : Bool) (reg d : ℕ)
    → ((j : ℕ) → writes at reg j ≡ writes to reg j)
    → IsProducer at i uses reg d
    → IsProducer to i uses reg d
IsProducer-same at to i uses reg d same (used, positive, last) =
    (used, positive, IsLatest-same (writes at reg) (writes to reg) i d same last)

IsLinked-same :
    (at to : ℕ → Option DynamicInstruction) (i : ℕ) (x : DynamicInstruction)
    → ((reg j : ℕ) → writes at reg j ≡ writes to reg j)
    → ((j : ℕ) → accesses at j ≡ accesses to j)
    → IsLinked at i x
    → IsLinked to i x
IsLinked-same at to i x same same_mem (deps, mem) =
    let forth = λ (uses : Bool) (reg d : ℕ). IsProducer-same at to i uses reg d (same reg) in
    let back =
      λ (uses : Bool) (reg d : ℕ). IsProducer-same to at i uses reg d (λ j. sym (same reg j)) in
    (
      λ d. (
        λ h. elim ((deps d).0 h) [ inl p ↦ inl (forth _ _ d p) | inr p ↦ inr (forth _ _ d p) ],
        λ h. (deps d).1 (elim h [ inl p ↦ inl (back _ _ d p) | inr p ↦ inr (back _ _ d p) ]),
      ),
      λ is d. (
        λ h. IsLatest-same _ _ i d same_mem ((mem is d).0 h),
        λ last. (mem is d).1 (IsLatest-same _ _ i d (λ j. sym (same_mem j)) last),
      ),
    )

-- In a loaded trace the dependences of an instruction are exactly the last earlier writers of the
-- registers other than x0 that it uses, and the predecessor of a memory instruction is exactly
-- the last earlier one.
pub load_trace-IsLinked :
    (rows : List TraceRow) (instructions : List DynamicInstruction) (stats : Stats) (i : ℕ)
    (x : DynamicInstruction)
    → load_trace rows ≡ ok (instructions, stats)
    → get_elem? instructions i ≡ some x
    → IsLinked (get_elem? instructions) i x
unfolding load_trace
load_trace-IsLinked rows instructions stats i x h there =
    let (t, e, more) = >>=-eq-ok (read_rows rows no_tables) _ h in
    let (raw, e', last) = >>=-eq-ok (extract t t.committed) (finish t) more in
    let (linked, same) = finish_ok t raw instructions stats last in
    let there' : get_elem? (link_all 0 nothing_seen raw) i ≡ some x =
      ap (λ is. get_elem? is i) linked ∙ there in
    let at_i : 0 + i ≡ i = omega arith in
    let rest : IsRest (get_elem? raw) 0 raw =
      λ k. let e : 0 + k ≡ k = omega arith in ap (get_elem? raw) e in
    let found =
      link_all-IsLinked (get_elem? raw) 0 nothing_seen raw i x rest
        (start-IsHistory (get_elem? raw)) there' in
    subst (λ is. IsLinked (get_elem? is) i x) linked
      (IsLinked-same (get_elem? raw) (get_elem? (link_all 0 nothing_seen raw)) i x
        (λ reg j. sym (writes-link_all 0 nothing_seen raw reg j))
        (λ j. sym (accesses-link_all 0 nothing_seen raw j))
        (subst (λ j. IsLinked (get_elem? raw) j x) at_i found))
