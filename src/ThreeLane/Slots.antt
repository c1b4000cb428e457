-- ===== src/ThreeLane/Slots.antt =====
-- What the checks of `load` in tools/pipeline_trace_3p.py establish of the slots of a row.
use open_rv.Prelude.{
  ℕ, ◌≡◌, ◌≢◌, inl, inr, refl, sym, ap, subst, ◌∙◌, arith, true, not, ◌&&◌, Option, none, some,
  List, [], ◌∷◌, ok, ◌==◌, codes, All, Bool-cases, if_split, refuse_if-eq-ok, >>=-eq-ok,
}
use open_rv.PipelineTrace.{CsvRow}
use open_rv.ThreeLane.Tables.{Stage}
use open_rv.ThreeLane.{
  column, parse, Cells, Slot, Identities, is_valid, is_tracked, put_identity, note_identity,
  check_slot, load_slot, load_slots,
}

abbrev place_of : Slot → Stage × ℕ
place_of slot = (slot.stage, slot.lane)

abbrev pub places_of : List Slot → List (Stage × ℕ)
places_of [] = []
places_of (slot ∷ slots) = place_of slot ∷ places_of slots

-- What is noted stays.
unfoldable pub Extends : Identities → Identities → Type 0
Extends old new = (uid : ℕ) (known : ℕ × ℕ) → old uid ≡ some known → new uid ≡ some known

-- A slot against the identities noted so far.
unfoldable pub IsNoted : Identities → Cells → Slot → Type 0
IsNoted identities cells slot =
    is_valid cells slot ≡ true
    → (slot.uid ≢ 0)
      × (is_tracked slot.stage ≡ true → identities slot.uid ≡ some (slot.pc, slot.instr))

IsNoted-Extends-head :
    (old new : Identities) (cells : Cells)
    → Extends old new
    → (slot : Slot) → IsNoted old cells slot
    → IsNoted new cells slot
unfolding Extends IsNoted
IsNoted-Extends-head old new cells more slot h valid =
    let (nonzero, known) = h valid in
    (nonzero, λ tracked. more slot.uid (slot.pc, slot.instr) (known tracked))

pub IsNoted-Extends :
    (old new : Identities) (cells : Cells)
    → Extends old new
    → (slots : List Slot) → All (IsNoted old cells) slots
    → All (IsNoted new cells) slots
unfolding Extends IsNoted
IsNoted-Extends old new cells more [] all = tt
IsNoted-Extends old new cells more (slot ∷ slots) (first, all) = (
  IsNoted-Extends-head old new cells more slot first,
  IsNoted-Extends old new cells more slots all,
)

put_identity_lem :
    (slot : Slot) (identities : Identities)
    → identities slot.uid ≡ none
    → Extends identities (put_identity slot identities)
      × (put_identity slot identities slot.uid ≡ some (slot.pc, slot.instr))
unfolding Extends
put_identity_lem slot identities e = (
  (λ uid known h. elim (Bool-cases (uid == slot.uid)) [
    | inl hit ↦
        let same : uid ≡ slot.uid = grind arith in
        let clash : identities slot.uid ≡ some known = sym (ap identities same) ∙ h in cc
    | inr miss ↦ rw miss h
  ]),
  (let hit : (slot.uid == slot.uid) ≡ true = ground arith in rw hit refl),
)

note_identity_lem :
    (line_number : ℕ) (slot : Slot) (old : Option (ℕ × ℕ)) (identities noted : Identities)
    → identities slot.uid ≡ old
    → note_identity line_number slot old identities ≡ ok noted
    → Extends identities noted × (noted slot.uid ≡ some (slot.pc, slot.instr))
unfolding Extends
note_identity_lem line_number slot none identities noted e h =
    let same : put_identity slot identities ≡ noted = cc in
    subst (λ n. Extends identities n × (n slot.uid ≡ some (slot.pc, slot.instr))) same
      (put_identity_lem slot identities e)
note_identity_lem line_number slot (some (pc, instr)) identities noted e h =
    let (agree, done) =
      refuse_if-eq-ok (not (pc == slot.pc && instr == slot.instr)) _ (ok identities) h in
    let same : identities ≡ noted = cc in
    let same_pc : pc ≡ slot.pc = grind arith in
    let same_instr : instr ≡ slot.instr = grind arith in
    subst (λ n. Extends identities n × (n slot.uid ≡ some (slot.pc, slot.instr))) same
      ((λ uid known k. k), e ∙ ap some (cc))

check_valid_lem :
    (line_number : ℕ) (slot : Slot) (identities noted : Identities)
    → check_slot line_number true slot identities ≡ ok noted
    → Extends identities noted
      × (slot.uid ≢ 0)
      × (is_tracked slot.stage ≡ true → noted slot.uid ≡ some (slot.pc, slot.instr))
unfolding check_slot Extends
check_valid_lem line_number slot identities noted h =
    let (nonzero, done) = refuse_if-eq-ok (slot.uid == 0) _ _ h in
    let uid : slot.uid ≢ 0 = ground arith in
    elim (if_split (is_tracked slot.stage) _ _ done) [
      | inl (tracked, step) ↦
          let (more, known) =
            note_identity_lem line_number slot (identities slot.uid) identities noted refl step in
          (more, uid, (λ _. known))
      | inr (tentative, step) ↦
          let same : identities ≡ noted = cc in
          (subst (Extends identities) same (λ uid known k. k), uid, (λ tracked. cc))
    ]

check_slot_lem :
    (line_number : ℕ) (cells : Cells) (slot : Slot) (identities noted : Identities)
    → check_slot line_number (is_valid cells slot) slot identities ≡ ok noted
    → Extends identities noted × IsNoted noted cells slot
unfolding check_slot Extends IsNoted
check_slot_lem line_number cells slot identities noted h = elim (Bool-cases (is_valid cells slot)) [
  | inl valid ↦
      let step = subst (λ b. check_slot line_number b slot identities ≡ ok noted) valid h in
      let (more, nonzero, known) = check_valid_lem line_number slot identities noted step in
      (more, (λ _. (nonzero, known)))
  | inr idle ↦
      let step = subst (λ b. check_slot line_number b slot identities ≡ ok noted) idle h in
      let same : identities ≡ noted = cc in
      (subst (Extends identities) same (λ uid known k. k), (λ valid. cc))
]

load_slot_lem :
    (raw : CsvRow) (stage : Stage) (lane : ℕ) (slot : Slot)
    → load_slot raw stage lane ≡ ok slot
    → place_of slot ≡ (stage, lane)
unfolding load_slot
load_slot_lem raw stage lane slot h =
    let (uid, _, h1) = >>=-eq-ok (parse raw 16 (column stage lane (codes "_uid"))) _ h in
    let (pc, _, h2) = >>=-eq-ok (parse raw 16 (column stage lane (codes "_pc"))) _ h1 in
    let (instr, _, h3) = >>=-eq-ok (parse raw 16 (column stage lane (codes "_instr"))) _ h2 in
    let same : record { stage = stage; lane = lane; uid = uid; pc = pc; instr = instr } ≡ slot =
      cc in
    sym (ap place_of same)

pub load_slots_lem :
    (line_number : ℕ) (raw : CsvRow) (cells : Cells) (spots : List (Stage × ℕ))
    (identities : Identities) (slots : List Slot) (final : Identities)
    → load_slots line_number raw cells spots identities ≡ ok (slots, final)
    → Extends identities final × (places_of slots ≡ spots) × All (IsNoted final cells) slots
unfolding load_slots Extends
load_slots_lem line_number raw cells [] identities slots final h =
    let same : identities ≡ final = cc in
    let none_read : [] ≡ slots = cc in
    (
      subst (Extends identities) same (λ uid known k. k),
      sym (ap places_of none_read),
      subst (All (IsNoted final cells)) none_read tt,
    )
load_slots_lem line_number raw cells ((stage, lane) ∷ spots) identities slots final h =
    let (slot, slot_read, h1) = >>=-eq-ok (load_slot raw stage lane) _ h in
    let (noted, checked, h2) =
      >>=-eq-ok (check_slot line_number (is_valid cells slot) slot identities) _ h1 in
    let ((rest, end), rest_read, h3) =
      >>=-eq-ok (load_slots line_number raw cells spots noted) _ h2 in
    let (more, noted_slot) = check_slot_lem line_number cells slot identities noted checked in
    let (later, order, all) = load_slots_lem line_number raw cells spots noted rest end rest_read in
    let same_slots : (slot ∷ rest) ≡ slots = cc in
    let same_final : end ≡ final = cc in
    subst
      (λ xs.
        Extends identities final
        × (places_of xs ≡ (stage, lane) ∷ spots)
        × All (IsNoted final cells) xs)
      same_slots
      (subst
        (λ n.
          Extends identities n
          × (place_of slot ∷ places_of rest ≡ (stage, lane) ∷ spots)
          × All (IsNoted n cells) (slot ∷ rest))
        same_final
        (
          (λ uid known k. later uid known (more uid known k)),
          ap (λ p. p ∷ places_of rest) (load_slot_lem raw stage lane slot slot_read)
              ∙ ap (λ ps. (stage, lane) ∷ ps) order,
          (IsNoted-Extends-head noted end cells later slot noted_slot, all),
        ))
