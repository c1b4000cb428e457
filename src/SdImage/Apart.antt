-- ===== src/SdImage/Apart.antt =====
-- The ranges of sectors that `decode_header` of tools/make-fpga-sd-image.py sorts and compares.
use open_rv.Prelude.{
  ◌+◌, ◌≤◌, ◌≡◌, refl, ◌⊎◌, inl, inr, List, [], ◌∷◌, ok, refuse_if-eq-ok, arith, All, Bool-cases,
  ltb,
}
use open_rv.SdImage.{Entry, overlap}
use open_rv.SdImage.Verify.{Range, range_of, range_le, insert_range, sort_ranges, check_overlap}

-- Two ranges of sectors share no sector.
abbrev IsApart : Range → Range → Type 0
IsApart a b = (a.end ≤ b.start) ⊎ (b.end ≤ a.start)

abbrev Apart : Range → List Range → Type 0
Apart r = All (IsApart r)

abbrev AllApart : List Range → Type 0
AllApart [] = Unit
AllApart (r ∷ rs) = Apart r rs × AllApart rs

IsApart-symm : (a b : Range) → IsApart a b → IsApart b a
IsApart-symm a b (inl h) = inr h
IsApart-symm a b (inr h) = inl h

Apart-insert_range :
    (q r : Range) (rs : List Range) → Apart q (insert_range r rs) → IsApart q r × Apart q rs
unfolding insert_range
Apart-insert_range q r [] h = h
Apart-insert_range q r (s ∷ rs) h = elim (Bool-cases (range_le r s)) [
  | inl e ↦ rw e at h
  | inr e ↦
      let (first, rest) : IsApart q s × Apart q (insert_range r rs) = rw e at h in
      let (here, more) = Apart-insert_range q r rs rest in (here, (first, more))
]

AllApart-insert_range :
    (r : Range) (rs : List Range) → AllApart (insert_range r rs) → Apart r rs × AllApart rs
unfolding insert_range
AllApart-insert_range r [] h = h
AllApart-insert_range r (s ∷ rs) h = elim (Bool-cases (range_le r s)) [
  | inl e ↦ rw e at h
  | inr e ↦
      let (first, rest) : Apart s (insert_range r rs) × AllApart (insert_range r rs) = rw e at h in
      let (here, more) = Apart-insert_range s r rs first in
      let (others, apart) = AllApart-insert_range r rs rest in
      ((IsApart-symm s r here, others), (more, apart))
]

abbrev IsForward : Range → Type 0
IsForward r = r.start ≤ r.end

insert_range-IsForward :
    (r : Range) (rs : List Range)
    → IsForward r
    → All IsForward rs
    → All IsForward (insert_range r rs)
unfolding insert_range
insert_range-IsForward r [] h hs = (h, tt)
insert_range-IsForward r (s ∷ rs) h (hs, more) = ground (arith, insert_range-IsForward r rs h more)

pub sort_ranges-IsForward : (entries : List Entry) → All IsForward (sort_ranges entries)
unfolding sort_ranges
sort_ranges-IsForward [] = tt
sort_ranges-IsForward (e ∷ entries) =
    insert_range-IsForward (range_of e) (sort_ranges entries) (omega arith)
      (sort_ranges-IsForward entries)

abbrev IsBefore : Range → Range → Type 0
IsBefore a b = a.end ≤ b.start

All-IsBefore :
    (q r : Range) (rs : List Range) → q.end ≤ r.end → All (IsBefore r) rs → All (IsBefore q) rs
All-IsBefore q r [] h hs = tt
All-IsBefore q r (s ∷ rs) h (first, hs) = (omega arith, All-IsBefore q r rs h hs)

check_overlap-IsBefore :
    (r : Range) (rs : List Range)
    → All IsForward rs
    → check_overlap (r ∷ rs) ≡ ok tt
    → All (IsBefore r) rs × (check_overlap rs ≡ ok tt)
unfolding check_overlap
check_overlap-IsBefore r [] hs h = (tt, refl)
check_overlap-IsBefore r (s ∷ rs) (forward, hs) h =
    let (apart, more) =
      refuse_if-eq-ok (ltb s.start r.end) (overlap r.tag s.tag) (check_overlap (s ∷ rs)) h in
    let near : r.end ≤ s.start = ground arith in
    let (before, _) = check_overlap-IsBefore s rs hs more in
    ((near, All-IsBefore r s rs (omega arith) before), more)

Apart-of_before : (r : Range) (rs : List Range) → All (IsBefore r) rs → Apart r rs
Apart-of_before r [] h = tt
Apart-of_before r (s ∷ rs) (first, h) = (inl first, Apart-of_before r rs h)

pub check_overlap-AllApart :
    (rs : List Range) → All IsForward rs → check_overlap rs ≡ ok tt → AllApart rs
check_overlap-AllApart [] hs h = tt
check_overlap-AllApart (r ∷ rs) (forward, hs) h =
    let (before, more) = check_overlap-IsBefore r rs hs h in
    (Apart-of_before r rs before, check_overlap-AllApart rs hs more)

-- No sector belongs to two entries.
abbrev pub IsDisjoint : Entry → Entry → Type 0
IsDisjoint a b = (a.lba + a.sector_count ≤ b.lba) ⊎ (b.lba + b.sector_count ≤ a.lba)

abbrev pub AllDisjoint : List Entry → Type 0
AllDisjoint [] = Unit
AllDisjoint (e ∷ entries) = All (IsDisjoint e) entries × AllDisjoint entries

Apart-sort_ranges :
    (e : Entry) (entries : List Entry)
    → Apart (range_of e) (sort_ranges entries)
    → All (IsDisjoint e) entries
unfolding sort_ranges
Apart-sort_ranges e [] h = tt
Apart-sort_ranges e (f ∷ entries) h =
    let (first, rest) = Apart-insert_range (range_of e) (range_of f) (sort_ranges entries) h in
    (first, Apart-sort_ranges e entries rest)

pub AllApart-sort_ranges :
    (entries : List Entry) → AllApart (sort_ranges entries) → AllDisjoint entries
unfolding sort_ranges
AllApart-sort_ranges [] h = tt
AllApart-sort_ranges (e ∷ entries) h =
    let (first, rest) = AllApart-insert_range (range_of e) (sort_ranges entries) h in
    (Apart-sort_ranges e entries first, AllApart-sort_ranges entries rest)
