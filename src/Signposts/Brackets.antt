-- ===== src/Signposts/Brackets.antt =====
-- The brackets that `extract` of tools/linux_boot_signposts.py puts round its signposts.
use open_rv.Prelude.{
  ℕ, suc, ◌≤◌, ◌<◌, ◌≡◌, ◌⊎◌, inl, inr, refl, sym, ap, subst, ◌∙◌, arith, Option, none, some, List,
  [], ◌∷◌, map, leb, get_elem?, All, All-map, Bool-cases,
}
use open_rv.Text.{Text}
use open_rv.Symbols.{bisect_right}
use open_rv.Signposts.{
  Marker, Progress, Exact, Patterns, Signpost, sort_progress, scan_progress, scan_exact,
  marker_line, line_of, exact_entry, before, place, place_if, place_all, markers, extract,
}
use open_rv.Signposts.Sorted.{
  IsAmong, IsLower, IsUpper, IsSorted, sort-IsSorted, sort-IsLower, sort-IsUpper,
}

abbrev line_numbers : List Progress → List ℕ
line_numbers = map (λ (p : Progress). p.line)

-- Where `bisect_right` stops, and the record before it.
abbrev IsStop : List Progress → ℕ → ℕ → Type 0
IsStop progress line position =
    ((position ≡ 0) × All (λ p. line < p.line) progress)
    ⊎ ((k : ℕ) × (p : Progress) × (position ≡ suc k)
        × (get_elem? progress k ≡ some p)
        × IsLower progress line (some p))

All-IsAmong :
    (P : Progress → Type 0) (q : Progress) (progress : List Progress)
    → All P progress
    → IsAmong q progress
    → P q
All-IsAmong P q [] all h = absurd h
All-IsAmong P q (p ∷ progress) (first, all) (inl same) = subst P (sym same) first
All-IsAmong P q (p ∷ progress) (first, all) (inr later) = All-IsAmong P q progress all later

IsStop-cons :
    (p : Progress) (progress : List Progress) (line position : ℕ)
    → p.line ≤ line
    → All (λ q. p.line ≤ q.line) progress
    → IsStop progress line position
    → IsStop (p ∷ progress) line (suc position)
IsStop-cons p progress line position le all (inl (e, above)) = inr (
  position,
  p,
  refl,
  ap (get_elem? (p ∷ progress)) e,
  (le, inl refl, (λ _. omega arith, All-map _ _ progress (λ q lt low. absurd (omega arith)) above)),
)
IsStop-cons p progress line position le all (inr (k, q, e, there, (low, among, greatest))) = inr (
  position,
  q,
  refl,
  ap (get_elem? (p ∷ progress)) e ∙ there,
  (low, inr among, (λ _. All-IsAmong (λ r. p.line ≤ r.line) q progress all among, greatest)),
)

bisect_right-IsStop :
    (progress : List Progress) (line : ℕ)
    → IsSorted progress
    → IsStop progress line (bisect_right (line_numbers progress) line)
unfolding bisect_right
bisect_right-IsStop [] line h = inl (refl, tt)
bisect_right-IsStop (p ∷ progress) line (all, h) = elim (Bool-cases (leb p.line line)) [
  | inl e ↦
      rw e (IsStop-cons p progress line _ (ground arith) all (bisect_right-IsStop progress line h))
  | inr e ↦
      let above : line < p.line = ground arith in
      rw e (
        inl (
          refl,
          (
            above,
            All-map (λ q. p.line ≤ q.line) (λ q. line < q.line) progress (λ q le. omega arith) all,
          ),
        ))
]

IsUpper-cons :
    (p : Progress) (progress : List Progress) (line : ℕ) (upper : Option Progress)
    → p.line ≤ line
    → IsUpper progress line upper
    → IsUpper (p ∷ progress) line upper
IsUpper-cons p progress line none le all = (le, all)
IsUpper-cons p progress line (some u) le (above, among, least) =
    (above, inr among, (λ h. absurd (omega arith), least))

bisect_right-IsUpper :
    (progress : List Progress) (line : ℕ)
    → IsSorted progress
    → IsUpper progress line (get_elem? progress (bisect_right (line_numbers progress) line))
unfolding bisect_right
bisect_right-IsUpper [] line h = tt
bisect_right-IsUpper (p ∷ progress) line (all, h) = elim (Bool-cases (leb p.line line)) [
  | inl e ↦
      rw e (IsUpper-cons p progress line _ (ground arith) (bisect_right-IsUpper progress line h))
  | inr e ↦
      let above : line < p.line = ground arith in
      rw e (
        above,
        inl refl,
        (
          λ _. omega arith,
          All-map (λ q. p.line ≤ q.line) (λ q. line < q.line → p.line ≤ q.line) progress
              (λ q le _. le) all,
        ),
      )
]

before-IsLower :
    (patterns : Patterns) (progress : List Progress) (line position : ℕ)
    → IsStop progress line position
    → IsLower progress line (before patterns progress position)
before-IsLower patterns progress line position (inl (e, above)) =
    subst (λ k. IsLower progress line (before patterns progress k)) (sym e) above
before-IsLower patterns progress line position (inr (k, p, e, there, lower)) =
    subst (IsLower progress line) (sym (ap (before patterns progress) e ∙ there)) lower

abbrev pub IsBracketed : List Progress → Signpost → Type 0
IsBracketed progress s = IsLower progress s.line s.lower × IsUpper progress s.line s.upper

place-IsBracketed :
    (patterns : Patterns) (progress : List Progress) (m : Marker) (number : ℕ)
    (exact : Option Exact)
    → IsBracketed progress (place patterns (sort_progress progress) m number exact)
unfolding place
place-IsBracketed patterns progress m number exact =
    let sorted = sort-IsSorted progress in
    let stop = bisect_right-IsStop (sort_progress progress) number sorted in
    let lower = before-IsLower patterns (sort_progress progress) number _ stop in
    let upper = bisect_right-IsUpper (sort_progress progress) number sorted in
    (sort-IsLower progress number _ lower, sort-IsUpper progress number _ upper)

place_if-IsBracketed :
    (patterns : Patterns) (progress : List Progress) (m : Marker) (exact : Option Exact)
    (line : Option ℕ) (found : List Signpost)
    → All (IsBracketed progress) found
    → All (IsBracketed progress) (place_if patterns (sort_progress progress) m exact line found)
place_if-IsBracketed patterns progress m exact none found all = all
place_if-IsBracketed patterns progress m exact (some number) found all =
    (place-IsBracketed patterns progress m number exact, all)

place_all-IsBracketed :
    (patterns : Patterns) (progress : List Progress) (exact : Text → Option Exact)
    (lines : List Text) (ms : List Marker)
    → All (IsBracketed progress) (place_all patterns (sort_progress progress) exact lines ms)
unfolding place_all
place_all-IsBracketed patterns progress exact lines [] = tt
place_all-IsBracketed patterns progress exact lines (m ∷ ms) =
    place_if-IsBracketed patterns progress m (exact_entry patterns exact m)
      (line_of patterns (marker_line patterns m 1 lines) (exact_entry patterns exact m))
      (place_all patterns (sort_progress progress) exact lines ms)
      (place_all-IsBracketed patterns progress exact lines ms)

-- Of each signpost, `lower` is a progress record with the greatest line up to that of the
-- signpost, and `upper` one with the smallest line behind it; either is missing only if there is
-- no such record.
pub extract-IsBracketed :
    (patterns : Patterns) (lines : List Text)
    → All (IsBracketed (scan_progress patterns 1 lines)) (extract patterns lines)
unfolding extract
extract-IsBracketed patterns lines =
    place_all-IsBracketed patterns (scan_progress patterns 1 lines)
      (scan_exact patterns 1 lines (λ name. none)) lines markers
