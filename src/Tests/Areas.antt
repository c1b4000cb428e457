-- ===== src/Tests/Areas.antt =====
-- A design of four modules, in which two hold the same third one.
use open_rv.Prelude.{
  ℕ, ◌+◌, ◌<◌, ◌≡◌, refl, arith, Option, none, some, List, [], ◌∷◌, Result, ok, err, codes, All,
  take, drop, true, if◌then◌else◌,
}
use open_rv.Text.{Text, text_eq}
use open_rv.ParallelMap.{
  MapError, cycle, Patterns, Hierarchy, children_of, append_child, load_lines, load_hierarchy,
  all_present, Totals, add_children, sum_up, accumulate, accumulate_all, recursive_totals,
}
use open_rv.ParallelMap.Areas.{IsTotal, recursive_totals-IsTotal}
use open_rv.ParallelMap.Returns.{recursive_totals_returns}

-- A line is a module behind `m`, and a cell behind `c`.
abbrev behind : Text → Text → Option Text
behind mark line = if text_eq (take 1 line) mark then some (drop 1 line) else none

abbrev patterns : Patterns
patterns = record { module_match = behind (codes "m"); cell_match = behind (codes "c") }

abbrev lines : List Text
lines =
    codes "mt"
    ∷ codes "ca"
    ∷ codes "c\\b"
    ∷ codes "ma"
    ∷ codes "cu"
    ∷ codes "mb"
    ∷ codes "cu"
    ∷ codes "cu"
    ∷ codes "mu"
    ∷ []

abbrev hierarchy : Hierarchy
hierarchy =
    (codes "t", codes "a" ∷ codes "b" ∷ [])
    ∷ (codes "a", codes "u" ∷ [])
    ∷ (codes "b", codes "u" ∷ codes "u" ∷ [])
    ∷ []

load_hierarchy-lines : load_hierarchy patterns lines ≡ ok hierarchy
unfolding load_hierarchy load_lines append_child
load_hierarchy-lines = refl

abbrev modules : List Text
modules = codes "a" ∷ codes "b" ∷ codes "t" ∷ codes "u" ∷ []

-- The areas 1, 10, 100 and 1000.
abbrev direct : Text → Option (ℕ × ℕ)
direct name =
    if text_eq name (codes "a")
    then some (1, 0)
    else if text_eq name (codes "b")
    then some (10, 1)
    else if text_eq name (codes "t")
    then some (100, 2)
    else if text_eq name (codes "u")
    then some (1000, 3)
    else none

abbrev rank : Text → ℕ
rank name = if text_eq name (codes "t") then 2 else if text_eq name (codes "u") then 0 else 1

abbrev totals_or : Result MapError (Totals ℕ) → Totals ℕ
totals_or (err e) = λ name. none
totals_or (ok totals) = totals

abbrev plus : ℕ → ℕ → ℕ
plus a b = a + b

abbrev totals : Totals ℕ
totals = totals_or (recursive_totals plus direct hierarchy modules)

total_of-top : totals (codes "t") ≡ some (3111, 12)
unfolding recursive_totals all_present children_of accumulate_all accumulate sum_up add_children
total_of-top = refl

recursive_totals-cycle :
    recursive_totals plus direct
      ((codes "a", codes "b" ∷ []) ∷ (codes "b", codes "a" ∷ []) ∷ [])
      modules
    ≡ err (cycle (codes "a"))
unfolding recursive_totals all_present children_of accumulate_all accumulate sum_up add_children
recursive_totals-cycle = refl

recursive_totals-hierarchy : recursive_totals plus direct hierarchy modules ≡ ok totals
unfolding recursive_totals all_present children_of accumulate_all accumulate sum_up add_children
recursive_totals-hierarchy = refl

recursive_totals-IsTotal_example :
    All
      (λ name.
        (whole : ℕ × ℕ) × (totals name ≡ some whole)
        × IsTotal plus direct (children_of hierarchy) name whole)
      modules
recursive_totals-IsTotal_example =
    recursive_totals-IsTotal plus direct hierarchy modules totals recursive_totals-hierarchy

hierarchy_present : all_present modules hierarchy ≡ true
unfolding all_present
hierarchy_present = refl

falls : All (λ name. All (λ child. rank child < rank name) (children_of hierarchy name)) modules
unfolding children_of
falls = (
  (omega arith, tt),
  ((omega arith, (omega arith, tt)), ((omega arith, (omega arith, tt)), (tt, tt))),
)

recursive_totals_returns_example :
    (found : Totals ℕ) × (recursive_totals plus direct hierarchy modules ≡ ok found)
recursive_totals_returns_example =
    recursive_totals_returns plus direct hierarchy modules rank
      (((1, 0), refl), (((10, 1), refl), (((100, 2), refl), (((1000, 3), refl), tt))))
      hierarchy_present falls
