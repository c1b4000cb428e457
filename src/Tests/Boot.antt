-- ===== src/Tests/Boot.antt =====
-- A boot log with three progress records, two markers and one exact record.
use open_rv.Prelude.{◌≡◌, refl, none, List, [], ◌∷◌, map, codes, All, if◌then◌else◌}
use open_rv.Text.{Text, text_eq, format_decimal, reverse_onto, decimal_reversed}
use open_rv.Symbols.{bisect_right}
use open_rv.Signposts.{Patterns, Signpost, scan_progress, extract}
use open_rv.Signposts.Brackets.{IsBracketed, extract-IsBracketed}
use open_rv.Signposts.Render.{cycle_text}

abbrev patterns : Patterns
patterns = record {
  progress = λ line.
      if text_eq line (codes "early")
      then (1000000, 10, 0x80000000) ∷ []
      else if text_eq line (codes "late")
      then (3000000, 30, 0x80000004) ∷ (4000000, 40, 0x80000008) ∷ []
      else [];
  exact = λ line.
      if text_eq line (codes "signpost") then (codes "linux-init", 2500000, 25, none) ∷ [] else [];
  finds = λ m line. text_eq m.name line;
}

abbrev log : List Text
log =
    codes "early"
    ∷ codes "linux"
    ∷ codes "noise"
    ∷ codes "signpost"
    ∷ codes "late"
    ∷ codes "bash"
    ∷ codes "linux"
    ∷ []

extract-log : map (λ (s : Signpost). s.line) (extract patterns log) ≡ 2 ∷ 4 ∷ 6 ∷ []
unfolding extract
extract-log = refl

cycle_text-log :
    map (cycle_text (λ cycles. codes "2.5")) (extract patterns log)
    ≡ codes "1M..3M" ∷ codes "2.5M" ∷ codes ">=4M" ∷ []
unfolding extract cycle_text bisect_right format_decimal reverse_onto decimal_reversed
cycle_text-log = refl

extract-IsBracketed_example :
    All (IsBracketed (scan_progress patterns 1 log)) (extract patterns log)
extract-IsBracketed_example = extract-IsBracketed patterns log
