-- ===== src/Signposts/Render.antt =====
-- The texts of tools/linux_boot_signposts.py. The decimals of a number of cycles that is no whole number
-- of millions are those of floating point, a parameter.
use open_rv.Prelude.{
  ℕ, ◌/◌, ◌%◌, Option, none, some, List, [], ◌∷◌, ◌++◌, ◌==◌, if◌then◌else◌, codes,
}
use open_rv.Text.{Text, format_decimal}
use open_rv.Signposts.{Progress, Exact, Signpost}

-- The separator between the lines, and that between the columns of a table.
abbrev newline : Text
newline = 10 ∷ []

abbrev tab : Text
tab = 9 ∷ []

-- `separator.join(parts)`
abbrev pub join : Text → List Text → Text
join separator [] = []
join separator (part ∷ []) = part
join separator (part ∷ next ∷ parts) = part ++ (separator ++ join separator (next ∷ parts))

module _ (decimals : ℕ → Text) where
  unfoldable pub format_cycles : ℕ → Text
  format_cycles cycles =
      if cycles % 1000000 == 0
      then format_decimal (cycles / 1000000) ++ codes "M"
      else decimals cycles ++ codes "M"

  -- A value, a range, or a bound on one side.
  unfoldable pub range_text : (ℕ → Text) → Option ℕ → Option ℕ → Option ℕ → Text
  range_text show (some exact) lower upper = show exact
  range_text show none (some lower) (some upper) =
      if lower == upper then show lower else show lower ++ (codes ".." ++ show upper)
  range_text show none (some lower) none = codes ">=" ++ show lower
  range_text show none none (some upper) = codes "<=" ++ show upper
  range_text show none none none = codes "unknown"

  abbrev exact_cycles : Option Exact → Option ℕ
  exact_cycles none = none
  exact_cycles (some exact) = some exact.cycles

  abbrev exact_instret : Option Exact → Option ℕ
  exact_instret none = none
  exact_instret (some exact) = some exact.instret

  abbrev cycles_of : Option Progress → Option ℕ
  cycles_of none = none
  cycles_of (some p) = some p.cycles

  abbrev instret_of : Option Progress → Option ℕ
  instret_of none = none
  instret_of (some p) = some p.instret

  unfoldable pub cycle_text : Signpost → Text
  unfolding format_cycles range_text
  cycle_text s =
      range_text format_cycles (exact_cycles s.exact) (cycles_of s.lower) (cycles_of s.upper)

  unfoldable pub instret_text : Signpost → Text
  unfolding range_text
  instret_text s =
      range_text format_decimal (exact_instret s.exact) (instret_of s.lower) (instret_of s.upper)

  markdown_row : Signpost → Text
  unfolding cycle_text instret_text
  markdown_row s = join (codes " | ") (
      (codes "| " ++ s.marker.description)
      ∷ cycle_text s
      ∷ instret_text s
      ∷ (format_decimal s.line ++ codes " |")
      ∷ [])

  abbrev markdown_rows : List Signpost → List Text
  markdown_rows [] = []
  markdown_rows (s ∷ signposts) = markdown_row s ∷ markdown_rows signposts

  abbrev or_none_recognized : List Text → List Text
  or_none_recognized [] = codes "| No recognized signposts | unknown | unknown | - |" ∷ []
  or_none_recognized (row ∷ rows) = row ∷ rows

  markdown_lines : List (Text × List Signpost) → List Text
  unfolding markdown_row
  markdown_lines [] = []
  markdown_lines ((path, signposts) ∷ groups) =
      (codes "### `" ++ (path ++ codes "`"))
      ∷ []
      ∷ codes "| Signpost | Cycles | Instructions retired | Log line |"
      ∷ codes "|---|---:|---:|---:|"
      ∷ (or_none_recognized (markdown_rows signposts) ++ ([] ∷ markdown_lines groups))

  unfoldable pub render_markdown : List (Text × List Signpost) → Text
  unfolding markdown_lines
  render_markdown groups = join newline (markdown_lines groups)

  tsv_rows : Text → List Signpost → List Text
  unfolding cycle_text instret_text
  tsv_rows path [] = []
  tsv_rows path (s ∷ signposts) =
      join tab (
        path
        ∷ s.marker.name
        ∷ s.marker.description
        ∷ cycle_text s
        ∷ instret_text s
        ∷ format_decimal s.line
        ∷ [])
      ∷ tsv_rows path signposts

  tsv_lines : List (Text × List Signpost) → List Text
  unfolding tsv_rows
  tsv_lines [] = []
  tsv_lines ((path, signposts) ∷ groups) = tsv_rows path signposts ++ tsv_lines groups

  unfoldable pub render_tsv : List (Text × List Signpost) → Text
  unfolding tsv_lines
  render_tsv groups =
      join newline (
        join tab (
          codes "log"
          ∷ codes "name"
          ∷ codes "description"
          ∷ codes "cycles"
          ∷ codes "instret"
          ∷ codes "line"
          ∷ [])
        ∷ tsv_lines groups)
      ++ newline
