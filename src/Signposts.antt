-- ===== src/Signposts.antt =====
-- tools/linux_boot_signposts.py: the milestones of a boot log, each between the progress records around
-- it. What the regular expressions find in a line is a parameter.
pub mod Render
pub mod Brackets
pub mod Sorted
use open_rv.Prelude.{
  ℕ, zero, suc, ◌+◌, Bool, true, false, not, ◌&&◌, ◌||◌, Option, none, some, List, [], ◌∷◌, ◌++◌,
  map, ltb, ◌==◌, if◌then◌else◌, get_elem?, codes,
}
use open_rv.Text.{Text, text_eq}
use open_rv.Symbols.{bisect_right}

pub record Marker : Type 0 where
  pub name : Text
  pub description : Text

abbrev marker : Text → Text → Marker
marker name description = record { name = name; description = description }

-- `MARKERS`, without their patterns.
abbrev pub markers : List Marker
markers =
    marker (codes "opensbi") (codes "OpenSBI banner")
    ∷ marker (codes "linux") (codes "Linux banner")
    ∷ marker (codes "memory") (codes "kernel memory accounting")
    ∷ marker (codes "devtmpfs") (codes "devtmpfs initialized")
    ∷ marker (codes "plic") (codes "PLIC initialized")
    ∷ marker (codes "uart") (codes "8250 console initialized")
    ∷ marker (codes "initmem") (codes "kernel init memory freed")
    ∷ marker (codes "init") (codes "PID 1 started")
    ∷ marker (codes "bash") (codes "Bash prompt")
    ∷ []

pub record Progress : Type 0 where
  pub line : ℕ
  pub cycles : ℕ
  pub instret : ℕ
  pub pc : ℕ

-- The entry of an exact record.
pub record Exact : Type 0 where
  pub line : ℕ
  pub cycles : ℕ
  pub instret : ℕ
  pub pc : Option ℕ

-- The matches of `PROGRESS_RE` and `EXACT_RE` in a line, as the numbers of their groups and the name
-- of the latter, and whether the pattern of a marker is found in it.
pub record Patterns : Type 0 where
  pub progress : Text → List (ℕ × ℕ × ℕ)
  pub exact : Text → List (Text × ℕ × ℕ × Option ℕ)
  pub finds : Marker → Text → Bool

-- Without the path of the log. The exact numbers are those of the record that gave them.
pub record Signpost : Type 0 where
  pub marker : Marker
  pub line : ℕ
  pub exact : Option Exact
  pub lower : Option Progress
  pub upper : Option Progress

abbrev progress_at : ℕ → List (ℕ × ℕ × ℕ) → List Progress
progress_at number [] = []
progress_at number ((cycles, instret, pc) ∷ matches) =
    record { line = number; cycles = cycles; instret = instret; pc = pc }
    ∷ progress_at number matches

-- `exact.setdefault` for each match of a line.
abbrev note_exact : ℕ → List (Text × ℕ × ℕ × Option ℕ) → (Text → Option Exact) → Text → Option Exact
note_exact number [] exact = exact
note_exact number ((name, cycles, instret, pc) ∷ matches) exact =
    note_exact number matches (λ other. elim (exact other) [
      | some old ↦ some old
      | none ↦
          if text_eq other name
          then some (record { line = number; cycles = cycles; instret = instret; pc = pc })
          else none
    ])

-- `progress.sort(key=lambda item: item.line)`, which keeps equal lines in their order.
unfoldable pub insert_progress : Progress → List Progress → List Progress
insert_progress p [] = p ∷ []
insert_progress p (q ∷ progress) =
    let rest = insert_progress p progress in
    if ltb q.line p.line then q ∷ rest else p ∷ q ∷ progress

unfoldable pub sort_progress : List Progress → List Progress
unfolding insert_progress
sort_progress [] = []
sort_progress (p ∷ progress) = insert_progress p (sort_progress progress)

abbrev first_some : {A : Type 0} → Option A → Option A → Option A
first_some none other = other
first_some (some a) other = some a

module _ (patterns : Patterns) where
  -- The progress records of the lines from `number` on.
  unfoldable pub scan_progress : ℕ → List Text → List Progress
  scan_progress number [] = []
  scan_progress number (line ∷ lines) =
      progress_at number (patterns.progress line) ++ scan_progress (number + 1) lines

  unfoldable pub scan_exact : ℕ → List Text → (Text → Option Exact) → Text → Option Exact
  scan_exact number [] exact = exact
  scan_exact number (line ∷ lines) exact =
      scan_exact (number + 1) lines (note_exact number (patterns.exact line) exact)

  -- The number of the first line that has the marker.
  unfoldable pub marker_line : Marker → ℕ → List Text → Option ℕ
  marker_line m number [] = none
  marker_line m number (line ∷ lines) =
      let later = marker_line m (number + 1) lines in
      if patterns.finds m line then some number else later

  abbrev pub exact_entry : (Text → Option Exact) → Marker → Option Exact
  exact_entry exact m = first_some (exact m.name) (exact (codes "linux-" ++ m.name))

  abbrev pub before : List Progress → ℕ → Option Progress
  before progress zero = none
  before progress (suc position) = get_elem? progress position

  unfoldable pub place : List Progress → Marker → ℕ → Option Exact → Signpost
  place progress m number exact =
      let position = bisect_right (map (λ (p : Progress). p.line) progress) number in
      record {
        marker = m;
        line = number;
        exact = exact;
        lower = before progress position;
        upper = get_elem? progress position;
      }

  abbrev pub line_of : Option ℕ → Option Exact → Option ℕ
  line_of none none = none
  line_of none (some exact) = some exact.line
  line_of (some number) exact = some number

  -- A marker without a line is skipped.
  abbrev pub place_if :
      List Progress → Marker → Option Exact → Option ℕ → List Signpost → List Signpost
  place_if progress m exact none found = found
  place_if progress m exact (some number) found = place progress m number exact ∷ found

  -- The loop over the markers.
  unfoldable pub place_all :
      List Progress → (Text → Option Exact) → List Text → List Marker → List Signpost
  unfolding marker_line place
  place_all progress exact lines [] = []
  place_all progress exact lines (m ∷ ms) =
      place_if progress m (exact_entry exact m)
        (line_of (marker_line m 1 lines) (exact_entry exact m)) (place_all progress exact lines ms)

  -- `extract` on the lines of a log.
  unfoldable pub extract : List Text → List Signpost
  unfolding scan_progress scan_exact sort_progress place_all
  extract lines =
      place_all (sort_progress (scan_progress 1 lines)) (scan_exact 1 lines (λ name. none)) lines
        markers
