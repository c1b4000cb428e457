-- ===== src/ParallelMap.antt =====
-- synth/core/parallel_map.py: the retained hierarchy of a design, and the areas of its modules with those
-- of the modules in them. What the regular expressions match in a line, the numbers with their addition
-- and the statistics of the workers are parameters.
pub mod Areas
pub mod Returns
pub mod Unvisited
use open_rv.Prelude.{
  ℕ, zero, suc, ◌+◌, Bool, true, false, not, ◌||◌, Option, none, some, List, [], ◌∷◌, ◌++◌, Result,
  ok, err, ◌>>=◌, ◌>>◌, refuse_if, ◌==◌, if◌then◌else◌, length,
}
use open_rv.Text.{Text, text_eq, has_text, has_all}

-- `absent` is the `ValueError` of a child that is no module, `no_stats` the `KeyError` of a module without
-- statistics, and `out_of_fuel` an error of the model.
pub data MapError : Type 0 where
  outside_module absent out_of_fuel : MapError
  cycle no_stats : Text → MapError

abbrev canonical : Text → Text
canonical [] = []
canonical (c ∷ cs) = if c == b'\\' then cs else c ∷ cs

-- The dictionary of the children, in the order of the modules' first cells.
abbrev pub Hierarchy : Type 0
Hierarchy = List (Text × List Text)

-- `children[module].append(child)`
unfoldable pub append_child : Text → Text → Hierarchy → Hierarchy
append_child name child [] = (name, child ∷ []) ∷ []
append_child name child ((other, children) ∷ hierarchy) =
    let rest = append_child name child hierarchy in
    if text_eq other name
    then (other, children ++ (child ∷ [])) ∷ hierarchy
    else (other, children) ∷ rest

-- `hierarchy.get(module, [])`
unfoldable pub children_of : Hierarchy → Text → List Text
children_of [] name = []
children_of ((other, children) ∷ hierarchy) name =
    let rest = children_of hierarchy name in if text_eq other name then children else rest

-- The first group of `MODULE_RE` and of `CELL_RE` in a line.
pub record Patterns : Type 0 where
  pub module_match : Text → Option Text
  pub cell_match : Text → Option Text

abbrev add_cell : Option Text → Option Text → Hierarchy → Result MapError Hierarchy
add_cell current none hierarchy = ok hierarchy
add_cell none (some name) hierarchy = err outside_module
add_cell (some current) (some name) hierarchy = ok (append_child current (canonical name) hierarchy)

abbrev current_or : Option Text → Option Text → Option Text
current_or current none = current
current_or current (some name) = some (canonical name)

-- A line that opens a module is not read as a cell.
abbrev cell_or_none : Option Text → Option Text → Option Text
cell_or_none none cell = cell
cell_or_none (some name) cell = none

unfoldable pub load_lines :
    Patterns → Option Text → List Text → Hierarchy → Result MapError Hierarchy
unfolding append_child
load_lines patterns current [] hierarchy = ok hierarchy
load_lines patterns current (line ∷ lines) hierarchy = do
  let opened = patterns.module_match line
  added ← add_cell current (cell_or_none opened (patterns.cell_match line)) hierarchy
  load_lines patterns (current_or current opened) lines added

unfoldable pub load_hierarchy : Patterns → List Text → Result MapError Hierarchy
unfolding load_lines
load_hierarchy patterns lines = load_lines patterns none lines []

-- Whether every child is a module.
unfoldable pub all_present : List Text → Hierarchy → Bool
all_present modules [] = true
all_present modules ((name, children) ∷ hierarchy) =
    if has_all children modules then all_present modules hierarchy else false

-- `recursive_area` and `recursive_seq`.
abbrev pub Totals : Type 0 → Type 0
Totals A = Text → Option (A × A)

module _ {A : Type 0} where
  abbrev pub put : Text → A × A → Totals A → Totals A
  put name total totals other = if text_eq other name then some total else totals other

  abbrev pub stats_of : Text → Option (A × A) → Result MapError (A × A)
  stats_of name none = err (no_stats name)
  stats_of name (some own) = ok own

  abbrev pub recall :
      Option (A × A)
      → Totals A
      → Result MapError ((A × A) × Totals A)
      → Result MapError ((A × A) × Totals A)
  recall none totals visited = visited
  recall (some total) totals visited = ok (total, totals)

module _ {A : Type 0} (plus : A → A → A) where
  abbrev pub add : A × A → A × A → A × A
  add (area, sequential) (child_area, child_seq) = (plus area child_area, plus sequential child_seq)

  -- The loop over the children, which `visit` accumulates.
  unfoldable pub add_children :
      (Text → Totals A → Result MapError ((A × A) × Totals A))
      → List Text
      → A × A
      → Totals A
      → Result MapError ((A × A) × Totals A)
  add_children visit [] total totals = ok (total, totals)
  add_children visit (child ∷ rest) total totals = do
    (value, noted) ← visit child totals
    add_children visit rest (add total value) noted

  -- What a module has of its own and its children have, noted as its total.
  unfoldable pub sum_up :
      (Text → Totals A → Result MapError ((A × A) × Totals A))
      → Text
      → Option (A × A)
      → List Text
      → Totals A
      → Result MapError ((A × A) × Totals A)
  unfolding add_children
  sum_up visit name direct children totals = do
    own ← stats_of name direct
    (total, noted) ← add_children visit children own totals
    ok (total, put name total noted)

module _ {A : Type 0} (plus : A → A → A) (direct : Text → Option (A × A))
    (children : Text → List Text) where
  -- `accumulate`. The set `visiting` is that of the calls in progress: a call takes its module out again
  -- when it returns.
  unfoldable pub accumulate : ℕ → List Text → Text → Totals A → Result MapError ((A × A) × Totals A)
  unfolding sum_up
  accumulate zero visiting name totals = err out_of_fuel
  accumulate (suc fuel) visiting name totals = recall (totals name) totals (do
    refuse_if (has_text name visiting) (cycle name)
    sum_up plus (accumulate fuel (name ∷ visiting)) name (direct name) (children name) totals)

  -- The loop over the modules.
  unfoldable pub accumulate_all : ℕ → List Text → Totals A → Result MapError (Totals A)
  unfolding accumulate
  accumulate_all fuel [] totals = ok totals
  accumulate_all fuel (name ∷ modules) totals = do
    (total, noted) ← accumulate fuel [] name totals
    accumulate_all fuel modules noted

-- The totals of all modules, where the hierarchy is complete. A call is in progress at most once for each
-- module, so that the fuel is one more than there are modules.
unfoldable pub recursive_totals :
    {A : Type 0}
    → (A → A → A)
    → (Text → Option (A × A))
    → Hierarchy
    → List Text
    → Result MapError (Totals A)
unfolding all_present children_of accumulate_all
recursive_totals plus direct hierarchy modules = do
  refuse_if (not (all_present modules hierarchy)) absent
  accumulate_all plus direct (children_of hierarchy) (suc (length modules)) modules (λ name. none)
