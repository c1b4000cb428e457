-- ===== src/IssueWindow/Trace/Extract.antt =====
-- `load_trace` of tools/issue_window_experiment.py: the instructions that the tables give, and the
-- links between them.
use open_rv.Prelude.{
  ℕ, ◌+◌, ◌-◌, Bool, not, ◌&&◌, Option, none, some, List, [], ◌∷◌, ◌++◌, Result, ok, err, ◌>>=◌,
  ◌>>◌, refuse_if, ltb, ◌==◌, if◌then◌else◌, length,
}
use open_rv.IssueWindow.{DynamicInstruction, is_mem, contains}
use open_rv.IssueWindow.State.{update}
use open_rv.IssueWindow.Trace.{
  TraceRow, Tables, no_tables, LoadError, below_zero, lacks_metadata, key_error, count_mismatch,
  read_rows,
}

-- The row of a dictionary that must be there.
abbrev pub require : {A : Type 0} → LoadError → Option A → Result LoadError A
require e none = err e
require e (some a) = ok a

abbrev pub get_default : Option ℕ → ℕ → ℕ
get_default none d = d
get_default (some a) d = a

-- An entry of `first_f_intrinsic`, or else the difference, which must not fall below zero here.
abbrev pub intrinsic_of : Option ℕ → ℕ → ℕ → Result LoadError ℕ
intrinsic_of (some a) queued held = ok a
intrinsic_of none queued held = if ltb queued held then err below_zero else ok (queued - held)

unfoldable pub make_instruction : Tables → ℕ → Result LoadError DynamicInstruction
make_instruction t uid = do
  meta ← require (lacks_metadata uid) (t.metadata uid)
  issue ← require (lacks_metadata uid) (t.issue uid)
  complete ← require (lacks_metadata uid) (t.complete uid)
  queued ← require (key_error uid) (t.first_q uid)
  intrinsic ← intrinsic_of (t.first_f_intrinsic uid) queued t.backend_held_cycles
  retire ← require (key_error uid) (t.retire uid)
  let (issue_cycle, issue_pipe) = issue
  ok (record {
    uid = uid;
    pc = meta.pc;
    bits = meta.bits;
    uses_rs1 = meta.uses_rs1;
    uses_rs2 = meta.uses_rs2;
    rs1 = meta.rs1;
    rs2 = meta.rs2;
    writes_rd = meta.writes_rd;
    rd = meta.rd;
    observed_release = get_default (t.first_f uid) queued;
    intrinsic_release = intrinsic;
    actual_issue = issue_cycle;
    actual_complete = complete;
    actual_retire = retire;
    actual_pipe = issue_pipe;
    deps = [];
    previous_mem = none;
  })

unfoldable pub extract : Tables → List ℕ → Result LoadError (List DynamicInstruction)
unfolding make_instruction
extract t [] = ok []
extract t (uid ∷ uids) = do
  instruction ← make_instruction t uid
  rest ← extract t uids
  ok (instruction ∷ rest)

-- The last writer of each register, and the last memory operation.
pub record Seen : Type 0 where
  pub last_writer : ℕ → Option ℕ
  pub previous_mem : Option ℕ

abbrev pub producer : (ℕ → Option ℕ) → Bool → ℕ → Option ℕ
producer last_writer uses reg = if uses && not (reg == 0) then last_writer reg else none

unfoldable pub add_dep : Option ℕ → List ℕ → List ℕ
unfolding contains
add_dep none deps = deps
add_dep (some index) deps = if contains deps index then deps else deps ++ (index ∷ [])

unfoldable pub link : Seen → DynamicInstruction → DynamicInstruction
unfolding add_dep
link seen instruction = record instruction {
  deps =
      add_dep (producer seen.last_writer instruction.uses_rs2 instruction.rs2)
        (add_dep (producer seen.last_writer instruction.uses_rs1 instruction.rs1) []);
  previous_mem = if is_mem instruction then seen.previous_mem else instruction.previous_mem;
}

unfoldable pub note : ℕ → Seen → DynamicInstruction → Seen
note index seen instruction = record {
  last_writer =
      if instruction.writes_rd && not (instruction.rd == 0)
      then update seen.last_writer instruction.rd (some index)
      else seen.last_writer;
  previous_mem = if is_mem instruction then some index else seen.previous_mem;
}

unfoldable pub link_all : ℕ → Seen → List DynamicInstruction → List DynamicInstruction
unfolding link note
link_all index seen [] = []
link_all index seen (instruction ∷ rest) =
    link seen instruction ∷ link_all (index + 1) (note index seen instruction) rest

abbrev pub nothing_seen : Seen
nothing_seen = record { last_writer = λ reg. none; previous_mem = none }

pub record Stats : Type 0 where
  pub cycles : ℕ
  pub retired : ℕ
  pub held_cycles : ℕ
  pub backend_held_cycles : ℕ

unfoldable pub stats_of : Tables → Stats
stats_of t = record {
  cycles = t.total_cycles;
  retired = t.actual_retired;
  held_cycles = t.held_cycles;
  backend_held_cycles = t.backend_held_cycles;
}

-- The end of `load_trace`: the count is compared, and the instructions are linked.
unfoldable pub finish :
    Tables → List DynamicInstruction → Result LoadError (List DynamicInstruction × Stats)
finish t instructions = do
  refuse_if (not (length instructions == t.actual_retired))
      (count_mismatch (length instructions) t.actual_retired)
  ok (link_all 0 nothing_seen instructions, stats_of t)

unfoldable pub load_trace : List TraceRow → Result LoadError (List DynamicInstruction × Stats)
load_trace rows = read_rows rows no_tables >>= λ t. extract t t.committed >>= finish t
