-- ===== src/Lib.antt =====
-- The Python tools of OpenRV64 that build boot images and replay pipeline traces.
--
-- Sv39: tools/make_shared_sv39_image.py and tools/make_4h_sv39_image.py install Sv39 page tables in
-- a memory image. Sv39.antt has what the two scripts share (`pte`, `put_u64`, the page loop) and,
-- as the specification, the page-table walk of the Sv39 architecture; Sv39/Shared.antt and
-- Sv39/FourHart.antt have their `build`. A `bytearray` is a buffer of Buffer.antt: its size and a
-- function of the offset.
--
-- SdImage: tools/make-fpga-sd-image.py lays payloads out on a boot card, writes a checksummed header
-- and verifies the result. SdImage.antt has the format and the writer, SdImage/Verify.antt the
-- reader, SdImage/Build.antt the builder, which reads back what it wrote. An exception is a
-- constructor of `SdError`. `zlib.crc32` is a parameter, of which only the 32-bit bound is assumed.
--
-- ElfImage: tools/elf2mem.py reads the loadable segments of an ELF file and fills memory words with
-- them. ElfImage.antt has `load_elf` and `image_words`, with the dictionary of words as the list of
-- its items and that of owners as a function of the address, and ElfImage/Memh.antt `write_memh`.
--
-- MemWords: tools/bin2mem.py writes a flat binary as the lines of a memory file; MemWords.antt has its
-- `convert`.
--
-- IssueWindow: tools/issue_window_experiment.py replays a trace through an issue window.
-- IssueWindow.antt has the instruction properties and `pipe_assignment`, IssueWindow/State.antt the
-- arguments and the variables of `schedule`, IssueWindow/Choose.antt the choice of a group and
-- IssueWindow/Schedule.antt the loop, each phase of a cycle a function of the state. A Python list
-- over the instructions is a function of the index, a dependence that is no index of the trace
-- never completes, and the first cycle, `min(releases)`, is an argument. The loop runs on
-- `10 * max 1 count + 2` rounds of fuel, one more than its own progress test lets it take.
--
-- IssueWindow/Trace.antt has what `load_trace` notes of each row, IssueWindow/Trace/Extract.antt the
-- instructions it makes of that and their links, and IssueWindow/Replay.antt the four calls of
-- `schedule`. The cells are numbers, and a release below zero, which needs a trace with smaller cycle
-- numbers than held cycles, is an error of the model.
--
-- ArchTrace: tools/check_arch_trace.py checks a retirement trace. ArchTrace.antt has `validate` over
-- the cells that the `csv` module yields, one group of checks of a row after the other.
--
-- Oracle: tools/branch_oracle_from_trace.py turns a retirement trace into the targets of its control
-- transfers. Oracle.antt has it from the cells to the lines.
--
-- Symbols: tools/elf_symbols.py names program counters. Symbols.antt has the table and its lookup,
-- Symbols/Load.antt the table from the lines of `nm`, with the dictionary as the ascending list of
-- its items.
--
-- Multichase: tools/gen_multichase_ring.py generates a ring of pointers. Multichase.antt has its
-- random numbers, the order of the elements, their successors and the lines, with the state of the
-- generator passed on.
--
-- PipelineTrace: tools/pipeline_trace.py reads a trace of the pipeline stages. PipelineTrace.antt has the
-- reader of the rows, PipelineTrace/Collect.antt the lives of the instructions, and
-- PipelineTrace/Ranges.antt the names of bits and the ranges of cycles.
--
-- ThreeLane: tools/pipeline_trace_3p.py reads a trace of the three-lane core. ThreeLane.antt has `load`
-- with the tables of ThreeLane/Tables.antt, ThreeLane/Counts.antt what `summary` counts,
-- ThreeLane/Anchor.antt `find_anchor`, and ThreeLane/Labels.antt the texts of a row and `window`. Of
-- the loops over sets of columns, which have no order, the model takes that of the tables.
--
-- Signposts: tools/linux_boot_signposts.py finds the milestones of a boot log. Signposts.antt has
-- `extract`, with the matches of the regular expressions as parameters, and Signposts/Render.antt the
-- two renderings.
--
-- ParallelMap: synth/core/parallel_map.py adds the areas of a mapped design up. ParallelMap.antt has
-- `load_hierarchy` and the accumulation, with the dictionaries of totals as functions of the name and
-- the set of the modules in progress as an argument. The calls run on fuel for one more than there are
-- modules, which is enough because each call in progress is of another module.
--
-- Text.antt models what the tools use of Python's text: `int(text, base)` over ASCII, and the format
-- of hexadecimal numbers, which Text/Hex.antt reads back.
--
-- Not modelled: the argument parsers, the file access, the floating-point reports, and the other
-- tools, which parse logs, drive boards or format reports; the hardware description itself.
mod Prelude
mod Tests
pub mod Buffer
pub mod Sv39
pub mod SdImage
pub mod ElfImage
pub mod Multichase
pub mod Text
pub mod ThreeLane
pub mod ParallelMap
pub mod ArchTrace
pub mod Symbols
pub mod Oracle
pub mod PipelineTrace
pub mod MemWords
pub mod Signposts
pub mod IssueWindow
