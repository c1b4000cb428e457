-- ===== src/Tests.antt =====
-- Tests of the models on concrete inputs, and an instance of each result.
mod Elf
mod Images
mod Replay
mod Traces
mod Ring
mod Loads
mod Pipeline
mod Boot
mod Lanes
mod Areas
