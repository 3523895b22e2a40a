-- ===== src/Tests.antt =====
-- A small registry, runs of the operations on it, and the theorems at concrete data.
pub mod Samples
pub mod Facts
mod Reads
pub mod Runs
mod Witnesses
mod Laws
mod Captures
mod Tools
mod Harness
mod Operation
mod Turns
