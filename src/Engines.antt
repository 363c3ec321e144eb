-- ===== src/Engines.antt =====
-- The model checking engines, over an unrolled transition system and an incremental solver.
pub mod Problem
pub mod Bmc
pub mod Unrolled
pub mod Paths
pub mod KInduction
