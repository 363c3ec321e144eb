-- ===== src/Examples.antt =====
-- Concrete runs: an instance of the term interface, and the theorems at inputs that meet their
-- hypotheses.
pub mod Toy
pub mod Table
pub mod Systems
pub mod Cones
pub mod Invariants
pub mod Histories
pub mod Monitors
pub mod Unrolling
pub mod Checking
pub mod Induction
