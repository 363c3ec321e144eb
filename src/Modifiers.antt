-- ===== src/Modifiers.antt =====
-- The repository's modifiers directory: changes of a transition system before it is checked.
pub mod StaticCoi
pub mod History
pub mod Prophecy
pub mod PropMonitor
pub mod ModTsProp
