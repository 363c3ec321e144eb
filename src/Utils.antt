-- ===== src/Utils.antt =====
-- The repository's utils directory, as far as it is modelled.
pub mod Fcoi
pub mod TsAnalysis
