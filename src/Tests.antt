-- ===== src/Tests.antt =====
-- Concrete inputs, and the theorems at them.
pub mod Disk
pub mod Wire
pub mod Log
pub mod LogExamples
pub mod NodeExamples
pub mod LoopExamples
pub mod OtherExamples
pub mod CallExamples
pub mod SqlExamples
pub mod ServiceExamples
