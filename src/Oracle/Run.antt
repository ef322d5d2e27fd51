-- ===== src/Oracle/Run.antt =====
-- `evaluate` of src/osbench/oracle.py: the run of the selected cases on two targets, its journal,
-- its checkpoints and its result document.
pub mod State
pub mod Cases
pub mod Evaluate
pub mod Steps
pub mod Journal
pub mod Accounts
pub mod Loop
pub mod Ends
pub mod Correct
pub mod Failure
pub mod Closing
pub mod Whole
