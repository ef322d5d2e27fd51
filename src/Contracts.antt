-- ===== src/Contracts.antt =====
-- src/osbench/contracts.py and constants.py: the Contract corpus.
pub mod Model
pub mod Cycles
pub mod Validate
