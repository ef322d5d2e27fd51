-- ===== src/Oracle.antt =====
-- src/osbench/oracle.py: which cases a run takes, how observations are compared, and what the
-- results of the cases say of the Contracts.
pub mod Manifest
pub mod Run
pub mod Selection
pub mod Aggregate
pub mod Comparison
