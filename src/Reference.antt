-- ===== src/Reference.antt =====
-- src/osbench/reference.py: the preflight of the reference image, the calibration of unsynced
-- writes, and the realization of the lock.
pub mod Documents
pub mod Report
pub mod Shop
pub mod Preflight
pub mod Calibrate
pub mod Realize
