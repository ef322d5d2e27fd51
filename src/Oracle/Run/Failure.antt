-- ===== src/Oracle/Run/Failure.antt =====
-- What a run of `evaluate` leaves behind when an exception ends it.
