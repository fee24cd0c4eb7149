-- ===== src/Calls/Outcome/Sweeps/Consistent.antt =====
-- callOutcome.js: the row of a call and the events about it, over all sweeps of its job.
