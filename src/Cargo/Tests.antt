-- ===== src/Cargo/Tests.antt =====
-- Runs of the shift's code on concrete input, and the theorems at input that meets their
-- hypotheses.
mod Queue
mod Parser
mod Shift
