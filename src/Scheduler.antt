-- ===== src/Scheduler.antt =====
-- app/application/services/scheduler: the scheduling engine.
pub mod Calculator
pub mod Policy
pub mod Attempt
pub mod Runner
pub mod Registration
pub mod Loop
