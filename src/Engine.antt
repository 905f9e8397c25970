-- ===== src/Engine.antt =====
-- The state that one task run works on, and the parts of the program that handle its events.
pub mod World
pub mod Finalizer
pub mod Bus
