-- ===== src/Runtime.antt =====
-- app/runtime: the enums and events that the scheduling engine shares, and the log stream.
pub mod Enums
pub mod Logger
pub mod LogStream
pub mod Registry
pub mod Discovery
