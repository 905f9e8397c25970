-- ===== src/Providers.antt =====
-- app/providers: the provider that comes with the program.
pub mod ProbeConfig
pub mod ProbeChecks
pub mod Probe
