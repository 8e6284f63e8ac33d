-- ===== src/Exporter.antt =====
-- The package `exporter`.
pub mod History
pub mod Label
pub mod Config
pub mod Redact
pub mod Environ
pub mod Collector
pub mod ProcIo
pub mod Kube
pub mod Samples
