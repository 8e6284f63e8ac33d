-- ===== src/JobReport.antt =====
-- internal/jobreport: the report of a CI job from Prometheus and from the job's log.
pub mod Meta
pub mod Prom
pub mod Cli
pub mod LogParse
pub mod Render
pub mod Report
pub mod Printing
pub mod Tests
