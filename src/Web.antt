-- ===== src/Web.antt =====
-- cmd/jobreport-web: the web front end of the job report.
pub mod Store
pub mod Window
pub mod Runner
pub mod Server
pub mod Tests
