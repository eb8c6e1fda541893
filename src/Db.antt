-- ===== src/Db.antt =====
-- internal/db/store.go over the schema of migrations/202605070001_init.sql.
pub mod Recording
pub mod Schema
pub mod Seeded
pub mod Seeding
pub mod Engine
pub mod Keeps
pub mod Due
pub mod Dashboard
pub mod Effects
pub mod Incidents
pub mod Monitors
pub mod CheckEvents
pub mod Rows
pub mod Runs
pub mod Users
pub mod Consistency
pub mod History
pub mod Checks
