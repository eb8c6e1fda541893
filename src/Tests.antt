-- ===== src/Tests.antt =====
-- Runs at concrete inputs, and the theorems at inputs that meet their hypotheses.
mod Ability
mod Fixtures
mod RedisServer
mod World
mod App
mod Migrate
mod System
mod Seeding
mod Worker
mod Rows
mod Command
mod AppAuth
mod Config
mod Server
mod Jobs
mod Graph
mod Event
mod Security
mod Db
