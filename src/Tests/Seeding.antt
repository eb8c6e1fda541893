-- ===== src/Tests/Seeding.antt =====
-- Seed of internal/db/store.go over a table with a monitor.
use go_fibe.Base.{refl}
use go_fibe.Strings.{str, ◌==◌, is_utf8}
use go_fibe.Db.Engine.{query}
use go_fibe.Db.Users.{seed, upsert_admin, seed_monitors, upsert_demo, upsert_demos}
use go_fibe.Db.Seeding.{IsSeeded, seed_ok}
use go_fibe.Tests.Fixtures.{plain_uuid, site_store}

seed_ok_example :
    IsSeeded (str "$argon2id$") site_store.tables (seed (str "$argon2id$") site_store).1.tables
unfolding seed query upsert_admin seed_monitors upsert_demo upsert_demos is_utf8 ◌==◌
seed_ok_example = seed_ok (str "$argon2id$") site_store refl
