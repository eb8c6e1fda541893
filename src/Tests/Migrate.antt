-- ===== src/Tests/Migrate.antt =====
-- Runs of the migrations.
use go_fibe.Base.{◌≡◌, refl, Option, some, List, [], ◌∷◌, ◌++◌}
use go_fibe.Base.Exec.{Result, ok}
use go_fibe.Strings.{GoString, str, ◌==◌}
use go_fibe.Db.Engine.{answered}
use go_fibe.Migrate.{Target, MigrateError, migrate, up_migration_sql, version_of}
use go_fibe.Migrate.Again.{Unchanged, migrate-Unchanged}

-- A database that is the list of the statements it has run.
abbrev run_sql : GoString → List GoString → Result MigrateError (List GoString)
run_sql sql d = ok (d ++ sql ∷ [])

abbrev read_file : GoString → Option GoString
read_file file = some (str "-- +goose Up\nCREATE\n-- +goose Down\nDROP")

abbrev target : Target (List GoString)
target = record { database = []; applied = []; calls = 0; fate = λ n. answered }

abbrev files : List GoString
files = str "m/2_b.sql" ∷ str "m/1_a.sql" ∷ []

up_part : up_migration_sql (str "-- +goose Up\nCREATE\n-- +goose Down\nDROP") ≡ str "CREATE"
unfolding up_migration_sql go_fibe.Strings.trim_space go_fibe.Strings.has_prefix
    go_fibe.Strings.is_space
up_part = refl

version : version_of (str "m/2_b.sql") ≡ str "2"
unfolding version_of go_fibe.Strings.has_prefix
version = refl

migrate-Unchanged_example :
    let t = (migrate run_sql read_file (some files) target).1 in
    Unchanged run_sql read_file t (migrate run_sql read_file (some files) t).1
unfolding migrate go_fibe.Migrate.ask go_fibe.Base.sort_by go_fibe.Strings.encode ◌==◌ version_of
    go_fibe.Strings.has_prefix
migrate-Unchanged_example = migrate-Unchanged run_sql read_file files target refl
