-- ===== src/Migrate.antt =====
-- internal/db/migrate.go: the runner of the migrations. The file system and the effect of a
-- migration's SQL on the database are parameters.
pub mod Again
use go_fibe.Base.{
  ℕ, suc, ◌+◌, ◌-◌, Bool, true, false, Option, none, some, List, [], ◌∷◌, ◌++◌, ltb, eqb, length,
  any, sort_by, if◌then◌else◌,
}
use go_fibe.Base.Exec.{Result, ok, err, Exec, pure, raise, ◌>>=◌, ◌>>◌}
use go_fibe.Strings.{GoString, str, ◌==◌, has_prefix, trim_space, encode}
use go_fibe.Db.Engine.{Fate, answered, refused, unacked}

-- strings.Split(s, sep)[0]
up_to : GoString → GoString → GoString
up_to sep [] = []
up_to sep (c ∷ s) = if has_prefix (c ∷ s) sep then [] else c ∷ up_to sep s

-- strings.ReplaceAll(s, old, ""): `skip` is how much of an occurrence is still to be passed over.
without : GoString → ℕ → GoString → GoString
without old skip [] = []
without old (suc skip) (c ∷ s) = without old skip s
without old ℕ.zero (c ∷ s) =
    let rest = without old ℕ.zero s in
    let past = without old (length old - 1) s in if has_prefix (c ∷ s) old then past else c ∷ rest

unfoldable pub up_migration_sql : GoString → GoString
unfolding up_to without
up_migration_sql content =
    let up = up_to (str "-- +goose Down") content in
    let a = without (str "-- +goose Up") 0 up in
    let b = without (str "-- +goose StatementBegin") 0 a in
    trim_space (without (str "-- +goose StatementEnd") 0 b)

-- filepath.Base of a path that does not end in a slash: `seen` is the element that is being read.
base_from : GoString → GoString → GoString
base_from seen [] = seen
base_from seen (c ∷ s) = if eqb c b'/' then base_from [] s else base_from (seen ++ c ∷ []) s

-- strings.SplitN(filepath.Base(file), "_", 2)[0]
unfoldable pub version_of : GoString → GoString
unfolding base_from up_to
version_of file = up_to (str "_") (base_from [] file)

abbrev bytes_of : GoString → List ℕ
bytes_of [] = []
bytes_of (c ∷ s) = encode c ++ bytes_of s

abbrev bytes_before : List ℕ → List ℕ → Bool
bytes_before [] [] = false
bytes_before [] (b ∷ bs) = true
bytes_before (a ∷ rest_a) [] = false
bytes_before (a ∷ rest_a) (b ∷ rest_b) =
    let rest = bytes_before rest_a rest_b in
    if ltb a b then true else if ltb b a then false else rest

-- Strings are ordered by their bytes.
abbrev string_before : GoString → GoString → Bool
string_before a b = bytes_before (bytes_of a) (bytes_of b)

pub data MigrateError : Type 0 where
  unreachable bad_pattern unreadable sql_failed : MigrateError

module _ (D : Type 0) where
  -- What the runner sees: the database, the rows of schema_migrations, and its calls.
  pub record Target : Type 0 where
    pub database : D
    pub applied : List GoString
    pub calls : ℕ
    pub fate : ℕ → Fate

abbrev pub Step : Type 0 → Type 0 → Type 0
Step D A = Exec (Target D) MigrateError A

abbrev pub answer : {A : Type 0} → Fate → A → Result MigrateError A
answer answered a = ok a
answer unacked a = err unreachable
answer refused a = err unreachable

module _ {D : Type 0} where
  abbrev tick : Target D → Target D
  tick t = record t { calls = suc t.calls }

  -- A call that reads, or writes only inside a transaction.
  unfoldable pub ask : {A : Type 0} → (Target D → A) → Step D A
  ask f t = (answer (t.fate t.calls) (f t), tick t)

  abbrev committed : Fate → D → GoString → Target D → Result MigrateError (Unit {0}) × Target D
  committed answered d version t =
      (ok tt, record (tick t) { database = d; applied = t.applied ++ version ∷ [] })
  committed unacked d version t =
      (err unreachable, record (tick t) { database = d; applied = t.applied ++ version ∷ [] })
  committed refused d version t = (err unreachable, tick t)

  abbrev run_up : Result MigrateError D → GoString → Step D (Unit {0})
  run_up (err e) version t = (err e, tick t)
  run_up (ok d) version t = (do ask (λ s. tt); λ s. committed (s.fate s.calls) d version s) t

  module _ (run_sql : GoString → D → Result MigrateError D)
      (read_file : GoString → Option GoString) where
    -- Begin, the migration, its row, and Commit
    abbrev apply_content : Option GoString → GoString → Step D (Unit {0})
    apply_content none version = raise unreadable
    apply_content (some content) version = do
      ask (λ t. tt)
      result ← ask (λ t. run_sql (up_migration_sql content) t.database)
      run_up result version

    abbrev apply_unless : Bool → GoString → Step D (Unit {0})
    apply_unless true file = pure tt
    apply_unless false file = apply_content (read_file file) (version_of file)

    unfoldable pub migrate_file : GoString → Step D (Unit {0})
    migrate_file file = do
      exists ← ask (λ t. any (λ v. v == version_of file) t.applied)
      apply_unless exists file

    unfoldable pub migrate_files : List GoString → Step D (Unit {0})
    unfolding migrate_file
    migrate_files [] = pure tt
    migrate_files (file ∷ files) = let rest = migrate_files files in do migrate_file file; rest

    abbrev globbed : Option (List GoString) → Step D (Unit {0})
    globbed none = raise bad_pattern
    globbed (some files) = migrate_files (sort_by string_before files)

    -- `files` is what filepath.Glob finds. The first call creates schema_migrations where it is
    -- missing, which then has no rows.
    unfoldable pub migrate : Option (List GoString) → Step D (Unit {0})
    unfolding migrate_files
    migrate files = do ask (λ t. tt); globbed files
