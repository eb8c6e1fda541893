-- ===== src/Migrate/Again.antt =====
-- What a run of the migrations leaves for the next one.
use go_fibe.Base.{
  ◌≡◌, ◌∙◌, refl, ap, sym, arith, Bool, true, Option, some, List, [], ◌∷◌, any, all, sort_by,
  any-append,
}
use go_fibe.Base.Exec.{continue, Result, ok, err, bind_ok}
use go_fibe.Base.Counting.{all_mono}
use go_fibe.Strings.{GoString, ◌==◌}
use go_fibe.Strings.Equality.{eq_refl}
use go_fibe.Migrate.{
  Target, Step, MigrateError, ask, migrate_file, migrate_files, migrate, version_of, string_before,
}

module _ {D : Type 0} (run_sql : GoString → D → Result MigrateError D)
    (read_file : GoString → Option GoString) where
  -- The version of the file has its row.
  abbrev pub is_applied : Target D → GoString → Bool
  is_applied t file = any (λ v. v == version_of file) t.applied

  -- Rows are only added.
  applied_grows :
      (file f : GoString) (t : Target D)
      → is_applied t f ≡ true
      → is_applied (migrate_file run_sql read_file file t).1 f ≡ true
  unfolding migrate_file ask
  applied_grows file f t h =
      ground (arith, any-append (λ v. v == version_of f) t.applied (version_of file ∷ []))

  applied_after :
      (file : GoString) (t : Target D)
      → (migrate_file run_sql read_file file t).0 ≡ ok tt
      → is_applied (migrate_file run_sql read_file file t).1 file ≡ true
  unfolding migrate_file ask
  applied_after file t h = ground (
    arith,
    any-append (λ v. v == version_of file) t.applied (version_of file ∷ []),
    eq_refl (version_of file),
  )

  file-Unchanged :
      (file : GoString) (t : Target D)
      → is_applied t file ≡ true
      → ((migrate_file run_sql read_file file t).1.database ≡ t.database)
        × ((migrate_file run_sql read_file file t).1.applied ≡ t.applied)
  unfolding migrate_file ask
  file-Unchanged file t h = ground arith

  continue-Kept :
      (P : Target D → Type 0) (r : Result MigrateError (Unit {0})) (m : Step D (Unit {0}))
      (b : Target D)
      → P b
      → (P b → P (m b).1)
      → P (continue r (λ _. m) b).1
  continue-Kept P (ok x) m b p k = k p
  continue-Kept P (err e) m b p k = p

  all_grows :
      (file : GoString) (t : Target D) (fs : List GoString)
      → all (is_applied t) fs ≡ true
      → all (is_applied (migrate_file run_sql read_file file t).1) fs ≡ true
  all_grows file t fs h = all_mono (is_applied t) _ fs (λ f k. applied_grows file f t k) h

  files_grow :
      (files fs : List GoString) (t : Target D)
      → all (is_applied t) fs ≡ true
      → all (is_applied (migrate_files run_sql read_file files t).1) fs ≡ true
  unfolding migrate_files
  files_grow [] fs t h = h
  files_grow (file ∷ files) fs t h =
      let (r, b) = migrate_file run_sql read_file file t in
      continue-Kept (λ c. all (is_applied c) fs ≡ true) r (migrate_files run_sql read_file files) b
        (all_grows file t fs h) (files_grow files fs b)

  files_applied :
      (files : List GoString) (t : Target D)
      → (migrate_files run_sql read_file files t).0 ≡ ok tt
      → all (is_applied (migrate_files run_sql read_file files t).1) files ≡ true
  unfolding migrate_files
  files_applied [] t h = refl
  files_applied (file ∷ files) t h =
      let (x, e, same) =
        bind_ok (migrate_file run_sql read_file file) (λ _. migrate_files run_sql read_file files) t
          h in
      let mid = (migrate_file run_sql read_file file t).1 in
      let first = files_grow files (file ∷ []) mid (ground (arith, applied_after file t e)) in
      let rest = files_applied files mid (ap (λ r. r.0) (sym same) ∙ h) in
      ap (λ r. all (is_applied r.1) (file ∷ files)) same ∙ ground (arith, first, rest)

  -- The database and the rows of schema_migrations are as they were.
  abbrev pub Unchanged : Target D → Target D → Type 0
  Unchanged t u = (u.database ≡ t.database) × (u.applied ≡ t.applied)

  same_applied :
      (t b : Target D) (files : List GoString)
      → Unchanged t b
      → all (is_applied t) files ≡ true
      → all (is_applied b) files ≡ true
  same_applied t b files (d, a) h =
      all_mono (is_applied t) (is_applied b) files (λ f k. ap (any (λ v. v == version_of f)) a ∙ k)
        h

  files-Unchanged :
      (files : List GoString) (t : Target D)
      → all (is_applied t) files ≡ true
      → Unchanged t (migrate_files run_sql read_file files t).1
  unfolding migrate_files
  files-Unchanged [] t h = (refl, refl)
  files-Unchanged (file ∷ files) t h =
      let (r, b) = migrate_file run_sql read_file file t in
      continue-Kept (Unchanged t) r (migrate_files run_sql read_file files) b
        (file-Unchanged file t (ground arith))
        (λ u.
          let (d, a) = files-Unchanged files b (same_applied t b files u (ground arith)) in
          (d ∙ u.0, a ∙ u.1))

  -- After a run of the migrations that succeeds, another run over the same files changes neither
  -- the database nor the rows of schema_migrations, whatever its calls come to.
  pub migrate-Unchanged :
      (files : List GoString) (t : Target D)
      → (migrate run_sql read_file (some files) t).0 ≡ ok tt
      → let t' = (migrate run_sql read_file (some files) t).1 in
        Unchanged t' (migrate run_sql read_file (some files) t').1
  unfolding migrate ask
  migrate-Unchanged files t h =
      let sorted = sort_by string_before files in
      let create : Step D (Unit {0}) = ask (λ s. tt) in
      let (x, e, same) = bind_ok create (λ _. migrate_files run_sql read_file sorted) t h in
      let t' = (migrate run_sql read_file (some files) t).1 in
      let applied =
        ap (λ r. all (is_applied r.1) sorted) same
        ∙ files_applied sorted (create t).1 (ap (λ r. r.0) (sym same) ∙ h) in
      continue-Kept (Unchanged t') (create t').0 (migrate_files run_sql read_file sorted)
        (create t').1 (refl, refl) (λ _. files-Unchanged sorted (create t').1 applied)
