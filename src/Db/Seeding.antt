-- ===== src/Db/Seeding.antt =====
-- Seed of internal/db/store.go, run on any rows.
use go_fibe.Base.{◌≡◌, ◌∙◌, refl, ap, sym, true, not, any, all, filter}
use go_fibe.Base.Exec.{ok, bind_ok}
use go_fibe.Strings.{GoString, ◌==◌}
use go_fibe.Models.{Time}
use go_fibe.Db.Schema.{Tables, Uuid}
use go_fibe.Db.Engine.{Store, query}
use go_fibe.Db.Keeps.{Holds-if}
use go_fibe.Db.Effects.{Does, Does-with_text, query-Atomic}
use go_fibe.Db.Checks.{success}
use go_fibe.Db.Seeded.{
  is_seeded, is_demo, is_admin, beside, admin_written, others_left, all_seeded, all_beside,
  users_left, written_admin, written_others, written_beside, written_monitors,
}
use go_fibe.Db.Users.{
  demo_monitors, admin_email, email_is, upsert_demos, upsert_admin, seed_monitors, seed,
}

-- What Seed has done to the tables when it returns: there is the demo account, with the role and the
-- password, and each demo monitor, enabled and with its interval; all other rows are as they were.
pub record IsSeeded (hash : GoString) (old new : Tables) : Type 0 where
  pub admin : any (is_admin hash) new.users ≡ true
  pub other_users :
      filter (λ x. not (email_is admin_email x)) new.users
      ≡ filter (λ x. not (email_is admin_email x)) old.users
  pub demos : all (λ d. any (is_seeded d) new.monitors) demo_monitors ≡ true
  pub other_monitors :
      filter (λ m. not (is_demo demo_monitors m)) new.monitors
      ≡ filter (λ m. not (is_demo demo_monitors m)) old.monitors
  pub rest : beside new ≡ beside old

module _ ⦃u : Uuid⦄ where
  upsert_admin-Does : (hash : GoString) → Does (admin_written hash) (upsert_admin hash)
  unfolding upsert_admin
  upsert_admin-Does hash = Does-with_text (admin_written hash) hash _ (record {
    at = λ now t.
        Holds-if (λ t'. t' ≡ admin_written hash now t) (any (email_is admin_email) t.users) _ _
          (λ old. rw old refl) (λ new. rw new refl);
  })

  seed_monitors-Does : Does (upsert_demos demo_monitors) seed_monitors
  unfolding seed_monitors
  seed_monitors-Does = record { at = λ now t. refl }

  both-IsSeeded :
      (hash : GoString) (now later : Time) (t : Tables)
      → IsSeeded hash t (upsert_demos demo_monitors later (admin_written hash now t))
  unfolding ◌==◌
  both-IsSeeded hash now later t =
      let mid = admin_written hash now t in
      let users = users_left demo_monitors later mid in
      record {
        admin = ap (any (is_admin hash)) users ∙ written_admin hash now t;
        other_users =
            ap (λ xs. filter (λ x. not (email_is admin_email x)) xs) users
            ∙ written_others hash now t;
        demos = all_seeded demo_monitors later mid refl;
        other_monitors =
            others_left demo_monitors demo_monitors later mid refl
            ∙ ap (λ ms. filter (λ m. not (is_demo demo_monitors m)) ms)
                (written_monitors hash now t);
        rest = all_beside demo_monitors later mid ∙ written_beside hash now t;
      }

  -- When Seed returns without an error, there is the demo account, an administrator with the given
  -- password hash, and each demo monitor, enabled and with its interval, whatever was there before;
  -- all other users and monitors and all other tables are as they were.
  pub seed_ok :
      (hash : GoString) (s : Store)
      → (seed hash s).0 ≡ ok tt
      → IsSeeded hash s.tables (seed hash s).1.tables
  unfolding seed
  seed_ok hash s h =
      let (a, done, same) = bind_ok (query (upsert_admin hash)) (λ _. query seed_monitors) s h in
      let mid = (query (upsert_admin hash) s).1 in
      let first : mid.tables ≡ admin_written hash (s.clock s.calls) s.tables =
        success s.tables _ _ _ (query-Atomic (admin_written hash) _ (upsert_admin-Does hash) s)
          done in
      let second =
        success mid.tables _ _ _
          (query-Atomic (upsert_demos demo_monitors) _ seed_monitors-Does mid)
          (ap (λ x. x.0) (sym same) ∙ h) in
      rw (ap (λ x. x.1.tables) same)
        (rw second (rw first (both-IsSeeded hash (s.clock s.calls) (mid.clock mid.calls) s.tables)))
