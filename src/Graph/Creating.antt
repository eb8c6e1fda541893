-- ===== src/Graph/Creating.antt =====
-- What CreateMonitor of graph/schema.resolvers.go leaves in the database.
use go_fibe.Base.{suc, ◌≡◌, ◌∙◌, ap, sym, arith, false, [], ◌∷◌, ◌++◌, any}
use go_fibe.Base.Exec.{ok, pure, ◌>>=◌, ◌>>◌, bind_ok}
use go_fibe.Strings.{GoString, str}
use go_fibe.Models
use go_fibe.Models.{Monitor}
use go_fibe.Redis
use go_fibe.Ability.{Context, action_manage, resource_monitor}
use go_fibe.Db.Schema.{Uuid, Tables}
use go_fibe.Db.Engine.{Store, query}
use go_fibe.Db.Monitors.{new_monitor, create_monitor_stmt, insert_monitor, has_key}
use go_fibe.Db
use go_fibe.App.{App, AppAction, on_store, on_redis, discard}
use go_fibe.Jobs.{dashboard_keys, event_of}
use go_fibe.Jobs.Queueing.{publish_event_apart, on_store_ok}
use go_fibe.Graph
use go_fibe.Graph.{required, validated, or_internal, changed}
use go_fibe.Graph.Input.{MonitorInput}
use go_fibe.Graph.Validation.{Accepts, validate_monitor_input_iff}

or_internal_ok :
    {A : Type 0} (m : AppAction A) (a : App) (r : A) → (or_internal m a).0 ≡ ok r → (m a).0 ≡ ok r
unfolding or_internal
or_internal_ok m a r h = ground arith

changed_apart :
    {A : Type 0} (event : GoString) (r : A) (a : App)
    → (((changed event >> pure r) a).0 ≡ ok r) × (((changed event >> pure r) a).1.store ≡ a.store)
unfolding discard on_redis
changed_apart event r a =
    let cleared = (discard (on_redis (Redis.del dashboard_keys)) a).1 in
    ground (arith, publish_event_apart event cleared)

module _ ⦃u : Uuid⦄ where
  -- The tables with one monitor more.
  abbrev pub with_monitor : Monitor → Tables → Tables
  with_monitor m t = record t { monitors = t.monitors ++ m ∷ []; draws = suc t.draws }

  create_ok :
      (v : Models.MonitorInput) (m : Monitor) (s : Store)
      → (Db.Monitors.create_monitor v s).0 ≡ ok m
      → (m ≡ new_monitor v (s.clock s.calls) s.tables)
        × (any (has_key v.name v.url) s.tables.monitors ≡ false)
        × ((Db.Monitors.create_monitor v s).1.tables ≡ with_monitor m s.tables)
  unfolding Db.Monitors.create_monitor create_monitor_stmt insert_monitor query
  create_ok v m s h = (ground arith, ground arith, ground arith)

  abbrev announce : Monitor → AppAction Monitor
  announce n = changed (event_of (str "monitor") n.id (str "created")) >> pure n

  abbrev insert : Models.MonitorInput → AppAction Monitor
  insert v = or_internal (on_store (Db.Monitors.create_monitor v)) >>= announce

  insert_ok :
      (v : Models.MonitorInput) (m : Monitor) (a : App)
      → (insert v a).0 ≡ ok m
      → ((Db.Monitors.create_monitor v a.store).0 ≡ ok m)
        × ((insert v a).1.store ≡ (Db.Monitors.create_monitor v a.store).1)
  unfolding on_store or_internal
  insert_ok v m a h =
      let create = on_store (Db.Monitors.create_monitor v) in
      let (n, inserted, same) = bind_ok (or_internal create) announce a h in
      let (returned, kept) =
        changed_apart (event_of (str "monitor") n.id (str "created")) n (or_internal create a).1 in
      (
        on_store_ok (Db.Monitors.create_monitor v) a m
            (or_internal_ok create a n inserted ∙ sym returned ∙ ap (λ r. r.0) (sym same) ∙ h),
        ap (λ r. r.1.store) same ∙ kept,
      )

  -- When CreateMonitor returns a monitor, the input was accepted, no other monitor had its name and
  -- URL, and the tables have the returned row more and no other change.
  pub create_monitor_ok :
      (ctx : Context) (input : MonitorInput) (m : Monitor) (a : App)
      → (Graph.create_monitor ctx input a).0 ≡ ok m
      → (v : Models.MonitorInput) × Accepts a.outside.net a.config input v
        × (m ≡ new_monitor v (a.store.clock a.store.calls) a.store.tables)
        × (any (has_key v.name v.url) a.store.tables.monitors ≡ false)
        × ((Graph.create_monitor ctx input a).1.store.tables ≡ with_monitor m a.store.tables)
  unfolding Graph.create_monitor
  create_monitor_ok ctx input m a h =
      let (user, allowed, same0) =
        bind_ok (required ctx action_manage resource_monitor) (λ _. validated input >>= insert) a
          h in
      let (v, accepted, same1) =
        bind_ok (validated input) insert a (ap (λ r. r.0) (sym same0) ∙ h) in
      let (made, kept) =
        insert_ok v m a (ap (λ r. r.0) (sym same1) ∙ ap (λ r. r.0) (sym same0) ∙ h) in
      let (row, fresh, tables) = create_ok v m a.store made in
      (
        v,
        (validate_monitor_input_iff a.outside.net a.config input v).0 accepted,
        row,
        fresh,
        ap (λ r. r.1.store.tables) same0
            ∙ ap (λ r. r.1.store.tables) same1
            ∙ ap (λ (s : Store). s.tables) kept
            ∙ tables,
      )
