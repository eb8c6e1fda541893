-- ===== src/Ability/Roles.antt =====
-- What the roles permit.
use go_fibe.Base.{◌≡◌, ◌≢◌, ◌↔◌, true, some, arith}
use go_fibe.Base.Exec.{ok}
use go_fibe.Strings.{GoString, str, ◌==◌}
use go_fibe.Strings.Equality.{eq_iff}
use go_fibe.Models.{CurrentUser}
use go_fibe.Ability.{
  Action, Resource, action_read, action_manage, action_run, resource_maintenance, Context,
  user_from_context, can, require,
}

-- The permissions as a table of grants.
pub data Grants (role : GoString) (a : Action) (r : Resource) : Type 0 where
  all_to_admin : role ≡ str "admin" → Grants role a r
  read_to_operator : role ≡ str "operator" → a ≡ action_read → Grants role a r
  manage_to_operator :
      role ≡ str "operator" → a ≡ action_manage → r ≢ resource_maintenance → Grants role a r
  run_to_operator :
      role ≡ str "operator" → a ≡ action_run → r ≢ resource_maintenance → Grants role a r
  read_to_viewer : role ≡ str "viewer" → a ≡ action_read → Grants role a r

module _ (role : GoString) (a : Action) (r : Resource) where
  can_complete : Grants role a r → can role a r ≡ true
  unfolding can
  can_complete (all_to_admin h) = ground (arith, eq_iff role (str "admin"))
  can_complete (read_to_operator h k) = ground (
    arith,
    eq_iff role (str "operator"),
    eq_iff role (str "admin"),
    eq_iff a action_read,
    eq_iff r resource_maintenance,
  )
  can_complete (manage_to_operator h k n) = ground (
    arith,
    eq_iff role (str "operator"),
    eq_iff role (str "admin"),
    eq_iff a action_manage,
    eq_iff r resource_maintenance,
  )
  can_complete (run_to_operator h k n) = ground (
    arith,
    eq_iff role (str "operator"),
    eq_iff role (str "admin"),
    eq_iff a action_run,
    eq_iff r resource_maintenance,
  )
  can_complete (read_to_viewer h k) = ground (
    arith,
    eq_iff role (str "viewer"),
    eq_iff role (str "operator"),
    eq_iff role (str "admin"),
    eq_iff a action_read,
  )

  can_sound : can role a r ≡ true → Grants role a r
  unfolding can
  can_sound h = grind (
    arith, eq_iff, all_to_admin, read_to_operator, manage_to_operator, run_to_operator,
    read_to_viewer,
  )

  -- Can answers true exactly for the rows of the table of grants.
  pub can_iff : (can role a r ≡ true) ↔ Grants role a r
  can_iff = (can_sound, can_complete)

-- The roles from the highest down.
pub data Outranks (high low : GoString) : Type 0 where
  admin_operator : high ≡ str "admin" → low ≡ str "operator" → Outranks high low
  operator_viewer : high ≡ str "operator" → low ≡ str "viewer" → Outranks high low
  admin_viewer : high ≡ str "admin" → low ≡ str "viewer" → Outranks high low

Outranks-Grants :
    {high low : GoString} {a : Action} {r : Resource}
    → Outranks high low
    → can low a r ≡ true
    → Grants high a r
unfolding can ◌==◌
Outranks-Grants (admin_operator h l) g = all_to_admin h
Outranks-Grants (operator_viewer h l) g = read_to_operator h (ground (arith, eq_iff _ action_read))
Outranks-Grants (admin_viewer h l) g = all_to_admin h

-- A higher role may do all that a lower one may.
pub can_monotone :
    (high low : GoString) (a : Action) (r : Resource)
    → Outranks high low
    → can low a r ≡ true
    → can high a r ≡ true
can_monotone high low a r o h = can_complete high a r (Outranks-Grants o h)

-- Require returns the user of the context exactly when there is one whose role may do it.
pub require_iff :
    (ctx : Context) (a : Action) (r : Resource) (user : CurrentUser)
    → (require ctx a r ≡ ok user)
      ↔ ((user_from_context ctx ≡ some user) × (can user.role a r ≡ true))
unfolding require
require_iff ctx a r user = (λ h. ground arith, λ h. ground arith)
