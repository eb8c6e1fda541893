-- ===== src/Tests/Ability.antt =====
-- Runs of Can and Require.
use go_fibe.Base.{◌≡◌, ◌↔◌, some, refl, true, false}
use go_fibe.Base.Exec.{ok, err}
use go_fibe.Strings.{str, ◌==◌}
use go_fibe.Models.{CurrentUser}
use go_fibe.Ability.{
  can, require, with_user, user_from_context, background, action_read, action_manage, action_run,
  resource_monitor, resource_incident, resource_maintenance, authentication_required,
}
use go_fibe.Ability.Roles.{can_monotone, admin_operator, can_iff, Grants, require_iff}

-- The cases of ability_test.go.
role_permissions :
    (can (str "admin") action_run resource_maintenance ≡ true)
    × (can (str "operator") action_manage resource_monitor ≡ true)
    × (can (str "operator") action_run resource_maintenance ≡ false)
    × (can (str "viewer") action_read resource_incident ≡ true)
    × (can (str "viewer") action_manage resource_incident ≡ false)
unfolding can ◌==◌
role_permissions = (refl, refl, refl, refl, refl)

abbrev operator : CurrentUser
operator = record {
  id = str "1";
  email = str "o@example.com";
  name = str "O";
  role = str "operator";
}

require_needs_user : require background action_read resource_monitor ≡ err authentication_required
unfolding require
require_needs_user = refl

can_monotone_example : can (str "admin") action_run resource_incident ≡ true
unfolding can ◌==◌
can_monotone_example =
    can_monotone (str "admin") (str "operator") action_run resource_incident
      (admin_operator refl refl) refl

can_iff_example :
    (can (str "operator") action_run resource_incident ≡ true)
    ↔ Grants (str "operator") action_run resource_incident
can_iff_example = can_iff (str "operator") action_run resource_incident

require_iff_example :
    (require (with_user background operator) action_run resource_incident ≡ ok operator) ↔ (
      (user_from_context (with_user background operator) ≡ some operator)
      × (can operator.role action_run resource_incident ≡ true))
require_iff_example =
    require_iff (with_user background operator) action_run resource_incident operator
