-- ===== src/Ability.antt =====
-- internal/ability/ability.go: who may do what. A context is read here only for its user.
pub mod Roles
use go_fibe.Base.{Bool, true, false, not, ◌&&◌, ◌||◌, Option, none, some, if◌then◌else◌}
use go_fibe.Base.Exec.{Result, ok, err}
use go_fibe.Strings.{GoString, str, ◌==◌}
use go_fibe.Models.{CurrentUser}

abbrev pub Action : Type 0
Action = GoString

abbrev pub Resource : Type 0
Resource = GoString

abbrev pub action_read : Action
action_read = str "read"

abbrev pub action_manage : Action
action_manage = str "manage"

abbrev pub action_run : Action
action_run = str "run"

abbrev pub resource_monitor : Resource
resource_monitor = str "monitor"

abbrev pub resource_incident : Resource
resource_incident = str "incident"

abbrev pub resource_job : Resource
resource_job = str "job"

abbrev pub resource_maintenance : Resource
resource_maintenance = str "maintenance"

-- The errors of this package.
pub data AbilityError : Type 0 where
  authentication_required not_authorized : AbilityError

-- A context.Context, with what `WithValue` stored under the package's key.
pub record Context : Type 0 where
  pub user : Option CurrentUser

abbrev pub background : Context
background = record { user = none }

unfoldable pub with_user : Context → CurrentUser → Context
with_user ctx user = record ctx { user = some user }

unfoldable pub user_from_context : Context → Option CurrentUser
user_from_context ctx = ctx.user

unfoldable pub can : GoString → Action → Resource → Bool
can role action resource =
    if role == str "admin"
    then true
    else if role == str "operator"
    then if resource == resource_maintenance && not (action == action_read)
      then false
      else action == action_read || action == action_manage || action == action_run
    else if role == str "viewer"
    then action == action_read
    else false

unfoldable pub require : Context → Action → Resource → Result AbilityError CurrentUser
unfolding user_from_context
require ctx action resource = elim (user_from_context ctx) [
  | none ↦ err authentication_required
  | some user ↦ if can user.role action resource then ok user else err not_authorized
]
