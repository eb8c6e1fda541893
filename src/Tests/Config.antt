-- ===== src/Tests/Config.antt =====
-- Runs of FromEnv.
use go_fibe.Base.{◌≡◌, ◌↔◌, [], true, all, if◌then◌else◌}
use go_fibe.Base.Exec.{ok}
use go_fibe.Strings.{str, ◌==◌}
use go_fibe.Config.Env.{Getenv, list_env, read_env, from_env}
use go_fibe.Config.Validation.{IsUsable, from_env_iff, list_env_items, is_item}

abbrev environment : Getenv
environment key =
    if key == str "DATABASE_URL"
    then str "postgres://db"
    else if key == str "REDIS_URL"
    then str "redis://cache"
    else if key == str "APP_ALLOWED_HOSTS"
    then str " a.test,, b.test "
    else []

from_env_iff_example :
    (from_env environment ≡ ok (read_env environment))
    ↔ ((read_env environment ≡ read_env environment) × IsUsable (read_env environment))
from_env_iff_example = from_env_iff environment (read_env environment)

list_env_items_example :
    all is_item (list_env environment (str "APP_ALLOWED_HOSTS") (str "*")) ≡ true
list_env_items_example = list_env_items environment (str "APP_ALLOWED_HOSTS") (str "*")
