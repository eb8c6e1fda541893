-- ===== src/Config/Validation.antt =====
-- What FromEnv accepts, and what its defaults are.
use go_fibe.Base.{
  ◌≡◌, ◌≢◌, ◌↔◌, ◌⊎◌, refl, Bool, true, not, ◌&&◌, List, [], ◌∷◌, all, map, filter, arith,
}
use go_fibe.Base.Exec.{ok}
use go_fibe.Strings.{GoString, ◌==◌, is_empty, trim_space, split}
use go_fibe.Strings.Equality.{eq_iff}
use go_fibe.Strings.Trimming.{trim_space_idem}
use go_fibe.Config.{
  Config, csp_mode_off, csp_mode_report_only, csp_mode_enforce, cookie_secure_auto,
  cookie_secure_always, cookie_secure_never,
}
use go_fibe.Config.Env.{Getenv, env_or, list_env, read_env, check_config, from_env}

-- A configuration with which the program may start.
pub record IsUsable (c : Config) : Type 0 where
  pub has_database : c.database_url ≢ []
  pub has_redis : c.redis_url ≢ []
  pub known_csp_mode :
      (c.csp_mode ≡ csp_mode_off)
      ⊎ (c.csp_mode ≡ csp_mode_report_only)
      ⊎ (c.csp_mode ≡ csp_mode_enforce)
  pub known_cookie_secure :
      (c.cookie_secure ≡ cookie_secure_auto)
      ⊎ (c.cookie_secure ≡ cookie_secure_always)
      ⊎ (c.cookie_secure ≡ cookie_secure_never)

check_config_iff : (c d : Config) → (check_config c ≡ ok d) ↔ ((c ≡ d) × IsUsable c)
unfolding check_config is_empty
check_config_iff c d = (
  λ h. ground (
    arith,
    eq_iff c.csp_mode csp_mode_off,
    eq_iff c.csp_mode csp_mode_report_only,
    eq_iff c.csp_mode csp_mode_enforce,
    eq_iff c.cookie_secure cookie_secure_auto,
    eq_iff c.cookie_secure cookie_secure_always,
    eq_iff c.cookie_secure cookie_secure_never,
  ),
  λ h. ground (
    arith,
    eq_iff c.csp_mode csp_mode_off,
    eq_iff c.csp_mode csp_mode_report_only,
    eq_iff c.csp_mode csp_mode_enforce,
    eq_iff c.cookie_secure cookie_secure_auto,
    eq_iff c.cookie_secure cookie_secure_always,
    eq_iff c.cookie_secure cookie_secure_never,
  ),
)

-- FromEnv returns a configuration exactly when what it has read has a database URL, a Redis URL and
-- known modes for the CSP and the secure cookies, and then returns that.
pub from_env_iff :
    (getenv : Getenv) (c : Config)
    → (from_env getenv ≡ ok c) ↔ ((read_env getenv ≡ c) × IsUsable (read_env getenv))
unfolding from_env
from_env_iff getenv c = check_config_iff (read_env getenv) c

-- An item of a list variable: not empty, and without spaces at its ends.
abbrev pub is_item : GoString → Bool
is_item v = not (is_empty v) && trim_space v == v

items :
    (parts : List GoString)
    → all is_item (filter (λ v. not (is_empty v)) (map trim_space parts)) ≡ true
items [] = refl
items (p ∷ parts) =
    ground
      (arith, items parts, trim_space_idem p, eq_iff (trim_space (trim_space p)) (trim_space p))

-- No list variable yields an empty or padded entry, whatever its text and its fallback.
pub list_env_items :
    (getenv : Getenv) (key fallback : GoString) → all is_item (list_env getenv key fallback) ≡ true
unfolding list_env
list_env_items getenv key fallback = items (split (env_or getenv key fallback) b',')
