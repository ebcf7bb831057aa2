-- ===== src/Config.antt =====
-- internal/config/config.go: what Load makes of the decoded file. Package yaml has decoded it; the
-- environment is an argument.
pub mod Types
pub mod Defaults
pub mod Checks
pub mod Valid
use flamedb.Config.Checks.{check_ranges, check_engine, check_auth, with_environment_key}
use flamedb.Config.Defaults.{Env, expand_secrets, with_defaults}
use flamedb.Config.Types.{Config}
use flamedb.Query.Types.{Result, ok, ◌>>=◌}

-- Load
unfoldable pub load : Env → Config → Result Config
unfolding expand_secrets with_defaults check_ranges check_engine with_environment_key check_auth
load env decoded = check_ranges (with_defaults (expand_secrets env decoded)) >>= λ c.
    check_engine c >>= λ e. check_auth env (with_environment_key env e)
