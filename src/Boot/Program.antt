-- ===== src/Boot/Program.antt =====
-- cmd/server/main.go, with pkg/logger: the start, the run, and what is closed at the end.
use prompt_manager.Base.{ℕ, ◌++◌, true, false, if◌then◌else◌}
use prompt_manager.Text.{Text, codes, is_empty, to_lower}
use prompt_manager.Domain.{other, message, Result, ok, err}
use prompt_manager.Store.{Action}
use prompt_manager.Config.Settings.{SeedAdminConfig, Config}
use prompt_manager.Auth.Library.{Library}
use prompt_manager.Http.Router.Routes.{RouterOptions}
use prompt_manager.Boot.Resources.{Machine, Drivers}
use prompt_manager.Boot.Initialize.{Container, initialize, cleanup, on_world}

-- parseLevel of pkg/logger/logger.go; `set_level` is zapcore's reading of a level, and `quote` what
-- %q makes of a text
unfoldable pub parse_level :
    (set_level : Text → Result Text) (quote : Text → Text) → Text → Result Text
parse_level set_level quote level =
    if is_empty level then ok (codes "info") else elim (set_level (to_lower level)) [
      | ok lvl ↦ ok lvl
      | err e ↦ err (other (codes "invalid log level " ++ quote level ++ codes ": " ++ message e))
    ]

-- limiter.Rate, with its period in seconds. Both limiters stand on one store.
pub record Rate : Type 0 where
  pub period : ℕ
  pub limit : ℕ

abbrev pub general_rate : Rate
general_rate = record { period = 60; limit = 120 }

abbrev pub login_rate : Rate
login_rate = record { period = 60; limit = 10 }

-- the handlers that main gives to NewEngine
abbrev pub main_options : RouterOptions
main_options = record {
  health_handler = false;
  auth_handler = true;
  prompt_handler = true;
  rate_limiter = true;
  auth_rate_limit = false;
  login_rate_limit = true;
}

-- What the program takes from outside: the configuration that Load gives, the libraries, and what
-- comes of Application.Run on the database.
pub record Outside : Type 0 where
  pub config : Result Config
  pub set_level : Text → Result Text
  pub quote : Text → Text
  pub drivers : Drivers
  pub library : Library
  -- the variables PROMPT_MANAGER_INIT_ADMIN_…
  pub legacy : SeedAdminConfig
  pub run : Config → Container → Action (Unit {0})

abbrev pub Exit : Type 0
Exit = ℕ × Machine

-- `log.Fatal` and `os.Exit(1)` end the program at once: no deferred call is made.
abbrev pub exit_1 : Machine → Exit
exit_1 m = (1, m)

-- The deferred clean-up, whose errors are logged only.
abbrev pub returned_from_main : Drivers → Machine → Exit
returned_from_main d m = (0, (cleanup d m).1)

abbrev pub after_run : Drivers → Result (Unit {0}) × Machine → Exit
after_run d (ok _, m) = returned_from_main d m
after_run d (err e, m) = exit_1 m

abbrev pub after_initialize : Outside → Config → Result Container × Machine → Exit
after_initialize o cfg (ok container, m) = after_run o.drivers (on_world (o.run cfg container) m)
after_initialize o cfg (err e, m) = exit_1 m

abbrev pub with_logger : Outside → Config → Result Text → Machine → Exit
with_logger o cfg (ok level) m =
    after_initialize o cfg (initialize o.drivers o.library cfg o.legacy m)
with_logger o cfg (err e) m = exit_1 m

abbrev pub with_config : Outside → Result Config → Machine → Exit
with_config o (ok cfg) m = with_logger o cfg (parse_level o.set_level o.quote cfg.logging.level) m
with_config o (err e) m = exit_1 m

unfoldable pub main : Outside → Machine → Exit
main o m = with_config o o.config m
