-- ===== src/Http/Router/Health.antt =====
-- defaultHealthHandler: what /healthz says of the database and of redis.
use prompt_manager.Base.{ℕ, Option, none, some}
use prompt_manager.Text.{Text, codes}
use prompt_manager.Domain.{message, Result, ok, err}
use prompt_manager.Config.Settings.{AppConfig}
use prompt_manager.Boot.Resources.{database_health, redis_health}

-- HealthDependencies: each dependency, if it is there, by what its ping returns
pub record HealthDependencies : Type 0 where
  pub db : Option (Result (Unit {0}))
  pub redis : Option (Result (Unit {0}))

pub data DependencyStatus : Type 0 where
  missing : DependencyStatus
  up : DependencyStatus
  error : Text → DependencyStatus

pub record Health : Type 0 where
  pub http_status : ℕ
  pub status : Text
  pub service : Text
  pub env : Text
  -- the database, and redis
  pub dependencies : Option (DependencyStatus × DependencyStatus)

abbrev pub checked : Result (Unit {0}) → DependencyStatus
checked (ok _) = up
checked (err e) = error (message e)

abbrev pub database_status : Option (Result (Unit {0})) → DependencyStatus
database_status none = missing
database_status (some ping) = checked (database_health (some ping))

abbrev pub redis_status : Option (Result (Unit {0})) → DependencyStatus
redis_status none = missing
redis_status (some ping) = checked (redis_health (some ping))

-- httpStatus and result["status"], behind a dependency
abbrev pub degrade : DependencyStatus → Health → Health
degrade missing h = h
degrade up h = h
degrade (error text) h = record h { http_status = 503; status = codes "degraded" }

abbrev pub with_dependencies : Option HealthDependencies → Health → Health
with_dependencies none h = h
with_dependencies (some deps) h =
    let db = database_status deps.db in
    let redis = redis_status deps.redis in
    record (degrade redis (degrade db h)) { dependencies = some (db, redis) }

unfoldable pub default_health_handler : AppConfig → Option HealthDependencies → Health
unfolding database_health redis_health
default_health_handler app deps = with_dependencies deps (record {
  http_status = 200;
  status = codes "ok";
  service = app.name;
  env = app.env;
  dependencies = none;
})
