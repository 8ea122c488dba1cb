-- ===== src/Http/Router/HealthLaws.antt =====
-- When the health check answers 503.
use prompt_manager.Base.{◌≡◌, refl, Bool, true, false, ◌||◌, Option, none, some, if◌then◌else◌}
use prompt_manager.Text.{codes}
use prompt_manager.Domain.{Result, ok, err}
use prompt_manager.Config.Settings.{AppConfig}
use prompt_manager.Http.Router.Health.{
  HealthDependencies, database_status, redis_status, default_health_handler,
}

-- a dependency that is there and does not answer its ping
abbrev pub fails : Option (Result (Unit {0})) → Bool
fails none = false
fails (some (ok _)) = false
fails (some (err e)) = true

-- The health check answers 503 and "degraded" exactly where the database or redis is there and does
-- not answer, and else 200 and "ok", and it names the state of both; a dependency that is missing
-- does not count.
pub default_health_handler_lem :
    (app : AppConfig) (deps : HealthDependencies)
    → let h = default_health_handler app (some deps) in
      let bad = fails deps.db || fails deps.redis in
      (h.http_status ≡ (if bad then 503 else 200))
      × (h.status ≡ (if bad then codes "degraded" else codes "ok"))
      × (h.dependencies ≡ some (database_status deps.db, redis_status deps.redis))
unfolding default_health_handler
default_health_handler_lem app deps = go deps.db deps.redis
  where
    go :
        (db redis : Option (Result (Unit {0})))
        → let h = default_health_handler app (some (record { db = db; redis = redis })) in
          let bad = fails db || fails redis in
          (h.http_status ≡ (if bad then 503 else 200))
          × (h.status ≡ (if bad then codes "degraded" else codes "ok"))
          × (h.dependencies ≡ some (database_status db, redis_status redis))
    go none none = (refl, refl, refl)
    go none (some (ok _)) = (refl, refl, refl)
    go none (some (err e)) = (refl, refl, refl)
    go (some (ok _)) none = (refl, refl, refl)
    go (some (ok _)) (some (ok _)) = (refl, refl, refl)
    go (some (ok _)) (some (err e)) = (refl, refl, refl)
    go (some (err e)) none = (refl, refl, refl)
    go (some (err e)) (some (ok _)) = (refl, refl, refl)
    go (some (err e)) (some (err f)) = (refl, refl, refl)
