-- ===== src/Boot/Initialize.antt =====
-- Initialize of internal/infra/container.go, and the clean-up that it returns.
use prompt_manager.Base.{List, [], ◌∷◌, ◌++◌}
use prompt_manager.Domain.{Error, Result, ok, err}
use prompt_manager.Store.{Action}
use prompt_manager.Config.Settings.{SeedAdminConfig, Config}
use prompt_manager.Auth.Library.{Library}
use prompt_manager.Auth.Seed.{ensure_default_admin}
use prompt_manager.Boot.Resources.{
  Machine, Call, Drivers, Db, Client, new_database, new_client, database_closed, client_closed,
}

-- Container, without the repositories, which hold the database
pub record Container : Type 0 where
  pub db : Db
  pub redis : Client

-- if err != nil { …; return nil, nil, err }, where `undo` closes what is open
abbrev pub or_undo :
    {A B : Type 0} → (Machine → Machine) → (A → Call B) → Result A × Machine → Result B × Machine
or_undo undo rest (ok a, m) = rest a m
or_undo undo rest (err e, m) = (err e, undo m)

-- a call of the repositories
abbrev pub on_world : {A : Type 0} → Action A → Call A
on_world call m = let (r, w) = call m.world in (r, record m { world = w })

abbrev pub with_admin : Library → Config → SeedAdminConfig → Db → Client → Call Container
with_admin l cfg legacy db redis m =
    or_undo (λ m'. client_closed (database_closed m'))
      (λ done m'. (ok (record { db = db; redis = redis }), m'))
      (on_world (ensure_default_admin l cfg.seed.admin legacy) m)

abbrev pub with_redis : Drivers → Library → Config → SeedAdminConfig → Db → Call Container
with_redis d l cfg legacy db m =
    or_undo database_closed (λ redis. with_admin l cfg legacy db redis) (new_client d cfg.redis m)

unfoldable pub initialize : Drivers → Library → Config → SeedAdminConfig → Call Container
initialize d l cfg legacy m =
    or_undo (λ m'. m') (λ db. with_redis d l cfg legacy db) (new_database d cfg.database m)

abbrev pub errors_of : Result (Unit {0}) → List Error
errors_of (ok _) = []
errors_of (err e) = e ∷ []

-- The clean-up closes both, whatever the first Close returns, and answers all the errors.
unfoldable pub cleanup : Drivers → Machine → List Error × Machine
cleanup d m =
    (errors_of d.close_database ++ errors_of d.close_redis, client_closed (database_closed m))
