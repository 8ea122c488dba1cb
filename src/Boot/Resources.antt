-- ===== src/Boot/Resources.antt =====
-- The connections that the program holds: internal/infra/database/database.go and
-- internal/infra/cache/redis.go. `Drivers` are the libraries under them.
use prompt_manager.Base.{ℕ, ◌+◌, ◌-◌, ℤ, Option, none, some, ◌++◌, is_positive, if◌then◌else◌}
use prompt_manager.Text.{Text, codes}
use prompt_manager.Domain.{Error, other, message, Result, ok, err}
use prompt_manager.Store.{World}
use prompt_manager.Config.Settings.{DatabaseConfig, RedisConfig}

-- how many connections of each kind are open
pub record Handles : Type 0 where
  pub databases : ℕ
  pub clients : ℕ

pub record Machine : Type 0 where
  pub world : World
  pub handles : Handles

-- A call of the start-up: it may fail, and it opens and closes connections.
abbrev pub Call : Type 0 → Type 0
Call A = Machine → Result A × Machine

pub record Drivers : Type 0 where
  -- sql.Open, and the pings, each within its time
  pub open_database : (driver dsn : Text) → Result (Unit {0})
  pub ping_database : DatabaseConfig → Result (Unit {0})
  pub ping_redis : RedisConfig → Result (Unit {0})
  -- what the Close methods return
  pub close_database : Result (Unit {0})
  pub close_redis : Result (Unit {0})

-- *sql.DB, with the settings of its pool that have been made
pub record Db : Type 0 where
  pub driver : Text
  pub max_open : Option ℤ
  pub max_idle : Option ℤ
  pub conn_max_lifetime : Option ℤ

-- *redis.Client, with its options
pub record Client : Type 0 where
  pub options : RedisConfig

abbrev pub database_opened : Machine → Machine
database_opened m = record m { handles = record m.handles { databases = m.handles.databases + 1 } }

abbrev pub database_closed : Machine → Machine
database_closed m = record m { handles = record m.handles { databases = m.handles.databases - 1 } }

abbrev pub client_opened : Machine → Machine
client_opened m = record m { handles = record m.handles { clients = m.handles.clients + 1 } }

abbrev pub client_closed : Machine → Machine
client_closed m = record m { handles = record m.handles { clients = m.handles.clients - 1 } }

-- fmt.Errorf("…: %w", err)
abbrev pub prefixed : Text → Error → Error
prefixed text e = other (text ++ (codes ": " ++ message e))

abbrev pub if_positive : ℤ → Option ℤ
if_positive n = if is_positive n then some n else none

abbrev pub pool_of : DatabaseConfig → Db
pool_of cfg = record {
  driver = cfg.driver;
  max_open = if_positive cfg.max_open;
  max_idle = if_positive cfg.max_idle;
  conn_max_lifetime = if_positive cfg.conn_max_lifetime;
}

abbrev pub pinged_database : Result (Unit {0}) → DatabaseConfig → Call Db
pinged_database (ok _) cfg m = (ok (pool_of cfg), m)
pinged_database (err e) cfg m = (err (prefixed (codes "ping database") e), database_closed m)

abbrev pub opened_database : Drivers → Result (Unit {0}) → DatabaseConfig → Call Db
opened_database d (err e) cfg m = (err (prefixed (codes "open database") e), m)
opened_database d (ok _) cfg m = pinged_database (d.ping_database cfg) cfg (database_opened m)

-- database.New
unfoldable pub new_database : Drivers → DatabaseConfig → Call Db
new_database d cfg = opened_database d (d.open_database cfg.driver cfg.dsn) cfg

abbrev pub pinged_client : Result (Unit {0}) → RedisConfig → Call Client
pinged_client (ok _) cfg m = (ok (record { options = cfg }), m)
pinged_client (err e) cfg m = (err e, client_closed m)

-- cache.New
unfoldable pub new_client : Drivers → RedisConfig → Call Client
new_client d cfg m = pinged_client (d.ping_redis cfg) cfg (client_opened m)

-- database.Health and cache.Health, of a connection that is there or not
unfoldable pub database_health : Option (Result (Unit {0})) → Result (Unit {0})
database_health none = err (other (codes "db not initialized"))
database_health (some ping) = ping

unfoldable pub redis_health : Option (Result (Unit {0})) → Result (Unit {0})
redis_health none = err (other (codes "redis not initialized"))
redis_health (some ping) = ping
