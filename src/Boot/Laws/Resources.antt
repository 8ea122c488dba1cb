-- ===== src/Boot/Laws/Resources.antt =====
-- Which connections are open after a start that fails, and after one that succeeds.
use prompt_manager.Base.{ℕ, ◌+◌, ◌-◌, ◌≡◌, refl, subst, arith}
use prompt_manager.Domain.{Result, ok, err}
use prompt_manager.Store.{Action}
use prompt_manager.Config.Settings.{SeedAdminConfig, DatabaseConfig, RedisConfig, Config}
use prompt_manager.Auth.Library.{Library}
use prompt_manager.Auth.Seed.{ensure_default_admin}
use prompt_manager.Boot.Resources.{
  Handles, Machine, Call, Drivers, Db, Client, new_database, new_client, pinged_database,
  opened_database, pinged_client, database_closed, client_closed,
}
use prompt_manager.Boot.Initialize.{
  Container, or_undo, on_world, with_admin, with_redis, initialize, cleanup,
}

-- one connection of each kind more
abbrev pub with_both : Handles → Handles
with_both h = record { databases = h.databases + 1; clients = h.clients + 1 }

-- A start that fails has closed what it opened; one that succeeds holds a database and a client.
abbrev pub Balanced : {A : Type 0} → (Handles → Handles) → Handles → Result A × Machine → Type 0
Balanced more h (ok a, m) = m.handles ≡ more h
Balanced more h (err e, m) = m.handles ≡ h

abbrev pub Released : Drivers → Handles → Result Container × Machine → Type 0
Released d h (ok c, m) = (m.handles ≡ with_both h) × ((cleanup d m).1.handles ≡ h)
Released d h (err e, m) = m.handles ≡ h

abbrev with_database : Handles → Handles
with_database h = record h { databases = h.databases + 1 }

abbrev with_client : Handles → Handles
with_client h = record h { clients = h.clients + 1 }

-- A step behind another one, and what is undone where that one fails.
or_undo-Balanced :
    {A B : Type 0} (undo : Machine → Machine) (rest : A → Call B)
    (more then_more : Handles → Handles) (h k : Handles) (r : Result A × Machine)
    → Balanced more h r
    → ((a : A) (m : Machine) → m.handles ≡ more h → Balanced then_more k (rest a m))
    → ((m : Machine) → m.handles ≡ h → (undo m).handles ≡ k)
    → Balanced then_more k (or_undo undo rest r)
or_undo-Balanced undo rest more then_more h k (ok a, m) b go back = go a m b
or_undo-Balanced undo rest more then_more h k (err e, m) b go back = back m b

minus_one : (n : ℕ) → n + 1 - 1 ≡ n
minus_one n = omega arith

database_closed-handles :
    (h : Handles) (m : Machine) → m.handles ≡ with_database h → (database_closed m).handles ≡ h
database_closed-handles h m e = rw (e, minus_one) refl

pinged_database-Balanced :
    (r : Result (Unit {0})) (cfg : DatabaseConfig) (h : Handles) (m : Machine)
    → m.handles ≡ with_database h
    → Balanced with_database h (pinged_database r cfg m)
pinged_database-Balanced (ok _) cfg h m e = e
pinged_database-Balanced (err x) cfg h m e = database_closed-handles h m e

opened_database-Balanced :
    (d : Drivers) (r : Result (Unit {0})) (cfg : DatabaseConfig) (m : Machine)
    → Balanced with_database m.handles (opened_database d r cfg m)
opened_database-Balanced d (ok _) cfg m = pinged_database-Balanced _ cfg m.handles _ refl
opened_database-Balanced d (err x) cfg m = refl

new_database-Balanced :
    (d : Drivers) (cfg : DatabaseConfig) (m : Machine)
    → Balanced with_database m.handles (new_database d cfg m)
unfolding new_database
new_database-Balanced d cfg m = opened_database-Balanced d _ cfg m

client_closed-handles :
    (h : Handles) (m : Machine) → m.handles ≡ with_client h → (client_closed m).handles ≡ h
client_closed-handles h m e = rw (e, minus_one) refl

pinged_client-Balanced :
    (r : Result (Unit {0})) (cfg : RedisConfig) (h : Handles) (m : Machine)
    → m.handles ≡ with_client h
    → Balanced with_client h (pinged_client r cfg m)
pinged_client-Balanced (ok _) cfg h m e = e
pinged_client-Balanced (err x) cfg h m e = client_closed-handles h m e

new_client-Balanced :
    (d : Drivers) (cfg : RedisConfig) (m : Machine)
    → Balanced with_client m.handles (new_client d cfg m)
unfolding new_client
new_client-Balanced d cfg m = pinged_client-Balanced _ cfg m.handles _ refl

pub both_closed-handles :
    (h : Handles) (m : Machine)
    → m.handles ≡ with_both h
    → (client_closed (database_closed m)).handles ≡ h
both_closed-handles h m e = rw (e, minus_one h.databases, minus_one h.clients) refl

on_world-Balanced :
    {A : Type 0} (call : Action A) (m : Machine) → Balanced (λ h. h) m.handles (on_world call m)
on_world-Balanced {A} call m = go (call m.world).0
  where
    go : (r : Result A) → Balanced (λ h. h) m.handles (r, record m { world = (call m.world).1 })
    go (ok a) = refl
    go (err e) = refl

module _ (d : Drivers) (l : Library) (cfg : Config) (legacy : SeedAdminConfig) where
  with_admin-Balanced :
      (db : Db) (redis : Client) (h : Handles) (m : Machine)
      → m.handles ≡ with_both h
      → Balanced with_both h (with_admin l cfg legacy db redis m)
  with_admin-Balanced db redis h m e =
      or_undo-Balanced _ _ (λ k. k) with_both (with_both h) h _
        (subst
          (λ (k : Handles).
            Balanced (λ x. x) k (on_world (ensure_default_admin l cfg.seed.admin legacy) m))
          e (on_world-Balanced (ensure_default_admin l cfg.seed.admin legacy) m))
        (λ done m' kept. kept) (both_closed-handles h)

  with_redis-Balanced :
      (db : Db) (h : Handles) (m : Machine)
      → m.handles ≡ with_database h
      → Balanced with_both h (with_redis d l cfg legacy db m)
  with_redis-Balanced db h m e =
      or_undo-Balanced _ _ with_client with_both (with_database h) h _
        (subst (λ (k : Handles). Balanced with_client k (new_client d cfg.redis m)) e
          (new_client-Balanced d cfg.redis m))
        (λ redis m' opened. with_admin-Balanced db redis h m' opened) (database_closed-handles h)

  pub initialize-Balanced :
      (m : Machine) → Balanced with_both m.handles (initialize d l cfg legacy m)
  unfolding initialize
  initialize-Balanced m =
      or_undo-Balanced _ _ with_database with_both m.handles m.handles _
        (new_database-Balanced d cfg.database m)
        (λ db m' opened. with_redis-Balanced db m.handles m' opened)
        (λ m' same_handles. same_handles)

  -- Initialize, whatever fails in it, leaves the connections that were open where it fails; where it
  -- succeeds it has opened one database and one client, and the clean-up, whatever the Close
  -- methods answer, leaves those that were open before.
  pub initialize-Released : (m : Machine) → Released d m.handles (initialize d l cfg legacy m)
  unfolding cleanup
  initialize-Released m = go _ (initialize-Balanced m)
    where
      go :
          (r : Result Container × Machine) → Balanced with_both m.handles r → Released d m.handles r
      go (ok c, m') b = (b, both_closed-handles m.handles m' b)
      go (err e, m') b = b
