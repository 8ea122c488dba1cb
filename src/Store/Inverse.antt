-- ===== src/Store/Inverse.antt =====
-- What is known of an action from its success, in any world.
use prompt_manager.Base.{◌≡◌, refl, ap, ◌∙◌, Bool, true, false, Option, none, some}
use prompt_manager.Text.{Text}
use prompt_manager.Domain.{Error, Result, ok, err}
use prompt_manager.Store.Tables.{Database, Engine}
use prompt_manager.Store.Statement.{
  World, Action, pure, raise, lift, ◌>>=◌, ◌>>◌, raise_if, map_error, query, answered, advance,
  next_event, found,
}

-- A sequence that has succeeded: its first part has, with a result from which the rest went on.
pub record Went {A B : Type 0} (m : Action A) (k : A → Action B) (w : World) (b : B) : Type 0 where
  pub result : A
  pub world : World
  pub first_done : m w ≡ (ok result, world)
  pub rest_done : (k result world).0 ≡ ok b

pub bind-Went :
    {A B : Type 0} (m : Action A) (k : A → Action B) (w : World) {b : B}
    → ((m >>= k) w).0 ≡ ok b
    → Went m k w b
unfolding ◌>>=◌
bind-Went {A = A} {B = B} m k w {b} h = go (m w) refl h
  where
    go : (r : Result A × World) → m w ≡ r → (◌>>=◌ (λ _. r) k w).0 ≡ ok b → Went m k w b
    go (ok a, w') e h = record { result = a; world = w'; first_done = e; rest_done = h }
    go (err x, w') e h = absurd (cc h)

pub then-Went :
    {A B : Type 0} (m : Action A) (k : Action B) (w : World) {b : B}
    → ((m >> k) w).0 ≡ ok b
    → Went m (λ _. k) w b
unfolding ◌>>◌
then-Went m k w h = bind-Went m (λ _. k) w h

pub raise_if_passed :
    (c : Bool) (e : Error) (w : World) {w' : World} {u : Unit {0}}
    → raise_if c e w ≡ (ok u, w')
    → c ≡ false
unfolding raise_if
raise_if_passed true e w h = absurd (cc h)
raise_if_passed false e w h = refl

pub map_error_passed :
    {A : Type 0} (f : Error → Error) (m : Action A) (w : World) {w' : World} {a : A}
    → map_error f m w ≡ (ok a, w')
    → m w ≡ (ok a, w')
unfolding map_error
map_error_passed {A} f m w {w'} {a} h = go (m w) refl h
  where
    go : (r : Result A × World) → m w ≡ r → map_error f (λ _. r) w ≡ (ok a, w') → m w ≡ (ok a, w')
    go (ok a', v) e h = e ∙ h
    go (err x, v) e h = absurd (cc h)

pub lift_passed :
    {A : Type 0} (r : Result A) (w : World) {w' : World} {a : A} → lift r w ≡ (ok a, w') → r ≡ ok a
unfolding lift
lift_passed {A} r w h = ap (λ (x : Result A × World). x.0) h

-- A row that has been read stands in the database of some moment.
pub record Read {A : Type 0} (f : Engine → Database → Option A) (a : A) : Type 0 where
  pub engine : Engine
  pub db : Database
  pub row : f engine db ≡ some a

pub query-found-Read :
    {A : Type 0} (f : Engine → Database → Option A) (w : World) {w' : World} {a : A}
    → (query f >>= found) w ≡ (ok a, w')
    → Read f a
unfolding query ◌>>=◌ found raise pure
query-found-Read {A = A} f w {w'} {a} h = go (next_event w).fault h
  where
    go :
        (fault : Option Text)
        → ◌>>=◌ (answered fault (f (advance w).engine (advance w).db)) found (advance w)
          ≡ (ok a, w')
        → Read f a
    go (some text) h = absurd (cc h)
    go none h = row (f (advance w).engine (advance w).db) refl h
      where
        row :
            (o : Option A)
            → f (advance w).engine (advance w).db ≡ o
            → found o (advance w) ≡ (ok a, w')
            → Read f a
        row none e h = absurd (cc h)
        row (some x) e h = record {
          engine = (advance w).engine;
          db = (advance w).db;
          row = e ∙ cc h;
        }
