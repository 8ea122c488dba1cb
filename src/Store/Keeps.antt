-- ===== src/Store/Keeps.antt =====
-- Invariants of the database under calls: one rule for each way to build an action. The writes of
-- other clients between two statements are trusted to keep the invariant.
use prompt_manager.Base.{
  ℕ, zero, suc, ◌≡◌, refl, Bool, true, false, Option, none, some, List, [], ◌∷◌, All, if◌then◌else◌,
}
use prompt_manager.Text.{Text}
use prompt_manager.Domain.{Error, Result, ok, err}
use prompt_manager.Store.Tables.{Database, Engine, Write}
use prompt_manager.Store.Statement.{
  Event, World, Action, pure, raise, attempt, lift, ◌>>=◌, ◌>>◌, raise_if, map_error, next_event,
  advance, rest_of, answered, written, query, exec, new_id, affected, found,
}

-- An invariant is a family: what is known of the database, for each thing `i` that a call has read.
-- Whatever other clients do at the event, each member survives.
pub record IsTrusted {I : Type 0} (P : I → Database → Type 0) (ev : Event) : Type 0 where
  pub keeps : (i : I) (db : Database) → P i db → P i (ev.others db)

pub record Holds {I : Type 0} (P : I → Database → Type 0) (i : I) (w : World) : Type 0 where
  pub now : P i w.db
  pub later : All (IsTrusted P) w.events

-- `m` keeps `P i`, whether it returns or fails
pub record Keeps {I A : Type 0} (P : I → Database → Type 0) (i : I) (m : Action A) : Type 0 where
  pub at : (w : World) → Holds P i w → Holds P i (m w).1

module _ {I : Type 0} {P : I → Database → Type 0} {i : I} where
  pub Holds-advance : (w : World) → Holds P i w → Holds P i (advance w)
  Holds-advance w h = record { now = changed w.events h.later; later = rest w.events h.later }
    where
      changed :
          (evs : List Event)
          → All (IsTrusted P) evs
          → P i ((next_event (record w { events = evs })).others w.db)
      changed [] t = h.now
      changed (ev ∷ evs) t = t.0.keeps i w.db h.now

      rest : (evs : List Event) → All (IsTrusted P) evs → All (IsTrusted P) (rest_of evs)
      rest [] t = tt
      rest (ev ∷ evs) t = t.1

module _ {I : Type 0} {P : I → Database → Type 0} {i : I} {A : Type 0} where
  pub Keeps-pure : (a : A) → Keeps P i (pure a)
  unfolding pure
  Keeps-pure a = record { at = λ w h. h }

  pub Keeps-raise : (e : Error) → Keeps P i (raise {A = A} e)
  unfolding raise
  Keeps-raise e = record { at = λ w h. h }

  pub Keeps-lift : (r : Result A) → Keeps P i (lift r)
  unfolding lift
  Keeps-lift r = record { at = λ w h. h }

  pub Keeps-attempt : (m : Action A) → Keeps P i m → Keeps P i (attempt m)
  unfolding attempt
  Keeps-attempt m k = record { at = k.at }

  pub Keeps-map_error : (f : Error → Error) (m : Action A) → Keeps P i m → Keeps P i (map_error f m)
  unfolding map_error
  Keeps-map_error f m k = record { at = λ w h. after (m w).0 (m w).1 (k.at w h) }
    where
      after : (r : Result A) (w : World) → Holds P i w → Holds P i (map_error f (λ _. (r, w)) w).1
      after (ok a) w h = h
      after (err e) w h = h

  pub Keeps-if :
      (b : Bool) (m n : Action A) → Keeps P i m → Keeps P i n → Keeps P i (if b then m else n)
  Keeps-if true m n km kn = km
  Keeps-if false m n km kn = kn

  pub Keeps-found : (o : Option A) → Keeps P i (found o)
  unfolding found
  Keeps-found none = Keeps-raise _
  Keeps-found (some a) = Keeps-pure a

  pub Keeps-query : (f : Engine → Database → A) → Keeps P i (query f)
  unfolding query
  Keeps-query f = record { at = λ w h. answer (next_event w).fault _ (Holds-advance w h) }
    where
      answer : (o : Option Text) {w : World} (a : A) → Holds P i w → Holds P i (answered o a w).1
      answer none a h = h
      answer (some t) a h = h

module _ {I : Type 0} {P : I → Database → Type 0} {i : I} where
  pub Keeps-raise_if : (c : Bool) (e : Error) → Keeps P i (raise_if c e)
  unfolding raise_if
  Keeps-raise_if c e = record { at = λ w h. h }

  pub Keeps-affected : (n : ℕ) → Keeps P i (affected n)
  unfolding affected
  Keeps-affected zero = Keeps-raise _
  Keeps-affected (suc n) = Keeps-pure _

  pub Keeps-new_id : Keeps P i new_id
  unfolding new_id
  Keeps-new_id = record { at = λ w h. record { now = h.now; later = h.later } }

  -- A write keeps the invariant if its effect does, wherever it succeeds.
  pub Keeps-exec :
      (f : ℕ → Write)
      → ((now : ℕ) (e : Engine) (db : Database) (n : ℕ) (db' : Database)
          → P i db
          → f now e db ≡ ok (n, db')
          → P i db')
      → Keeps P i (exec f)
  unfolding exec
  Keeps-exec f keep = record {
    at = λ w h. let w' = advance w in effect (next_event w).fault _ w' refl (Holds-advance w h);
  }
    where
      effect :
          (o : Option Text) (r : Result (ℕ × Database)) (w : World)
          → f w.now w.engine w.db ≡ r
          → Holds P i w
          → Holds P i (written o r w).1
      effect none (ok (n, db')) w e h = record {
        now = keep w.now w.engine w.db n db' h.now e;
        later = h.later;
      }
      effect none (err x) w e h = h
      effect (some t) r w e h = h

module _ {I : Type 0} {P : I → Database → Type 0} {i : I} {A B : Type 0} where
  pub Keeps-bind :
      (m : Action A) (f : A → Action B)
      → Keeps P i m
      → ((a : A) → Keeps P i (f a))
      → Keeps P i (m >>= f)
  unfolding ◌>>=◌
  Keeps-bind m f km kf = record { at = λ w h. next (m w).0 (m w).1 (km.at w h) }
    where
      next : (r : Result A) (w : World) → Holds P i w → Holds P i (◌>>=◌ (λ _. (r, w)) f w).1
      next (ok a) w h = (kf a).at w h
      next (err e) w h = h

  pub Keeps-then : (m : Action A) (k : Action B) → Keeps P i m → Keeps P i k → Keeps P i (m >> k)
  unfolding ◌>>◌
  Keeps-then m k km kk = Keeps-bind m (λ _. k) km (λ _. kk)

-- A read: what the rows show of the database is known in the rest of the call, and given up at
-- its end.
module _ {I A B : Type 0} {P : I → Database → Type 0} {i : I} (learnt : A → I) where
  pub Keeps-read :
      (f : Engine → Database → A) (k : A → Action B)
      → ((e : Engine) (db : Database) → P i db → P (learnt (f e db)) db)
      → ((a : A) (db : Database) → P (learnt a) db → P i db)
      → ((a : A) → Keeps P (learnt a) (k a))
      → Keeps P i (query f >>= k)
  unfolding ◌>>=◌ query
  Keeps-read f k learn forget kk = record {
    at = λ w h. let w' = advance w in go (next_event w).fault w' (Holds-advance w h);
  }
    where
      go :
          (o : Option Text) (w : World)
          → Holds P i w
          → Holds P i (◌>>=◌ (λ _. answered o (f w.engine w.db) w) k w).1
      go none w h =
          let a = f w.engine w.db in
          let known : Holds P (learnt a) w = record {
            now = learn w.engine w.db h.now;
            later = h.later;
          } in
          let done = (kk a).at w known in record { now = forget a _ done.now; later = done.later }
      go (some t) w h = h

module _ {I : Type 0} {P : I → Database → Type 0} {i : I} {B : Type 0} where
  -- A test that fails the call: the rest may use that it did not.
  pub Keeps-guard :
      (c : Bool) (e : Error) (k : Action B)
      → (c ≡ false → Keeps P i k)
      → Keeps P i (raise_if c e >> k)
  unfolding ◌>>◌ ◌>>=◌ raise_if
  Keeps-guard true e k kk = record { at = λ w h. h }
  Keeps-guard false e k kk = kk refl

pub ruleset keeps_rules = (
  Keeps-pure, Keeps-raise, Keeps-lift, Keeps-attempt, Keeps-map_error, Keeps-if, Keeps-found,
  Keeps-query, Keeps-raise_if, Keeps-affected, Keeps-new_id, Keeps-bind, Keeps-then,
)
