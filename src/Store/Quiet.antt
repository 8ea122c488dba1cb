-- ===== src/Store/Quiet.antt =====
-- Statements in a world where no event is to come: nothing fails, and nobody else writes.
use prompt_manager.Base.{ℕ, ◌≡◌, sym, subst, ap, Bool, true, false, none, []}
use prompt_manager.Domain.{Error, Result, ok, err}
use prompt_manager.Store.Tables.{Database, Engine, Write}
use prompt_manager.Store.Statement.{
  World, Action, ◌>>=◌, ◌>>◌, map_error, raise_if, attempt, advance, next_event, query, exec,
  written,
}
use native.Mathlib.Nat.{add-zero}

abbrev pub IsQuiet : World → Type 0
IsQuiet w = w.events ≡ []

advance_quiet : (w : World) → IsQuiet w → advance w ≡ w
advance_quiet w e =
    subst (λ evs. evs ≡ [] → advance (record w { events = evs }) ≡ record w { events = evs })
      (sym e) (λ _ i. record w { events = []; now = add-zero w.now i }) e

fault_quiet : (w : World) → IsQuiet w → (next_event w).fault ≡ none
fault_quiet w e = rw e

pub query_quiet :
    {A : Type 0} (f : Engine → Database → A) (w : World)
    → IsQuiet w
    → query f w ≡ (ok (f w.engine w.db), w)
unfolding query
query_quiet f w e =
    rw (fault_quiet w e) (ap (λ (v : World). (ok (f v.engine v.db), v)) (advance_quiet w e))

pub exec_quiet :
    (f : ℕ → Write) (w : World) → IsQuiet w → exec f w ≡ written none (f w.now w.engine w.db) w
unfolding exec
exec_quiet f w e =
    rw (fault_quiet w e)
      (ap (λ (v : World). written none (f v.now v.engine v.db) v) (advance_quiet w e))

module _ {A B : Type 0} (w : World) (q : IsQuiet w) where
  pub query_then_quiet :
      (f : Engine → Database → A) (k : A → Action B) → (query f >>= k) w ≡ k (f w.engine w.db) w
  unfolding ◌>>=◌
  query_then_quiet f k = ap (λ (r : Result A × World). ◌>>=◌ (λ _. r) k w) (query_quiet f w q)

pub exec_then_quiet :
    {B : Type 0} (f : ℕ → Write) (k : ℕ → Action B) (w : World)
    → IsQuiet w
    → (exec f >>= k) w ≡ ◌>>=◌ (λ _. written none (f w.now w.engine w.db) w) k w
unfolding ◌>>=◌
exec_then_quiet f k w q = ap (λ (r : Result ℕ × World). ◌>>=◌ (λ _. r) k w) (exec_quiet f w q)

-- A call that has succeeded goes on with the rest, in the world that it has left.
module _ {A B : Type 0} (m : Action A) (w : World) {w' : World} {a : A}
    (done : m w ≡ (ok a, w')) where
  pub bind_ok : (k : A → Action B) → (m >>= k) w ≡ k a w'
  unfolding ◌>>=◌
  bind_ok k = ap (λ (r : Result A × World). ◌>>=◌ (λ _. r) k w) done

  pub then_ok : (k : Action B) → (m >> k) w ≡ k w'
  unfolding ◌>>◌
  then_ok k = bind_ok (λ _. k)

-- A call that has failed is the end.
module _ {A B : Type 0} (m : Action A) (w : World) {w' : World} {e : Error}
    (failed : m w ≡ (err e, w')) where
  pub bind_err : (k : A → Action B) → (m >>= k) w ≡ (err e, w')
  unfolding ◌>>=◌
  bind_err k = ap (λ (r : Result A × World). ◌>>=◌ (λ _. r) k w) failed

  pub then_err : (k : Action B) → (m >> k) w ≡ (err e, w')
  unfolding ◌>>◌
  then_err k = bind_err (λ _. k)

module _ {A : Type 0} (f : Error → Error) (m : Action A) (w : World) {w' : World} where
  pub map_error_ok : {a : A} → m w ≡ (ok a, w') → map_error f m w ≡ (ok a, w')
  unfolding map_error
  map_error_ok done = ap (λ (r : Result A × World). map_error f (λ _. r) w) done

  pub map_error_err : {e : Error} → m w ≡ (err e, w') → map_error f m w ≡ (err (f e), w')
  unfolding map_error
  map_error_err failed = ap (λ (r : Result A × World). map_error f (λ _. r) w) failed

pub raise_if_ok : (c : Bool) (e : Error) (w : World) → c ≡ false → raise_if c e w ≡ (ok tt, w)
unfolding raise_if
raise_if_ok c e w h = rw h

pub raise_if_err : (c : Bool) (e : Error) (w : World) → c ≡ true → raise_if c e w ≡ (err e, w)
unfolding raise_if
raise_if_err c e w h = rw h

pub attempt_result :
    {A : Type 0} (m : Action A) (w : World) {w' : World} {r : Result A}
    → m w ≡ (r, w')
    → attempt m w ≡ (ok r, w')
unfolding attempt
attempt_result {A} m w done = ap (λ (x : Result A × World). (ok x.0, x.1)) done
