-- ===== src/Store/Statement.antt =====
-- A call of the program: it runs statements one by one, and may fail. At each statement the
-- environment decides how much time has passed and whether the database fails.
use prompt_manager.Base.{ℕ, zero, suc, ◌+◌, Bool, Option, none, some, List, [], ◌∷◌, if◌then◌else◌}
use prompt_manager.Text.{Text}
use prompt_manager.Domain.{Error, not_found, other, is_not_found, Result, ok, err}
use prompt_manager.Store.Tables.{Database, Engine, Write}

-- What the environment does at a statement: time passes, other clients write, the engine fails.
pub record Event : Type 0 where
  pub elapsed : ℕ
  pub fault : Option Text
  -- what other clients of the database do before it
  pub others : Database → Database

pub record World : Type 0 where
  pub db : Database
  pub engine : Engine
  pub now : ℕ
  -- of the statements to come; behind the last event, nothing happens but the statements
  pub events : List Event
  -- uuid.NewString, and the number of its calls so far
  pub uuid : ℕ → Text
  pub issued : ℕ

abbrev pub Action : Type 0 → Type 0
Action A = World → Result A × World

module _ {A : Type 0} where
  unfoldable pub pure : A → Action A
  pure a w = (ok a, w)

  unfoldable pub raise : Error → Action A
  raise e w = (err e, w)

  -- the result as a value, for code that looks at the error
  unfoldable pub attempt : Action A → Action (Result A)
  attempt m w = let (r, w') = m w in (ok r, w')

  unfoldable pub lift : Result A → Action A
  lift r w = (r, w)

infixl 5 ◌>>=◌ ◌>>◌
unfoldable pub ◌>>=◌ : {A B : Type 0} → Action A → (A → Action B) → Action B
◌>>=◌ m f w = let (r, w') = m w in elim r [ ok a ↦ f a w' | err e ↦ (err e, w') ]

unfoldable pub ◌>>◌ : {A B : Type 0} → Action A → Action B → Action B
m >> k = m >>= λ _. k

-- if c { return e }
unfoldable pub raise_if : Bool → Error → Action (Unit {0})
raise_if c e w = (if c then err e else ok tt, w)

-- if err != nil { return f(err) }
unfoldable pub map_error : {A : Type 0} → (Error → Error) → Action A → Action A
map_error f m w = let (r, w') = m w in elim r [ ok a ↦ (ok a, w') | err e ↦ (err (f e), w') ]

-- if errors.Is(err, domain.ErrNotFound) { return e }; return err
abbrev pub missing_as : Error → Error → Error
missing_as e cause = if is_not_found cause then e else cause

abbrev pub quiet : Event
quiet = record { elapsed = 0; fault = none; others = λ db. db }

-- the event of the next statement, and the world after it
abbrev pub next_event : World → Event
next_event w = elim w.events [ [] ↦ quiet | ev ∷ _ ↦ ev ]

abbrev pub rest_of : List Event → List Event
rest_of [] = []
rest_of (_ ∷ rest) = rest

abbrev pub advance : World → World
advance w =
    let ev = next_event w in
    record w { now = w.now + ev.elapsed; db = ev.others w.db; events = rest_of w.events }

-- the rows, unless the engine fails
abbrev pub answered : {A : Type 0} → Option Text → A → Action A
answered none rows w = (ok rows, w)
answered (some text) rows w = (err (other text), w)

-- QueryContext and QueryRowContext
unfoldable pub query : {A : Type 0} → (Engine → Database → A) → Action A
query f w = let w' = advance w in answered (next_event w).fault (f w'.engine w'.db) w'

-- the effect of a write, unless the engine fails
abbrev pub written : Option Text → Result (ℕ × Database) → Action ℕ
written none (ok (n, db')) w = (ok n, record w { db = db' })
written none (err e) w = (err e, w)
written (some text) r w = (err (other text), w)

-- ExecContext, of a statement that reads the time of the database
unfoldable pub exec : (ℕ → Write) → Action ℕ
exec f w = let w' = advance w in written (next_event w).fault (f w'.now w'.engine w'.db) w'

-- time.Now()
unfoldable pub clock : Action ℕ
clock w = (ok w.now, w)

-- uuid.NewString()
unfoldable pub new_id : Action Text
new_id w = (ok (w.uuid w.issued), record w { issued = suc w.issued })

-- the check of RowsAffected
unfoldable pub affected : ℕ → Action (Unit {0})
affected zero = raise not_found
affected (suc _) = pure tt

-- the row, or domain.ErrNotFound for sql.ErrNoRows
unfoldable pub found : {A : Type 0} → Option A → Action A
found none = raise not_found
found (some a) = pure a
