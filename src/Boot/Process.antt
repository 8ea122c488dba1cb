-- ===== src/Boot/Process.antt =====
-- Application.Run of internal/app/app.go: the goroutine that listens, the channel with one place,
-- and the select, each step of which may come at any time.
use prompt_manager.Base.{ℕ, suc, ◌≡◌, Bool, true, false, Option, none, some}
use prompt_manager.Domain.{Error, Result, ok, err}

-- what ListenAndServe returns; http.ErrServerClosed only once Shutdown has been called
pub data ServeEnd : Type 0 where
  no_error : ServeEnd
  server_closed : ServeEnd
  failed : Error → ServeEnd

-- the goroutine: in ListenAndServe, before its send, or done
pub data Listener : Type 0 where
  listening : Listener
  sending : ServeEnd → Listener
  ended : Listener

-- Run: at its select, in Shutdown, or returned
pub data Runner : Type 0 where
  waiting : Runner
  shutting_down : Runner
  returned : Result (Unit {0}) → Runner

pub record Process : Type 0 where
  pub cancelled : Bool
  -- Shutdown has closed the listeners
  pub closed : Bool
  pub listener : Listener
  pub err_ch : Option ServeEnd
  pub runner : Runner

-- errCh has been made, and the goroutine started
abbrev pub started : Process
started = record {
  cancelled = false;
  closed = false;
  listener = listening;
  err_ch = none;
  runner = waiting;
}

-- if errors.Is(err, http.ErrServerClosed) { return nil }; return err
abbrev pub run_result : ServeEnd → Result (Unit {0})
run_result no_error = ok tt
run_result server_closed = ok tt
run_result (failed e) = err e

-- A step of the program.
pub data Step (s t : Process) : Type 0 where
  listener_fails :
      (e : Error)
      → s.listener ≡ listening
      → t ≡ record s { listener = sending (failed e) }
      → Step s t
  listener_stops :
      s.listener ≡ listening
      → s.closed ≡ true
      → t ≡ record s { listener = sending server_closed }
      → Step s t
  sends :
      (e : ServeEnd)
      → s.listener ≡ sending e
      → s.err_ch ≡ none
      → t ≡ record s { listener = ended; err_ch = some e }
      → Step s t
  -- case <-ctx.Done(): Shutdown is called
  takes_cancellation :
      s.runner ≡ waiting
      → s.cancelled ≡ true
      → t ≡ record s { runner = shutting_down; closed = true }
      → Step s t
  -- case err := <-errCh
  takes_error :
      (e : ServeEnd)
      → s.runner ≡ waiting
      → s.err_ch ≡ some e
      → t ≡ record s { runner = returned (run_result e); err_ch = none }
      → Step s t
  -- Shutdown returns, at the latest when its time is up
  shutdown_returns :
      (r : Result (Unit {0}))
      → s.runner ≡ shutting_down
      → t ≡ record s { runner = returned r }
      → Step s t

-- The context is cancelled from outside.
pub data Cancel (s t : Process) : Type 0 where
  cancels : s.cancelled ≡ false → t ≡ record s { cancelled = true } → Cancel s t

-- A run: steps and the cancellation in any order, and their number.
pub data Run : ℕ → Process → Type 0 where
  start : Run 0 started
  step : {n : ℕ} {s t : Process} → Run n s → Step s t → Run (suc n) t
  cancel : {n : ℕ} {s t : Process} → Run n s → Cancel s t → Run (suc n) t
