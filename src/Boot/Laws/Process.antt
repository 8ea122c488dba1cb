-- ===== src/Boot/Laws/Process.antt =====
-- Application.Run ends, and leaves no goroutine behind.
use prompt_manager.Base.{
  ℕ, ◌+◌, ◌≤◌, ◌<◌, ◌≡◌, refl, Bool, true, false, not, ◌&&◌, ◌||◌, Bool-cases, Option-cases, ◌⊎◌,
  inl, inr, Option, none, some, is_some, arith,
}
use prompt_manager.Domain.{Result, ok, err}
use prompt_manager.Boot.Process.{
  Listener, listening, sending, ended, Runner, waiting, shutting_down, returned, Process, ServeEnd,
  no_error, server_closed, failed, Step, listener_fails, listener_stops, sends, takes_cancellation,
  takes_error, shutdown_returns, Cancel, cancels, Run, start, step, cancel,
}

abbrev listener_left : Listener → ℕ
listener_left listening = 2
listener_left (sending e) = 1
listener_left ended = 0

abbrev runner_left : Runner → ℕ
runner_left waiting = 2
runner_left shutting_down = 1
runner_left (returned r) = 0

abbrev cancel_left : Bool → ℕ
cancel_left true = 0
cancel_left false = 1

-- the steps that are left at most
abbrev left : Process → ℕ
left s = cancel_left s.cancelled + listener_left s.listener + runner_left s.runner

Step-left : {s t : Process} → Step s t → left t < left s
Step-left (listener_fails e a b) = ground arith
Step-left (listener_stops a c b) = ground arith
Step-left (sends e a c b) = ground arith
Step-left (takes_cancellation a c b) = ground arith
Step-left (takes_error e a c b) = ground arith
Step-left (shutdown_returns r a b) = ground arith

Cancel-left : {s t : Process} → Cancel s t → left t < left s
Cancel-left (cancels a b) = ground arith

Run-left : {n : ℕ} {s : Process} → Run n s → n + left s ≤ 5
Run-left start = omega arith
Run-left (step r st) = omega (arith, Run-left r, Step-left st)
Run-left (cancel r c) = omega (arith, Run-left r, Cancel-left c)

abbrev is_waiting : Runner → Bool
is_waiting waiting = true
is_waiting shutting_down = false
is_waiting (returned r) = false

abbrev is_shutting_down : Runner → Bool
is_shutting_down waiting = false
is_shutting_down shutting_down = true
is_shutting_down (returned r) = false

abbrev is_ended : Listener → Bool
is_ended listening = false
is_ended (sending e) = false
is_ended ended = true

abbrev says_closed : ServeEnd → Bool
says_closed no_error = true
says_closed server_closed = true
says_closed (failed e) = false

-- there is a value, and it is not an error
abbrev ends_well : Option ServeEnd → Bool
ends_well none = false
ends_well (some e) = says_closed e

abbrev sends_well : Listener → Bool
sends_well listening = false
sends_well (sending e) = says_closed e
sends_well ended = false

abbrev returned_well : Runner → Bool
returned_well waiting = false
returned_well shutting_down = false
returned_well (returned (ok _)) = true
returned_well (returned (err e)) = false

-- The channel is empty until the goroutine has sent, and full from then on until Run has taken the
-- value; once Run has left its select, the goroutine has ended or its listeners are closed.
record IsSound (s : Process) : Type 0 where
  empty : (is_ended s.listener || not (is_some s.err_ch)) ≡ true
  full : (not (is_ended s.listener && is_waiting s.runner) || is_some s.err_ch) ≡ true
  stopping : (is_waiting s.runner || is_ended s.listener || s.closed) ≡ true
  asked : (not s.closed || s.cancelled) ≡ true
  busy : (not (is_shutting_down s.runner) || s.closed) ≡ true
  channel : (not (ends_well s.err_ch) || s.closed) ≡ true
  goroutine : (not (sends_well s.listener) || s.closed) ≡ true
  answer : (not (returned_well s.runner) || s.closed) ≡ true

Step-IsSound : {s t : Process} → IsSound s → Step s t → IsSound t
Step-IsSound h (listener_fails e a b) = ground arith
Step-IsSound h (listener_stops a c b) = ground arith
Step-IsSound h (sends e a c b) = ground arith
Step-IsSound h (takes_cancellation a c b) = ground arith
Step-IsSound h (takes_error no_error a c b) = ground arith
Step-IsSound h (takes_error server_closed a c b) = ground arith
Step-IsSound h (takes_error (failed e) a c b) = ground arith
Step-IsSound h (shutdown_returns r a b) = ground arith

Cancel-IsSound : {s t : Process} → IsSound s → Cancel s t → IsSound t
Cancel-IsSound h (cancels a b) = ground arith

Run-IsSound : {n : ℕ} {s : Process} → Run n s → IsSound s
Run-IsSound start = record {
  empty = refl;
  full = refl;
  stopping = refl;
  asked = refl;
  busy = refl;
  channel = refl;
  goroutine = refl;
  answer = refl;
}
Run-IsSound (step r st) = Step-IsSound (Run-IsSound r) st
Run-IsSound (cancel r c) = Cancel-IsSound (Run-IsSound r) c

-- Run has returned, and its goroutine has ended.
pub record IsOver (s : Process) : Type 0 where
  pub returns : (r : Result (Unit {0})) × (s.runner ≡ returned r)
  pub ends : s.listener ≡ ended

-- the server listens, and nobody has asked it to stop
pub record IsServing (s : Process) : Type 0 where
  pub waits : s.runner ≡ waiting
  pub listens : s.listener ≡ listening
  pub uncancelled : s.cancelled ≡ false

next-Step :
    (s : Process) (l : Listener) (r : Runner)
    → s.listener ≡ l
    → s.runner ≡ r
    → IsSound s
    → IsServing s ⊎ (IsOver s ⊎ ((t : Process) × Step s t))
next-Step s (sending e) r p q h = inr (inr (_, sends e p (ground arith) refl))
next-Step s listening (returned r) p q h = inr (inr (_, listener_stops p (ground arith) refl))
next-Step s l shutting_down p q h = inr (inr (_, shutdown_returns (ok tt) q refl))
next-Step s ended (returned r) p q h = inr (inl (record { returns = (r, q); ends = p }))
next-Step s listening waiting p q h = elim (Bool-cases s.cancelled) [
  | inl asked ↦ inr (inr (_, takes_cancellation q asked refl))
  | inr unasked ↦ inl (record { waits = q; listens = p; uncancelled = unasked })
]
next-Step s ended waiting p q h = elim (Option-cases s.err_ch) [
  | inl none_there ↦ absurd (ground arith)
  | inr (e, there) ↦ inr (inr (_, takes_error e q there refl))
]

-- However the steps of Run, of its goroutine and the cancellation of its context follow one another,
-- there are at most five of them; where the program cannot take another one by itself, the server
-- is listening and has not been asked to stop, or Run has returned and the goroutine has ended, so
-- that none is left blocked on the channel.
pub Run-ends :
    {n : ℕ} {s : Process}
    → Run n s
    → (n ≤ 5) × (IsServing s ⊎ (IsOver s ⊎ ((t : Process) × Step s t)))
Run-ends {n} {s} r =
    (omega (arith, Run-left r), next-Step s s.listener s.runner refl refl (Run-IsSound r))

-- Run returns nil only after its context has been cancelled.
Run-returns_nil : {n : ℕ} {s : Process} → Run n s → s.runner ≡ returned (ok tt) → s.cancelled ≡ true
Run-returns_nil {n} {s} r h = let sound = Run-IsSound r in ground arith
