-- ===== src/Boot/Tests.antt =====
-- Starts and ends of the program, and the theorems at concrete inputs.
use prompt_manager.Base.{◌≤◌, ◌≡◌, refl, true, ◌⊎◌, some}
use prompt_manager.Text.{codes}
use prompt_manager.Domain.{other, ok, err}
use prompt_manager.Prompt.Run.{service}
use prompt_manager.Auth.Seed.{ensure_default_admin}
use prompt_manager.Config.Defaults.{apply_defaults}
use prompt_manager.Boot.Process.{
  sending, ended, shutting_down, server_closed, Process, Step, listener_stops, sends,
  takes_cancellation, shutdown_returns, cancels, Run, start, step, cancel, started, returned,
}
use prompt_manager.Boot.Resources.{Machine, Drivers, new_database, new_client}
use prompt_manager.Boot.Initialize.{initialize}
use prompt_manager.Boot.Program.{Outside, parse_level, main}
use prompt_manager.Boot.Laws.Process.{IsServing, IsOver, Run-ends}
use prompt_manager.Boot.Laws.Resources.{Released, initialize-Released}
use prompt_manager.Auth.Tests.{library, home, no_seed}
use prompt_manager.Config.Tests.{loaded}

-- SIGTERM comes, Shutdown closes the listeners and returns, and the goroutine sends into the channel
-- that nobody reads any more.
abbrev asked : Process
asked = record started { cancelled = true }

abbrev stopping : Process
stopping = record asked { runner = shutting_down; closed = true }

abbrev stopped : Process
stopped = record stopping { runner = returned (ok tt) }

abbrev told : Process
told = record stopped { listener = sending server_closed }

abbrev over : Process
over = record told { listener = ended; err_ch = some server_closed }

terminated : Run 3 stopped
terminated =
    step (step (cancel start (cancels refl refl)) (takes_cancellation refl refl refl))
      (shutdown_returns (ok tt) refl refl)

drained : Run 5 over
drained =
    step (step terminated (listener_stops refl refl refl)) (sends server_closed refl refl refl)

Run-ends_example : (◌≤◌ 5 5) × (IsServing over ⊎ (IsOver over ⊎ ((t : Process) × Step over t)))
Run-ends_example = Run-ends drained

abbrev drivers : Drivers
drivers = record {
  open_database = λ driver dsn. ok tt;
  ping_database = λ cfg. ok tt;
  ping_redis = λ cfg. ok tt;
  close_database = err (other (codes "busy"));
  close_redis = ok tt;
}

-- redis does not answer
abbrev unreachable : Drivers
unreachable = record drivers { ping_redis = λ cfg. err (other (codes "timeout")) }

abbrev bare : Machine
bare = record { world = home; handles = record { databases = 0; clients = 0 } }

kept_closed : (initialize unreachable library loaded no_seed bare).1.handles ≡ bare.handles
unfolding initialize new_database new_client
kept_closed = refl

initialize-Released_example :
    Released drivers bare.handles (initialize drivers library loaded no_seed bare)
initialize-Released_example = initialize-Released drivers library loaded no_seed bare

abbrev outside : Outside
outside = record {
  config = ok loaded;
  set_level = λ level. ok level;
  quote = λ t. t;
  drivers = drivers;
  library = library;
  legacy = no_seed;
  run = λ cfg c w. (err (other (codes "listen tcp: address in use")), w);
}

left_open : (main outside bare).1.handles ≡ record { databases = 1; clients = 1 }
unfolding service main initialize new_database new_client parse_level ensure_default_admin
    apply_defaults
left_open = refl
