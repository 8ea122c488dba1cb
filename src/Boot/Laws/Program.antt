-- ===== src/Boot/Laws/Program.antt =====
-- What the program leaves open.
use prompt_manager.Base.{◌≡◌}
use prompt_manager.Text.{Text}
use prompt_manager.Domain.{Error, ok, err}
use prompt_manager.Config.Settings.{Config}
use prompt_manager.Boot.Resources.{Machine}
use prompt_manager.Boot.Initialize.{Container, initialize}
use prompt_manager.Boot.Program.{Outside, Exit, parse_level}
use prompt_manager.Boot.Laws.Resources.{with_both}

-- What has failed before Run is called.
pub data StartFails (o : Outside) (m : Machine) : Type 0 where
  in_config : (e : Error) → o.config ≡ err e → StartFails o m
  in_logger :
      (cfg : Config) (e : Error)
      → o.config ≡ ok cfg
      → parse_level o.set_level o.quote cfg.logging.level ≡ err e
      → StartFails o m
  in_initialize :
      (cfg : Config) (e : Error)
      → o.config ≡ ok cfg
      → (initialize o.drivers o.library cfg o.legacy m).0 ≡ err e
      → StartFails o m

-- How the program ends on a machine: Run has returned nil, it exits with 0 and has closed what it
-- opened; or its start has failed, it exits with 1 and has closed it too; or Run has failed, it
-- exits with 1 and leaves a database and a client open.
pub data Ends (o : Outside) (m : Machine) (x : Exit) : Type 0 where
  cleanly :
      (cfg : Config) (c : Container) (m' : Machine)
      → o.config ≡ ok cfg
      → initialize o.drivers o.library cfg o.legacy m ≡ (ok c, m')
      → (o.run cfg c m'.world).0 ≡ ok tt
      → x.0 ≡ 0
      → x.1.handles ≡ m.handles
      → Ends o m x
  at_start : StartFails o m → x.0 ≡ 1 → x.1.handles ≡ m.handles → Ends o m x
  in_run :
      (cfg : Config) (c : Container) (m' : Machine) (e : Error)
      → o.config ≡ ok cfg
      → initialize o.drivers o.library cfg o.legacy m ≡ (ok c, m')
      → (o.run cfg c m'.world).0 ≡ err e
      → x.0 ≡ 1
      → x.1.handles ≡ with_both m.handles
      → Ends o m x
