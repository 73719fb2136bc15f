-- ===== src/Install.antt =====
-- cmd/service_commands.go: the commands that install, uninstall and run the service. The run of the
-- service itself is Process/Service.
pub mod Managers
pub mod Reinstall
pub mod Unnamed
pub mod Whole
use nsg_parser.Outcome.{Outcome, returned, exited, panicked}
use nsg_parser.Process.Service.{ServiceConfig, install_config}
use nsg_parser.Startup.{System, Program, cfg_file_path}
use nsg_parser.Prelude.{Bool, true, false, Option, none, some, Text}

-- The service manager of the operating system, whose state is M, behind the service library: whether
-- `service.New` takes a configuration, and the calls, with whether they have no error. `Run` gets to
-- start the program or not, and comes back without an error or with one when that was stopped.
pub record ServiceManager (M : Type 0) : Type 0 where
  pub accepts : ServiceConfig → Bool
  pub stop : ServiceConfig → M → M × Bool
  pub uninstall : ServiceConfig → M → M × Bool
  pub install : ServiceConfig → M → M × Bool
  pub starts : ServiceConfig → Bool
  pub stops : ServiceConfig → Bool

-- A command changes the manager also where it exits.
abbrev pub Managed : Type 0 → Type 0 → Type 0
Managed M A = M → M × Outcome A

infixl 5 ◌>>=◌ ◌>>◌
abbrev pub after : {M A B : Type 0} → M × Outcome A → (A → Managed M B) → M × Outcome B
after (m, returned a) f = f a m
after (m, panicked) f = (m, panicked)
after (m, exited) f = (m, exited)

abbrev pub ◌>>=◌ : {M A B : Type 0} → Managed M A → (A → Managed M B) → Managed M B
◌>>=◌ run f m = after (run m) f

abbrev pub ◌>>◌ : {M A B : Type 0} → Managed M A → Managed M B → Managed M B
◌>>◌ run next m = after (run m) (λ _. next)

abbrev pub lift : {M A : Type 0} → Outcome A → Managed M A
lift o m = (m, o)

abbrev pub call : {M A : Type 0} → (M → M × A) → Managed M A
call f m = ((f m).0, returned (f m).1)

-- `stdoutLog.Fatal` unless there is no error.
abbrev pub require : {M : Type 0} → Bool → Managed M (Unit {0})
require true m = (m, returned tt)
require false m = (m, exited)

-- `serviceConfig`, which `service.New` reads, and the arguments that `install` puts into it. A nil
-- pointer panics.
abbrev pub pointed : Option ServiceConfig → Outcome ServiceConfig
pointed none = panicked
pointed (some config) = returned config

abbrev pub with_arguments : Option Text → Option ServiceConfig → Outcome ServiceConfig
with_arguments none config = exited
with_arguments (some file) none = panicked
with_arguments (some file) (some config) = install_config (some file) config

module _ {M V Folders : Type 0} (manager : ServiceManager M) (system : System V Folders)
    (p : Program V Folders) where
  -- The errors of `Stop` and of the first `Uninstall` are dropped.
  unfoldable pub install_service : Managed M (Unit {0})
  install_service = do
    config ← lift (with_arguments (cfg_file_path system.working_dir p.cfg_file) p.service_config)
    require (manager.accepts config)
    stopped ← call (manager.stop config)
    uninstalled ← call (manager.uninstall config)
    installed ← call (manager.install config)
    require installed

  unfoldable pub uninstall_service : Managed M (Unit {0})
  uninstall_service = do
    config ← lift (pointed p.service_config)
    require (manager.accepts config)
    stopped ← call (manager.stop config)
    uninstalled ← call (manager.uninstall config)
    require uninstalled

  -- What the service does in its own thread, from its start to its stop, is `work`.
  unfoldable pub run_service_command : {Done : Type 0} → Outcome Done → Managed M Done
  run_service_command work = do
    config ← lift (pointed p.service_config)
    require (manager.accepts config)
    require (manager.starts config)
    done ← lift work
    require (manager.stops config)
    lift (returned done)
