-- ===== src/Startup/Commands.antt =====
-- The tree of the commands of cmd/ and what is run in front of each: cobra looks for the
-- `PersistentPreRun` of a command, and where it has none for that of the command above it.
use nsg_parser.Outcome.{Outcome, ◌>>=◌, returned, exited, panicked}
use nsg_parser.Process.Service.{init_service_params}
use nsg_parser.Startup.{System, Program, settings_of, root_pre_run}
use nsg_parser.Startup.Config.{prepared, config_reads, pattern_taken, root_pre_run_lem}
use nsg_parser.Prelude.{
  ◌≡◌, refl, ◌∙◌, ◌&&◌, if◌then◌else◌, Option, none, some, Bool-cases, inl, inr,
}

pub data CommandName : Type 0 where
  root_cmd process_cmd test_send_cmd version_cmd : CommandName
  service_cmd install_cmd uninstall_cmd run_cmd : CommandName

-- What `AddCommand` joins.
abbrev pub parent_of : CommandName → Option CommandName
parent_of root_cmd = none
parent_of process_cmd = some root_cmd
parent_of version_cmd = some root_cmd
parent_of test_send_cmd = some process_cmd
parent_of service_cmd = some process_cmd
parent_of install_cmd = some service_cmd
parent_of uninstall_cmd = some service_cmd
parent_of run_cmd = some service_cmd

-- The functions that stand as a `PersistentPreRun`; that of the version does nothing.
pub data PreRun : Type 0 where
  root_hook service_hook version_hook : PreRun

abbrev pub own_pre_run : CommandName → Option PreRun
own_pre_run root_cmd = some root_hook
own_pre_run service_cmd = some service_hook
own_pre_run version_cmd = some version_hook
own_pre_run process_cmd = none
own_pre_run test_send_cmd = none
own_pre_run install_cmd = none
own_pre_run uninstall_cmd = none
own_pre_run run_cmd = none

-- What cobra documents of the function that it finds for a command.
pub record Inherits (find : CommandName → Option PreRun) : Type 0 where
  pub own :
      (name : CommandName) (hook : PreRun) → own_pre_run name ≡ some hook → find name ≡ some hook
  pub above :
      (name parent : CommandName)
      → own_pre_run name ≡ none
      → parent_of name ≡ some parent
      → find name ≡ find parent

module _ {V Folders : Type 0} (system : System V Folders) where
  -- `PersistentPreRun` of the service command. The logger of `initServiceParams` is nil until
  -- `initLogging` has made it.
  unfoldable pub service_pre_run : Program V Folders → Outcome (Program V Folders)
  service_pre_run p = do
    p' ← root_pre_run system p
    let configured = record p' {
      service_config = some (init_service_params (settings_of system p'));
    }
    if p'.stdout_log then returned configured else panicked

  abbrev pub hook_of : PreRun → Program V Folders → Outcome (Program V Folders)
  hook_of root_hook p = root_pre_run system p
  hook_of service_hook p = service_pre_run p
  hook_of version_hook p = returned p

  abbrev pub run_hook : Option PreRun → Program V Folders → Outcome (Program V Folders)
  run_hook none p = returned p
  run_hook (some hook) p = hook_of hook p

  -- What the run of a command starts from.
  unfoldable pub prepare :
      (CommandName → Option PreRun) → CommandName → Program V Folders → Outcome (Program V Folders)
  prepare find name p = run_hook (find name) p

  module _ (p : Program V Folders) where
    abbrev pub starts : Program V Folders → Outcome (Program V Folders)
    starts q = if config_reads system p && pattern_taken system p then returned q else exited

    abbrev pub with_service : Program V Folders
    with_service = record (prepared system p) {
      service_config = some (init_service_params (settings_of system (prepared system p)));
    }

    -- The start of each command, as a table.
    abbrev pub start_of : CommandName → Outcome (Program V Folders)
    start_of root_cmd = starts (prepared system p)
    start_of process_cmd = starts (prepared system p)
    start_of test_send_cmd = starts (prepared system p)
    start_of version_cmd = returned p
    start_of service_cmd = starts with_service
    start_of install_cmd = starts with_service
    start_of uninstall_cmd = starts with_service
    start_of run_cmd = starts with_service

    pub service_pre_run_lem : service_pre_run p ≡ starts with_service
    unfolding service_pre_run
    service_pre_run_lem =
        rw (root_pre_run_lem system p)
          (elim (Bool-cases (config_reads system p && pattern_taken system p)) [
            | inl e ↦ rw e refl
            | inr e ↦ rw e refl
          ])

    module _ (find : CommandName → Option PreRun) (h : Inherits find) where
      finds-root : find root_cmd ≡ some root_hook
      finds-root = h.own root_cmd root_hook refl

      finds-process : find process_cmd ≡ some root_hook
      finds-process = h.above process_cmd root_cmd refl refl ∙ finds-root

      finds-service : find service_cmd ≡ some service_hook
      finds-service = h.own service_cmd service_hook refl

      -- If a command runs its own PersistentPreRun or else that of the command above it, then the
      -- version is printed with nothing prepared, whatever the configuration is; the service and
      -- its three commands start with the settings of the service, read after the configuration and
      -- the proxy; and every other command starts as the root command does. All of them but the
      -- version exit where a given configuration file cannot be read or the pattern of the log
      -- files is refused, and none panics.
      pub prepare-start_of : (name : CommandName) → prepare find name p ≡ start_of name
      unfolding prepare
      prepare-start_of root_cmd = rw finds-root (root_pre_run_lem system p)
      prepare-start_of process_cmd = rw finds-process (root_pre_run_lem system p)
      prepare-start_of test_send_cmd =
          rw (h.above test_send_cmd process_cmd refl refl, finds-process)
            (root_pre_run_lem system p)
      prepare-start_of version_cmd = rw (h.own version_cmd version_hook refl) refl
      prepare-start_of service_cmd = rw finds-service service_pre_run_lem
      prepare-start_of install_cmd =
          rw (h.above install_cmd service_cmd refl refl, finds-service) service_pre_run_lem
      prepare-start_of uninstall_cmd =
          rw (h.above uninstall_cmd service_cmd refl refl, finds-service) service_pre_run_lem
      prepare-start_of run_cmd =
          rw (h.above run_cmd service_cmd refl refl, finds-service) service_pre_run_lem
