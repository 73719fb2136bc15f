-- ===== src/Install/Whole.antt =====
-- The process command and the service from their start to their end: what runs in front of a command
-- (cmd/root.go, cmd/service_commands.go), and then its run.
use nsg_parser.Outcome.{Outcome, ◌>>=◌, returned, exited, panicked}
use nsg_parser.FilePath.{is_abs}
use nsg_parser.FilePath.Clean.{IsRooted}
use nsg_parser.Azure.{Listing}
use nsg_parser.Job.{Services}
use nsg_parser.Process.{Done, run_command}
use nsg_parser.Process.Setup.{ParserClient, Settings, Command, Emulator}
use nsg_parser.Process.Service.{
  ServiceConfig, init_service_params, run_service, run_service-run_command,
}
use nsg_parser.Startup.{System, Program, settings_of, cfg_file_path, root_pre_run}
use nsg_parser.Startup.Config.{root_pre_run_lem, root_pre_run-returned}
use nsg_parser.Startup.Commands.{
  CommandName, process_cmd, run_cmd, PreRun, Inherits, prepare, with_service, prepare-start_of,
}
use nsg_parser.Startup.Elsewhere.{AbsolutePaths, ExplicitFile, root_pre_run-elsewhere}
use nsg_parser.Install.{ServiceManager, Managed, after, run_service_command}
use nsg_parser.Prelude.{
  ℕ, ◌≡◌, refl, ap, sym, ◌∙◌, subst, Bool, true, if◌then◌else◌, Option, some, Text,
}

-- The run of a command reads the data path that its start has set.
abbrev pub in_path : {R : Type 0} → Text → Command R → Command R
in_path path command = record command { data_path = path }

-- The manager takes the service, starts it and stops it without an error.
pub record Serves {M : Type 0} (manager : ServiceManager M) (config : ServiceConfig) : Type 0 where
  pub accepted : manager.accepts config ≡ true
  pub started : manager.starts config ≡ true
  pub stopped : manager.stops config ≡ true

ran :
    {Result M V Folders : Type 0} (manager : ServiceManager M) (system : System V Folders)
    (q : Program V Folders) (config : ServiceConfig) (work : Outcome Result) (m : M)
    → Serves manager config
    → q.service_config ≡ some config
    → run_service_command manager system q work m ≡ (m, work)
unfolding run_service_command
ran manager system q config (returned d) m s e = rw (e, s.accepted, s.started, s.stopped) refl
ran manager system q config panicked m s e = rw (e, s.accepted, s.started) refl
ran manager system q config exited m s e = rw (e, s.accepted, s.started) refl

module _ {R W Files Bytes V Folders : Type 0} (services : ParserClient → Services R W Files Bytes)
    (listing : Listing) (new_basic_client dial : Text → Text → Bool) (emulator : Emulator) (n : ℕ)
    (files : Files) (find : CommandName → Option PreRun) where
  -- The run of each command, from the program that its start leaves.
  abbrev pub process_run :
      Command R → System V Folders → Program V Folders → Outcome (Done R W Files)
  process_run command system q =
      run_command services listing new_basic_client dial emulator (settings_of system q) n
        (in_path q.data_path command) files

  abbrev pub service_run :
      {M : Type 0}
      → ServiceManager M
      → Command R
      → System V Folders
      → Program V Folders
      → Managed M (Done R W Files)
  service_run manager command system q = run_service_command manager system q (
      run_service services listing new_basic_client dial emulator (settings_of system q) n
        (in_path q.data_path command) files)

  unfoldable pub process_main :
      Command R → System V Folders → Program V Folders → Outcome (Done R W Files)
  process_main command system p = do
    q ← prepare system find process_cmd p
    process_run command system q

  unfoldable pub service_main :
      {M : Type 0}
      → ServiceManager M
      → Command R
      → System V Folders
      → Program V Folders
      → Managed M (Done R W Files)
  service_main manager command system p m =
      after (m, prepare system find run_cmd p) (service_run manager command system)

  module _ {M : Type 0} (manager : ServiceManager M) (system : System V Folders)
      (p q : Program V Folders) where
    module _ (there : Option Text) (file : Text) (h : Inherits find)
        (explicit : ExplicitFile system.viper) (absolute : AbsolutePaths system)
        (rooted : IsRooted system.working_dir)
        (given : cfg_file_path system.working_dir p.cfg_file ≡ some file)
        (starts_here : prepare system find process_cmd p ≡ returned q)
        (from_root : is_abs q.data_path ≡ true) where
      abbrev pub system_there : System V Folders
      system_there = record system { working_dir = there }

      abbrev pub p_there : Program V Folders
      p_there = record p { cfg_file = file }

      root_here : root_pre_run system p ≡ returned q
      root_here =
          root_pre_run_lem system p
          ∙ (sym (prepare-start_of system p find h process_cmd) ∙ starts_here)

      -- The start of the service, as the start of the root command has it.
      service_there :
          (q' : Program V Folders)
          → root_pre_run system_there p_there ≡ returned q'
          → prepare system_there find run_cmd p_there
            ≡ returned (record q' {
              service_config = some (init_service_params (settings_of system_there q'));
            })
      service_there q' r =
          let (ready, e) = root_pre_run-returned system_there p_there q' r in
          prepare-start_of system_there p_there find h run_cmd
          ∙ (ap (λ b. if b then returned (with_service system_there p_there) else exited) ready
              ∙ ap
                  (λ (x : Program V Folders). returned (record x {
                    service_config = some (init_service_params (settings_of system_there x));
                  }))
                  (sym e))

      -- The service that is installed does what the process command does as a daemon. Let a command
      -- have been started with a configuration file whose absolute name is known, in a working
      -- directory whose name is absolute if there is one, and let the data path that it found be
      -- absolute; let viper look at no search path where a file is set, let an absolute path name
      -- the same folder from each directory, let cobra run the PersistentPreRun of the command
      -- above where a command has none, and let the manager take the service that the configuration
      -- names, start it and stop it without an error. Then the run command of the service, started
      -- in any other working directory with the absolute name of the file, and with nothing else
      -- changed, comes to the same end as the process command with the flag daemon, and leaves the
      -- manager as it was.
      pub service_main-process_main :
          (command : Command R) (m : M)
          → Serves manager (init_service_params (settings_of system q))
          → service_main manager command system_there p_there m
            ≡ (m, process_main (record command { daemon = true }) system p)
      unfolding service_main process_main
      service_main-process_main command m s =
          let (q', r, same_settings, same_path, same_folders, same_logs, same_env) =
            root_pre_run-elsewhere system there explicit absolute p q file rooted given root_here
              from_root in
          let config = init_service_params (settings_of system_there q') in
          let ready : Program V Folders = record q' { service_config = some config } in
          let work = λ (settings : Settings) (path : Text).
            run_command services listing new_basic_client dial emulator settings n
              (in_path path (record command { daemon = true })) files in
          ap (λ o. after (m, o) (service_run manager command system_there)) (service_there q' r)
          ∙ (ran manager system_there ready config
                (run_service services listing new_basic_client dial emulator
                  (settings_of system_there q') n (in_path q'.data_path command) files)
                m (subst (λ x. Serves manager (init_service_params x)) (sym same_settings) s) refl
              ∙ ap (λ o. (m, o))
                  (run_service-run_command services listing new_basic_client dial emulator
                      (settings_of system_there q') n files (in_path q'.data_path command)
                    ∙ (ap (λ x. work x q'.data_path) same_settings
                        ∙ (ap (λ x. work (settings_of system q) x) same_path
                            ∙ sym (
                                ap
                                  (λ o. o >>= process_run (record command { daemon = true }) system)
                                  starts_here)))))
