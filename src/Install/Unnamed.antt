-- ===== src/Install/Unnamed.antt =====
-- The name of the service, where only the flags say what it is.
use nsg_parser.Outcome.{Outcome, returned, exited}
use nsg_parser.Process.Setup.{Settings, bound_flags}
use nsg_parser.Process.Flags.{is_bound}
use nsg_parser.Process.Service.{ServiceConfig, init_service_params, install_config}
use nsg_parser.Startup.{System, Program, settings_of, cfg_file_path}
use nsg_parser.Startup.Commands.{service_pre_run, service_pre_run_lem, with_service}
use nsg_parser.Startup.Config.{if-returned, config_reads, pattern_taken}
use nsg_parser.Install.{ServiceManager, install_service, uninstall_service, run_service_command}
use nsg_parser.Install.Managers.{IsManager}
use nsg_parser.Install.Reinstall.{with_file}
use nsg_parser.Prelude.{
  ◌≡◌, refl, sym, ◌∙◌, ◌++◌, false, ◌&&◌, Option, none, some, List, [], ◌∷◌, Text, codes,
}

-- The flags that the root command declares and binds, and those that the service command declares,
-- which it does not bind.
abbrev pub root_bound_flags : List Text
root_bound_flags = codes "data_path" ∷ codes "http_proxy" ∷ []

abbrev pub service_flags : List Text
service_flags = codes "service_name" ∷ codes "service_description" ∷ []

-- No configuration file and no variable of the environment: viper does not know a key that is not
-- bound to a flag, and `GetString` of it is empty.
abbrev pub FlagsOnly : Settings → Type 0
FlagsOnly settings =
    (key : Text)
    → is_bound key (bound_flags ++ root_bound_flags) ≡ false
    → settings.get_string key ≡ []

service_name_unbound : is_bound (codes "service_name") (bound_flags ++ root_bound_flags) ≡ false
unfolding is_bound
service_name_unbound = refl

module _ {M V Folders : Type 0} (manager : ServiceManager M)
    (installed : M → Text → Option ServiceConfig) (lawful : IsManager manager installed)
    (system : System V Folders) (p q : Program V Folders) where
  unnamed_config :
      FlagsOnly (settings_of system q) → (init_service_params (settings_of system q)).name ≡ []
  unfolding init_service_params
  unnamed_config h = h (codes "service_name") service_name_unbound

  configured_by :
      service_pre_run system p ≡ returned q
      → q.service_config ≡ some (init_service_params (settings_of system q))
  configured_by h =
      let ends =
        if-returned (config_reads system p && pattern_taken system p) (with_service system p) q
          (sym (service_pre_run_lem system p) ∙ h) in
      rw ends.1 refl

  module _ (config : ServiceConfig) (has_config : q.service_config ≡ some config)
      (no_name : config.name ≡ []) (m : M) where
    install_refused :
        (o : Option Text)
        → cfg_file_path system.working_dir q.cfg_file ≡ o
        → install_service manager system q m ≡ (m, exited)
    unfolding install_service install_config
    install_refused none e = rw e refl
    install_refused (some file) e =
        rw (e, has_config, lawful.unnamed (with_file file config) no_name) refl

    uninstall_refused : uninstall_service manager system q m ≡ (m, exited)
    unfolding uninstall_service
    uninstall_refused = rw (has_config, lawful.unnamed config no_name) refl

    run_refused :
        {Done : Type 0} (work : Outcome Done)
        → run_service_command manager system q work m ≡ (m, exited)
    unfolding run_service_command
    run_refused work = rw (has_config, lawful.unnamed config no_name) refl

  -- The name of the service cannot be given by its flag. Let the start of a service command have
  -- returned, with neither a configuration file nor a variable of the environment that says more
  -- than the flags that are bound, and let no service be taken without a name. Then install,
  -- uninstall and run exit, and the manager is as it was.
  pub service_commands_unnamed :
      {Done : Type 0} (work : Outcome Done) (m : M)
      → service_pre_run system p ≡ returned q
      → FlagsOnly (settings_of system q)
      → (install_service manager system q m ≡ (m, exited))
        × (uninstall_service manager system q m ≡ (m, exited))
        × (run_service_command manager system q work m ≡ (m, exited))
  service_commands_unnamed work m h only =
      let config = init_service_params (settings_of system q) in
      let has = configured_by h in
      let no_name = unnamed_config only in
      (
        install_refused config has no_name m (cfg_file_path system.working_dir q.cfg_file) refl,
        uninstall_refused config has no_name m,
        run_refused config has no_name m work,
      )
