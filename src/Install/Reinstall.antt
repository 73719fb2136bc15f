-- ===== src/Install/Reinstall.antt =====
-- What `install` leaves with the manager.
use nsg_parser.Outcome.{Outcome, returned, exited}
use nsg_parser.Process.Service.{ServiceConfig, install_config}
use nsg_parser.Startup.{System, Program, cfg_file_path}
use nsg_parser.Install.{ServiceManager, install_service, with_arguments}
use nsg_parser.Install.Managers.{IsManager, Permitted}
use nsg_parser.Prelude.{
  ◌≡◌, ◌≢◌, refl, ◌∙◌, ◌⊎◌, inl, inr, Bool, true, false, Option, none, some, [], ◌∷◌, Text, codes,
}

-- The configuration with the arguments for a file.
abbrev pub with_file : Text → ServiceConfig → ServiceConfig
with_file file config = record config {
  arguments = codes "process" ∷ codes "service" ∷ codes "run" ∷ codes "--config" ∷ file ∷ [];
}

module _ {M V Folders : Type 0} (manager : ServiceManager M)
    (installed : M → Text → Option ServiceConfig) (lawful : IsManager manager installed)
    (system : System V Folders) (p : Program V Folders) (config : ServiceConfig) (file : Text)
    (has_config : p.service_config ≡ some config)
    (has_file : cfg_file_path system.working_dir p.cfg_file ≡ some file) where
  abbrev pub ready : ServiceConfig
  ready = with_file file config

  ready_is :
      with_arguments (cfg_file_path system.working_dir p.cfg_file) p.service_config ≡ returned ready
  unfolding install_config
  ready_is = rw (has_config, has_file) refl

  abbrev pub removed : M → M
  removed m = (manager.uninstall ready (manager.stop ready m).0).0

  abbrev pub added : M → M
  added m = (manager.install ready (removed m)).0

  abbrev pub removes_it : M → Bool
  removes_it m = (manager.uninstall ready (manager.stop ready m).0).1

  abbrev pub adds_it : M → Bool
  adds_it m = (manager.install ready (removed m)).1

  added_others : (m : M) (k : Text) → k ≢ config.name → installed (added m) k ≡ installed m k
  added_others m k h =
      lawful.install_others ready (removed m) k h
      ∙ (lawful.uninstall_others ready (manager.stop ready m).0 k h ∙ lawful.stop_keeps ready m k)

  accepted_run :
      (m : M) (o : Outcome (Unit {0}))
      → manager.accepts ready ≡ true
      → (adds_it m ≡ true) × (o ≡ returned tt) ⊎ (adds_it m ≡ false) × (o ≡ exited)
      → install_service manager system p m ≡ (added m, o)
  unfolding install_service
  accepted_run m o a (inl (e, r)) = rw (ready_is, a, e, r) refl
  accepted_run m o a (inr (e, r)) = rw (ready_is, a, e, r) refl

  freed :
      Permitted manager installed ready
      → (m : M) → (o : Option ServiceConfig) → installed m config.name ≡ o
      → installed (removed m) config.name ≡ none
  freed allowed m none e =
      lawful.uninstall_absent ready (manager.stop ready m).0
        (lawful.stop_keeps ready m config.name ∙ e)
  freed allowed m (some d) e =
      lawful.uninstall_ok ready (manager.stop ready m).0
        (allowed.removes (manager.stop ready m).0 d (lawful.stop_keeps ready m config.name ∙ e))

  -- Where the user may install and uninstall, and a lawful manager installs nothing over another
  -- service, the installation of a configured service with a given file returns and leaves the
  -- service with the arguments for the file, whatever was installed under its name before; the
  -- services of other names are as they were.
  pub install_service-reinstalls :
      (m : M) (k : Text)
      → k ≢ config.name
      → Permitted manager installed ready
      → (m' : M) × (install_service manager system p m ≡ (m', returned tt))
        × (installed m' config.name ≡ some ready)
        × (installed m' k ≡ installed m k)
  install_service-reinstalls m k h allowed =
      let added_it : adds_it m ≡ true =
        allowed.adds (removed m) (freed allowed m (installed m config.name) refl) in
      (
        added m,
        accepted_run m (returned tt) allowed.accepted (inl (added_it, refl)),
        lawful.install_ok ready (removed m) added_it,
        added_others m k h,
      )
