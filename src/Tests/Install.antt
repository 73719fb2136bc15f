-- ===== src/Tests/Install.antt =====
-- A service manager, and the service commands on it.
use nsg_parser.Outcome.{returned, exited}
use nsg_parser.Process.Service.{ServiceConfig}
use nsg_parser.Startup.{Program, settings_of}
use nsg_parser.Startup.Commands.{with_service}
use nsg_parser.Install.{ServiceManager, install_service, uninstall_service, run_service_command}
use nsg_parser.Install.Managers.{IsManager, Permitted}
use nsg_parser.Install.Reinstall.{ready, install_service-reinstalls}
use nsg_parser.Process.Setup.{bound_flags}
use nsg_parser.Process.Flags.{is_bound}
use nsg_parser.Install.Unnamed.{FlagsOnly, root_bound_flags, service_commands_unnamed}
use nsg_parser.Tests.Startup.{
  sample_system, sample_program, sample_file, sample_cfg_file, sample_service_start,
}
use nsg_parser.Prelude.{
  ◌≡◌, ◌≢◌, refl, ap, sym, ◌∙◌, ◌++◌, Bool, true, false, not, if◌then◌else◌, Option, none, some,
  List, [], Text, codes, text_eq, text_eq_refl, text_eq_ne,
}

abbrev Services : Type 0
Services = Text → Option ServiceConfig

abbrev is_some : Option ServiceConfig → Bool
is_some none = false
is_some (some c) = true

abbrev put_at : Text → Option ServiceConfig → Services → Services
put_at name o m k = if text_eq name k then o else m k

abbrev put_free : ServiceConfig → Services → Option ServiceConfig → Services × Bool
put_free c m none = (put_at c.name (some c) m, true)
put_free c m (some d) = (m, false)

abbrev sample_manager : ServiceManager Services
sample_manager = record {
  accepts = λ c. not (text_eq c.name []);
  stop = λ c m. (m, is_some (m c.name));
  uninstall = λ c m. (put_at c.name none m, is_some (m c.name));
  install = λ c m. put_free c m (m c.name);
  starts = λ c. true;
  stops = λ c. true;
}

put_at_self : (name : Text) (o : Option ServiceConfig) (m : Services) → put_at name o m name ≡ o
put_at_self name o m = rw (text_eq_refl name) refl

put_at_ne :
    (name k : Text) (o : Option ServiceConfig) (m : Services) → k ≢ name → put_at name o m k ≡ m k
put_at_ne name k o m h = rw (text_eq_ne name k (λ e. h (sym e))) refl

put_free_ok :
    (c : ServiceConfig) (m : Services) (o : Option ServiceConfig)
    → (put_free c m o).1 ≡ true
    → (put_free c m o).0 c.name ≡ some c
put_free_ok c m none h = put_at_self c.name (some c) m
put_free_ok c m (some d) h = cc

put_free_others :
    (c : ServiceConfig) (m : Services) (o : Option ServiceConfig) (k : Text)
    → k ≢ c.name
    → (put_free c m o).0 k ≡ m k
put_free_others c m none k h = put_at_ne c.name k (some c) m h
put_free_others c m (some d) k h = refl

sample-IsManager : IsManager sample_manager (λ m. m)
sample-IsManager = record {
  unnamed = λ c h. rw h refl;
  stop_keeps = λ c m k. refl;
  uninstall_ok = λ c m h. put_at_self c.name none m;
  uninstall_absent = λ c m h. put_at_self c.name none m;
  uninstall_others = λ c m k h. put_at_ne c.name k none m h;
  install_ok = λ c m h. put_free_ok c m (m c.name) h;
  install_others = λ c m k h. put_free_others c m (m c.name) k h;
  install_taken = λ c d m h. rw h refl;
}

-- A name from the configuration file.
abbrev sample_config : ServiceConfig
sample_config = record {
  name = codes "nsg-parser";
  display_name = codes "nsg-parser";
  description = codes "Parser for MS Azure NSG Flow Logs";
  arguments = [];
}

abbrev named_program : Program (Text × Text) (List Text)
named_program = record sample_program { service_config = some sample_config }

abbrev sample_ready : ServiceConfig
sample_ready =
    ready sample_manager (λ m. m) sample-IsManager sample_system named_program sample_config
      sample_file refl sample_cfg_file

sample-Permitted : Permitted sample_manager (λ m. m) sample_ready
sample-Permitted = record { accepted = refl; removes = λ m d h. rw h refl; adds = λ m h. rw h refl }

-- An older installation, and a service of another name.
abbrev sample_services : Services
sample_services =
    put_at (codes "nsg-parser") (some sample_config)
      (put_at (codes "cron") (some (record sample_config { name = codes "cron" })) (λ k. none))

cron_apart : codes "cron" ≢ codes "nsg-parser"
cron_apart e = absurd (cc (ap (λ t. text_eq t (codes "cron")) e))

install_service-reinstalls_example :
    (m : Services) × (install_service sample_manager sample_system named_program sample_services
      ≡ (m, returned tt))
    × (m (codes "nsg-parser") ≡ some sample_ready)
    × (m (codes "cron") ≡ sample_services (codes "cron"))
install_service-reinstalls_example =
    install_service-reinstalls sample_manager (λ m. m) sample-IsManager sample_system named_program
      sample_config sample_file refl sample_cfg_file sample_services (codes "cron") cron_apart
      sample-Permitted

abbrev sample_started : Program (Text × Text) (List Text)
sample_started = with_service sample_system sample_program

true_ne : true ≢ false
true_ne e = cc

abbrev all_bound : List Text
all_bound = bound_flags ++ root_bound_flags

bound_keys :
    (is_bound (codes "data_path") all_bound ≡ true)
    × (is_bound (codes "http_proxy") all_bound ≡ true)
unfolding is_bound
bound_keys = (refl, refl)

unbound_ne :
    (key k : Text)
    → is_bound key all_bound ≡ false
    → is_bound k all_bound ≡ true
    → text_eq key k ≡ false
unbound_ne key k h b =
    text_eq_ne key k (λ e. true_ne (sym b ∙ (ap (λ t. is_bound t all_bound) (sym e) ∙ h)))

sample-FlagsOnly : FlagsOnly (settings_of sample_system sample_started)
sample-FlagsOnly key h =
    rw
      (
        unbound_ne key (codes "data_path") h bound_keys.0,
        unbound_ne key (codes "http_proxy") h bound_keys.1,
      )
      refl

service_commands_unnamed_example :
    (install_service sample_manager sample_system sample_started sample_services
      ≡ (sample_services, exited))
    × (uninstall_service sample_manager sample_system sample_started sample_services
        ≡ (sample_services, exited))
    × (run_service_command sample_manager sample_system sample_started (returned tt) sample_services
        ≡ (sample_services, exited))
service_commands_unnamed_example =
    service_commands_unnamed sample_manager (λ m. m) sample-IsManager sample_system sample_program
      sample_started (returned tt) sample_services sample_service_start sample-FlagsOnly
