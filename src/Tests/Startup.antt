-- ===== src/Tests/Startup.antt =====
-- The start of the commands and the installation of the service, with a sample configuration.

use nsg_parser.Dict.{lookup}
use nsg_parser.Outcome.{returned}
use nsg_parser.FilePath.{abs, clean, join_path, resolve}
use nsg_parser.Prelude.Int.{pos}
use nsg_parser.Startup.{
  Viper, System, Program, missing, info_level, standard_error, settings_of, cfg_file_path,
  root_pre_run,
}
use nsg_parser.Startup.Config.{prepared, root_pre_run_lem}
use nsg_parser.Startup.Proxy.{root_pre_run-env}
use nsg_parser.Startup.Commands.{
  CommandName, root_cmd, process_cmd, test_send_cmd, version_cmd, service_cmd, install_cmd,
  uninstall_cmd, run_cmd, own_pre_run, parent_of, PreRun, root_hook, service_hook, version_hook,
  Inherits, service_pre_run, prepare, start_of, prepare-start_of, with_service, service_pre_run_lem,
}
use nsg_parser.Startup.Elsewhere.{AbsolutePaths, ExplicitFile, root_pre_run-elsewhere}
use nsg_parser.Prelude.{
  ◌≡◌, refl, true, false, if◌then◌else◌, Option, none, some, List, [], ◌∷◌, Text, codes, text_eq,
  split,
}

-- What is loaded is the name of the file that was set.
abbrev pub sample_viper : Viper (Text × Text)
sample_viper = record {
  add_config_path = λ here path v. v;
  set_config_file = λ file v. (file, v.1);
  set_config_name = λ name v. v;
  automatic_env = λ v. v;
  read_in_config = λ v. ((v.0, v.0), true);
  settings = λ env v. record {
    get_string = λ key.
        if text_eq key (codes "data_path")
        then codes "/data"
        else if text_eq key (codes "http_proxy")
        then codes "http://proxy:3128"
        else [];
    get_bool = λ key. false;
    get_int = λ key. pos 0;
  };
}

abbrev pub sample_system : System (Text × Text) (List Text)
sample_system = record {
  viper = sample_viper;
  working_dir = some (codes "/home/user");
  home_dir = some (codes "/home/user");
  stat = λ here path folders. missing;
  mkdir = λ here path folders. path ∷ folders;
  rotate_logs = λ path. true;
}

abbrev pub sample_program : Program (Text × Text) (List Text)
sample_program = record {
  cfg_file = codes "conf/../nsg.json";
  debug = false;
  data_path = [];
  stdout_log = false;
  service_config = none;
  viper_state = ([], []);
  env = (codes "HTTPS_PROXY", codes "http://other:8080") ∷ [];
  folders = [];
  log_level = info_level;
  log_output = standard_error;
}

abbrev pub sample_file : Text
sample_file = codes "/home/user/nsg.json"

pub sample_cfg_file :
    cfg_file_path (some (codes "/home/user")) (codes "conf/../nsg.json") ≡ some sample_file
unfolding cfg_file_path abs join_path clean resolve split
sample_cfg_file = refl

abbrev pub started_sample : Program (Text × Text) (List Text)
started_sample = prepared sample_system sample_program

root_pre_run_lem_example : root_pre_run sample_system sample_program ≡ returned started_sample
unfolding cfg_file_path abs join_path clean resolve split
root_pre_run_lem_example = root_pre_run_lem sample_system sample_program

sample_start : root_pre_run sample_system sample_program ≡ returned started_sample
unfolding cfg_file_path abs join_path clean resolve split
sample_start = root_pre_run_lem sample_system sample_program

-- The proxy of the secure requests is overwritten.
root_pre_run-env_example :
    lookup (codes "HTTPS_PROXY") started_sample.env ≡ some (codes "http://proxy:3128")
root_pre_run-env_example =
    root_pre_run-env sample_system sample_program started_sample (codes "HTTPS_PROXY") sample_start

pub sample-ExplicitFile : ExplicitFile sample_viper
sample-ExplicitFile = record {
  reads = λ here path file v. refl;
  answers = λ here path file v env. refl;
}

pub sample-AbsolutePaths : AbsolutePaths sample_system
sample-AbsolutePaths = record {
  stats = λ here there path folders h. refl;
  makes = λ here there path folders h. refl;
}

-- The same command started in the root directory.
root_pre_run-elsewhere_example :
    (q : Program (Text × Text) (List Text)) × (root_pre_run
        (record sample_system { working_dir = some (codes "/") })
        (record sample_program { cfg_file = sample_file })
      ≡ returned q)
    × (settings_of (record sample_system { working_dir = some (codes "/") }) q
        ≡ settings_of sample_system started_sample)
    × (q.data_path ≡ started_sample.data_path)
    × (q.folders ≡ started_sample.folders)
    × (q.log_output ≡ started_sample.log_output)
    × (q.env ≡ started_sample.env)
root_pre_run-elsewhere_example =
    root_pre_run-elsewhere sample_system (some (codes "/")) sample-ExplicitFile sample-AbsolutePaths
      sample_program started_sample sample_file refl sample_cfg_file sample_start refl

-- How cobra looks for the function, three levels up.
abbrev pub found : CommandName → Option PreRun
found root_cmd = some root_hook
found process_cmd = some root_hook
found test_send_cmd = some root_hook
found version_cmd = some version_hook
found service_cmd = some service_hook
found install_cmd = some service_hook
found uninstall_cmd = some service_hook
found run_cmd = some service_hook

found_own :
    (name : CommandName) (hook : PreRun) → own_pre_run name ≡ some hook → found name ≡ some hook
found_own root_cmd hook h = h
found_own service_cmd hook h = h
found_own version_cmd hook h = h
found_own process_cmd hook h = cc
found_own test_send_cmd hook h = cc
found_own install_cmd hook h = cc
found_own uninstall_cmd hook h = cc
found_own run_cmd hook h = cc

found_above :
    (name parent : CommandName)
    → own_pre_run name ≡ none
    → parent_of name ≡ some parent
    → found name ≡ found parent
found_above root_cmd parent h e = cc
found_above service_cmd parent h e = cc
found_above version_cmd parent h e = cc
found_above process_cmd root_cmd h e = refl
found_above process_cmd _ h e = cc
found_above test_send_cmd process_cmd h e = refl
found_above test_send_cmd _ h e = cc
found_above install_cmd service_cmd h e = refl
found_above install_cmd _ h e = cc
found_above uninstall_cmd service_cmd h e = refl
found_above uninstall_cmd _ h e = cc
found_above run_cmd service_cmd h e = refl
found_above run_cmd _ h e = cc

pub found-Inherits : Inherits found
found-Inherits = record { own = found_own; above = found_above }

-- The run of the service is prepared as the service is.
prepare-start_of_example :
    prepare sample_system found run_cmd sample_program
    ≡ start_of sample_system sample_program run_cmd
prepare-start_of_example =
    prepare-start_of sample_system sample_program found found-Inherits run_cmd

pub sample_service_start :
    service_pre_run sample_system sample_program
    ≡ returned (with_service sample_system sample_program)
unfolding cfg_file_path abs join_path clean resolve split
sample_service_start = service_pre_run_lem sample_system sample_program

pub sample_process_start :
    prepare sample_system found process_cmd sample_program ≡ returned started_sample
unfolding cfg_file_path abs join_path clean resolve split
sample_process_start =
    prepare-start_of sample_system sample_program found found-Inherits process_cmd
