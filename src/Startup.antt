-- ===== src/Startup.antt =====
-- cmd/root.go: what the root command does before the run of a command. It reads the configuration,
-- makes the data path, sets up the logs, and passes the proxy on to the environment.
pub mod Config
pub mod Proxy
pub mod Commands
pub mod Version
pub mod Elsewhere
use nsg_parser.Dict.{Dict, put}
use nsg_parser.Outcome.{Outcome, ◌>>=◌, exited, returned}
use nsg_parser.FilePath.{abs, join_path}
use nsg_parser.Process.Setup.{Settings}
use nsg_parser.Process.Service.{ServiceConfig}
use nsg_parser.Prelude.{Bool, true, false, if◌then◌else◌, Option, none, some, [], ◌∷◌, Text, codes}

-- The calls of viper on its one instance, whose state is V. A search path is made absolute in the
-- working directory, and what viper answers depends on the environment. The truth value of
-- `ReadInConfig` is that it has no error.
pub record Viper (V : Type 0) : Type 0 where
  pub add_config_path : Option Text → Text → V → V
  pub set_config_file : Text → V → V
  pub set_config_name : Text → V → V
  pub automatic_env : V → V
  pub read_in_config : V → V × Bool
  pub settings : Dict Text → V → Settings

pub data Stat : Type 0 where
  present missing unreadable : Stat

-- What is outside the program: viper, the working directory if `os.Getwd` has one, the home
-- directory if `homedir.Dir` finds it, the folders, in which a relative path depends on the working
-- directory, and whether `rotatelogs.New` takes a pattern. It opens no file.
pub record System (V Folders : Type 0) : Type 0 where
  pub viper : Viper V
  pub working_dir : Option Text
  pub home_dir : Option Text
  pub stat : Option Text → Text → Folders → Stat
  pub mkdir : Option Text → Text → Folders → Folders
  pub rotate_logs : Text → Bool

pub data Level : Type 0 where
  debug_level info_level : Level

pub data LogOutput : Type 0 where
  standard_error standard_output : LogOutput
  rotated : Text → LogOutput

-- The variables of the package, and what the process has around it. `stdout_log` tells whether the
-- logger has been made.
pub record Program (V Folders : Type 0) : Type 0 where
  pub cfg_file : Text
  pub debug : Bool
  pub data_path : Text
  pub stdout_log : Bool
  pub service_config : Option ServiceConfig
  pub viper_state : V
  pub env : Dict Text
  pub folders : Folders
  pub log_level : Level
  pub log_output : LogOutput

abbrev pub log_name_format : Text
log_name_format = codes "nsg-parser-%Y%m%d%H%M.log"

-- `cfgFilePath`, where `none` is an error.
unfoldable pub cfg_file_path : Option Text → Text → Option Text
cfg_file_path here [] = none
cfg_file_path here (c ∷ file) = abs here (c ∷ file)

abbrev pub or_no_home : Option Text → Text
or_no_home none = []
or_no_home (some home) = home

abbrev pub with_proxy : Text → Dict Text → Dict Text
with_proxy [] env = env
with_proxy (c ∷ proxy) env =
    put (codes "HTTPS_PROXY") (c ∷ proxy) (put (codes "HTTP_PROXY") (c ∷ proxy) env)

module _ {V Folders : Type 0} (system : System V Folders) where
  abbrev pub viper : Viper V
  viper = system.viper

  abbrev pub settings_of : Program V Folders → Settings
  settings_of p = viper.settings p.env p.viper_state

  abbrev pub search_paths : V → V
  search_paths v = viper.add_config_path system.working_dir (codes ".") (
      viper.add_config_path system.working_dir (codes "$HOME/.nsg-parser")
        (viper.add_config_path system.working_dir (codes "/etc/nsg-parser/") v))

  -- The file of the flag has to be read; else a file is looked for.
  abbrev pub choose_config : Option Text → V → Outcome V
  choose_config none v = returned (
      viper.set_config_name (codes "nsg-parser")
        (viper.add_config_path system.working_dir (or_no_home system.home_dir) v))
  choose_config (some file) v =
      let (v', loaded) = viper.read_in_config (viper.set_config_file file v) in
      if loaded then returned v' else exited

  -- `initViper`. The configuration is read for a second time, and that error is only logged.
  unfoldable pub init_viper : Program V Folders → Outcome (Program V Folders)
  init_viper p = do
    v ← choose_config (cfg_file_path system.working_dir p.cfg_file) (search_paths p.viper_state)
    returned (record p { viper_state = (viper.read_in_config (viper.automatic_env v)).0 })

  -- The error of `os.Mkdir` is dropped.
  abbrev pub make_if : Stat → Text → Folders → Folders
  make_if missing path folders = system.mkdir system.working_dir path folders
  make_if present path folders = folders
  make_if unreadable path folders = folders

  unfoldable pub init_data_path : Program V Folders → Program V Folders
  init_data_path p =
      let path = (settings_of p).get_string (codes "data_path") in
      record p {
        data_path = path;
        folders = make_if (system.stat system.working_dir path p.folders) path p.folders;
      }

  abbrev pub log_path : Program V Folders → Text
  log_path p = join_path p.data_path log_name_format

  unfoldable pub init_logging : Program V Folders → Outcome (Program V Folders)
  init_logging p =
      let logged = record p {
        stdout_log = true;
        log_level = if p.debug then debug_level else info_level;
        log_output = rotated (log_path p);
      } in
      if system.rotate_logs (log_path p) then returned logged else exited

  unfoldable pub init_proxy : Program V Folders → Program V Folders
  init_proxy p = record p {
    env = with_proxy ((settings_of p).get_string (codes "http_proxy")) p.env;
  }

  -- `PersistentPreRun` of the root command.
  unfoldable pub root_pre_run : Program V Folders → Outcome (Program V Folders)
  root_pre_run p = do
    p' ← init_viper p
    p'' ← init_logging (init_data_path p')
    returned (init_proxy p'')
