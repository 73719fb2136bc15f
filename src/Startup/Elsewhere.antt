-- ===== src/Startup/Elsewhere.antt =====
-- The configuration file of a command that is started in another directory.
use nsg_parser.Dict.{Dict}
use nsg_parser.FilePath.{abs, is_abs, join_path}
use nsg_parser.Process.Setup.{Settings}
use nsg_parser.FilePath.Clean.{IsRooted, abs-abs, abs-is_abs}
use nsg_parser.Outcome.{returned, exited}
use nsg_parser.Startup.{
  System, Program, Viper, viper, settings_of, search_paths, cfg_file_path, root_pre_run,
  log_name_format, rotated,
}
use nsg_parser.Startup.Config.{
  prepared, with_proxies, with_data_path, chosen, readable, config_reads, pattern_taken, configured,
  configured_path, root_pre_run_lem, root_pre_run-returned, is_missing,
}
use nsg_parser.Prelude.{
  ◌≡◌, refl, ap, sym, ◌∙◌, true, ◌&&◌, if◌then◌else◌, Option, some, [], ◌∷◌, Text, codes,
}

-- Of two starts the one reads a given file as the other does: it is the same file in each directory.
cfg_file_path_rooted :
    (there : Option Text) (file : Text)
    → is_abs file ≡ true
    → cfg_file_path there file ≡ abs there file
unfolding cfg_file_path
cfg_file_path_rooted there [] h = cc
cfg_file_path_rooted there (c ∷ file) h = refl

pub cfg_file_path-again :
    (here there : Option Text) (file found : Text)
    → IsRooted here
    → cfg_file_path here file ≡ some found
    → cfg_file_path there found ≡ some found
unfolding cfg_file_path
cfg_file_path-again here there [] found r h = cc
cfg_file_path-again here there (c ∷ file) found r h =
    cfg_file_path_rooted there found (abs-is_abs here (c ∷ file) found r h)
    ∙ abs-abs here there (c ∷ file) found r h

-- The state of viper after both readings of a file that is set.
abbrev pub loaded : {V : Type 0} → Viper V → Text → V → V
loaded viper file v =
    (viper.read_in_config
      (viper.automatic_env (viper.read_in_config (viper.set_config_file file v)).0)).0

-- What viper documents of a file that is set: the search paths are not looked at.
pub record ExplicitFile {V : Type 0} (viper : Viper V) : Type 0 where
  pub reads :
      (here : Option Text) (path file : Text) (v : V)
      → (viper.read_in_config (viper.set_config_file file (viper.add_config_path here path v))).1
        ≡ (viper.read_in_config (viper.set_config_file file v)).1
  pub answers :
      (here : Option Text) (path file : Text) (v : V) (env : Dict Text)
      → viper.settings env (loaded viper file (viper.add_config_path here path v))
        ≡ viper.settings env (loaded viper file v)

abbrev configured_of : {V Folders : Type 0} → System V Folders → Option Text → V → V
configured_of system o v =
    (system.viper.read_in_config
      (system.viper.automatic_env (chosen system o (search_paths system v)))).0

-- What the operating system does with a path from the root: the working directory is not looked at.
pub record AbsolutePaths {V Folders : Type 0} (system : System V Folders) : Type 0 where
  pub stats :
      (here there : Option Text) (path : Text) (folders : Folders)
      → is_abs path ≡ true
      → system.stat here path folders ≡ system.stat there path folders
  pub makes :
      (here there : Option Text) (path : Text) (folders : Folders)
      → is_abs path ≡ true
      → system.mkdir here path folders ≡ system.mkdir there path folders

module _ {V Folders : Type 0} (system : System V Folders) (there : Option Text)
    (explicit : ExplicitFile system.viper) (absolute : AbsolutePaths system) where
  abbrev pub elsewhere : System V Folders
  elsewhere = record system { working_dir = there }

  same_reads :
      (file : Text) (v : V)
      → readable elsewhere (some file) (search_paths elsewhere v)
        ≡ readable system (some file) (search_paths system v)
  same_reads file v = simp explicit.reads

  same_answers :
      (file : Text) (v : V) (env : Dict Text)
      → system.viper.settings env (loaded system.viper file (search_paths elsewhere v))
        ≡ system.viper.settings env (loaded system.viper file (search_paths system v))
  same_answers file v env = simp explicit.answers

  module _ (p q : Program V Folders) (file : Text) where
    abbrev pub given_absolute : Program V Folders
    given_absolute = record p { cfg_file = file }

    module _ (a : cfg_file_path system.working_dir p.cfg_file ≡ some file)
        (b : cfg_file_path there file ≡ some file) where
      reads_there : config_reads elsewhere given_absolute ≡ config_reads system p
      reads_there =
          ap (λ o. readable elsewhere o (search_paths elsewhere p.viper_state)) b
          ∙ same_reads file p.viper_state
          ∙ sym (ap (λ o. readable system o (search_paths system p.viper_state)) a)

      answers_there :
          (env : Dict Text)
          → system.viper.settings env (configured elsewhere given_absolute)
            ≡ system.viper.settings env (configured system p)
      answers_there env =
          ap (λ o. system.viper.settings env (configured_of elsewhere o p.viper_state)) b
          ∙ same_answers file p.viper_state env
          ∙ sym (ap (λ o. system.viper.settings env (configured_of system o p.viper_state)) a)

      path_there : configured_path elsewhere given_absolute ≡ configured_path system p
      path_there = ap (λ (s : Settings). s.get_string (codes "data_path")) (answers_there p.env)

      open_there : pattern_taken elsewhere given_absolute ≡ pattern_taken system p
      open_there = ap (λ path. system.rotate_logs (join_path path log_name_format)) path_there

      env_there : (prepared elsewhere given_absolute).env ≡ (prepared system p).env
      env_there =
          ap (λ (s : Settings). with_proxies system p (s.get_string (codes "http_proxy")) p.env)
            (answers_there p.env)

      -- An absolute data path is the same folder from each directory.
      folders_there :
          is_abs (configured_path system p) ≡ true
          → (prepared elsewhere given_absolute).folders ≡ (prepared system p).folders
      folders_there rooted =
          let path = configured_path system p in
          ap (λ path. with_data_path elsewhere given_absolute path p.folders) path_there
          ∙ ap (λ s. if is_missing s then system.mkdir there path p.folders else p.folders)
              (absolute.stats there system.working_dir path p.folders rooted)
          ∙ ap
              (λ fs.
                if is_missing (system.stat system.working_dir path p.folders)
                then fs
                else p.folders)
              (absolute.makes there system.working_dir path p.folders rooted)

      prepared_there :
          config_reads system p && pattern_taken system p ≡ true
          → root_pre_run elsewhere given_absolute ≡ returned (prepared elsewhere given_absolute)
      prepared_there h =
          root_pre_run_lem elsewhere given_absolute
          ∙ ap (λ b. if b then returned (prepared elsewhere given_absolute) else exited)
              (ap (λ r. r && pattern_taken elsewhere given_absolute) reads_there
                ∙ ap (λ l. config_reads system p && l) open_there
                ∙ h)

    -- Let a command have been started with a configuration file, in a working directory whose name
    -- is absolute if there is one, let the data path that it found be absolute, let viper look at
    -- no search path where a file is set, and let an absolute path name the same folder from each
    -- directory. A command that is started in any other working directory with the absolute name of
    -- that file, and with nothing else changed, starts too, and has the same settings, data path,
    -- folders, pattern of log files and environment.
    pub root_pre_run-elsewhere :
        IsRooted system.working_dir
        → cfg_file_path system.working_dir p.cfg_file ≡ some file
        → root_pre_run system p ≡ returned q
        → is_abs q.data_path ≡ true
        → (q' : Program V Folders) × (root_pre_run elsewhere given_absolute ≡ returned q')
          × (settings_of elsewhere q' ≡ settings_of system q)
          × (q'.data_path ≡ q.data_path)
          × (q'.folders ≡ q.folders)
          × (q'.log_output ≡ q.log_output)
          × (q'.env ≡ q.env)
    root_pre_run-elsewhere r a h rooted =
        let b = cfg_file_path-again system.working_dir there p.cfg_file file r a in
        let (ready, e) = root_pre_run-returned system p q h in
        (
          prepared elsewhere given_absolute,
          prepared_there a b ready,
          rw e (
              ap (λ env. system.viper.settings env (configured elsewhere given_absolute))
                (env_there a b)
              ∙ answers_there a b (prepared system p).env),
          rw e (path_there a b),
          rw e (
              folders_there a b
                (ap (λ (x : Program V Folders). is_abs x.data_path) (sym e) ∙ rooted)),
          rw e (ap (λ path. rotated (join_path path log_name_format)) (path_there a b)),
          rw e (env_there a b),
        )
