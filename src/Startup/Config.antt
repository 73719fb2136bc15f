-- ===== src/Startup/Config.antt =====
-- How the start of a command ends, by its configuration and the pattern of its log files.
use nsg_parser.Dict.{Dict, put}
use nsg_parser.Outcome.{returned, exited, returned-injective}
use nsg_parser.FilePath.{join_path}
use nsg_parser.Startup.{
  System, Program, viper, search_paths, or_no_home, cfg_file_path, choose_config, init_viper,
  init_data_path, init_logging, init_proxy, root_pre_run, log_name_format, Level, debug_level,
  info_level, rotated, with_proxy, make_if, Stat, present, missing, unreadable,
}
use nsg_parser.Prelude.{
  ◌≡◌, refl, sym, ◌∙◌, Bool, true, false, ◌&&◌, if◌then◌else◌, Option, none, some, [], ◌∷◌, ap, ◌⊎◌,
  Text, text_eq, codes, Bool-cases, inl, inr,
}

pub if-returned {ℓ} :
    {A : Type ℓ} (b : Bool) (x y : A)
    → (if b then returned x else exited) ≡ returned y
    → (b ≡ true) × (y ≡ x)
if-returned true x y h = (refl, sym (returned-injective x y h))
if-returned false x y h = cc

abbrev pub is_missing : Stat → Bool
is_missing missing = true
is_missing present = false
is_missing unreadable = false

stat_cases : (s : Stat) → (s ≡ present) ⊎ (s ≡ missing) ⊎ (s ≡ unreadable)
stat_cases present = inl refl
stat_cases missing = inr (inl refl)
stat_cases unreadable = inr (inr refl)

module _ {V Folders : Type 0} (system : System V Folders) where
  -- The state of viper when the file of the flag, or the place to look in, has been set.
  abbrev pub chosen : Option Text → V → V
  chosen none v =
      (viper system).set_config_name (codes "nsg-parser")
        ((viper system).add_config_path system.working_dir (or_no_home system.home_dir) v)
  chosen (some file) v = ((viper system).read_in_config ((viper system).set_config_file file v)).0

  -- A file that is given can be read.
  abbrev pub readable : Option Text → V → Bool
  readable none v = true
  readable (some file) v = ((viper system).read_in_config ((viper system).set_config_file file v)).1

  choose_config_lem :
      (file : Option Text) (v : V)
      → choose_config system file v ≡ (if readable file v then returned (chosen file v) else exited)
  choose_config_lem none v = refl
  choose_config_lem (some file) v = refl

  module _ (p : Program V Folders) where
    abbrev pub file_given : Option Text
    file_given = cfg_file_path system.working_dir p.cfg_file

    abbrev pub config_reads : Bool
    config_reads = readable file_given (search_paths system p.viper_state)

    -- What viper holds after the start.
    abbrev pub configured : V
    configured =
        ((viper system).read_in_config
          ((viper system).automatic_env (chosen file_given (search_paths system p.viper_state)))).0

    abbrev pub configured_path : Text
    configured_path = ((viper system).settings p.env configured).get_string (codes "data_path")

    abbrev pub level_of : Bool → Level
    level_of b = if b then debug_level else info_level

    init_viper_lem :
        init_viper system p
        ≡ (if config_reads then returned (record p { viper_state = configured }) else exited)
    unfolding init_viper
    init_viper_lem =
        rw (choose_config_lem file_given (search_paths system p.viper_state))
          (elim (Bool-cases config_reads) [ inl e ↦ rw e refl | inr e ↦ rw e refl ])

    abbrev pub pattern_taken : Bool
    pattern_taken = system.rotate_logs (join_path configured_path log_name_format)

    -- The folders with the data path, which is made where it is missing.
    abbrev pub with_data_path : Text → Folders → Folders
    with_data_path path folders =
        if is_missing (system.stat system.working_dir path folders)
        then system.mkdir system.working_dir path folders
        else folders

    -- The environment with a proxy, if there is one.
    abbrev pub with_proxies : Text → Dict Text → Dict Text
    with_proxies proxy env =
        if text_eq proxy []
        then env
        else put (codes "HTTPS_PROXY") proxy (put (codes "HTTP_PROXY") proxy env)

    abbrev pub configured_proxy : Text
    configured_proxy = ((viper system).settings p.env configured).get_string (codes "http_proxy")

    abbrev finished_with : Dict Text → Folders → Program V Folders
    finished_with env folders = record p {
      data_path = configured_path;
      stdout_log = true;
      viper_state = configured;
      env = env;
      folders = folders;
      log_level = level_of p.debug;
      log_output = rotated (join_path configured_path log_name_format);
    }

    -- The program when its start has come to its end.
    abbrev pub prepared : Program V Folders
    prepared =
        finished_with (with_proxies configured_proxy p.env)
          (with_data_path configured_path p.folders)

    made_if :
        (path : Text) (folders : Folders)
        → make_if system (system.stat system.working_dir path folders) path folders
          ≡ with_data_path path folders
    made_if path folders = elim (stat_cases (system.stat system.working_dir path folders)) [
      | inl e ↦ rw e refl
      | inr (inl e) ↦ rw e refl
      | inr (inr e) ↦ rw e refl
    ]

    pub proxies_set :
        (proxy : Text) (env : Dict Text) → with_proxy proxy env ≡ with_proxies proxy env
    proxies_set [] env = refl
    proxies_set (c ∷ proxy) env = refl

    -- The start of a command exits where a file that the flag names cannot be read, or where the
    -- pattern of the log files in the data path that the configuration names is refused; otherwise
    -- it returns, with that data path, for which Mkdir was called if it was missing and only then,
    -- with the pattern of the logs in it and the level of the flag, and with the configured proxy,
    -- if there is one, in both variables of the environment. It never panics.
    pub root_pre_run_lem :
        root_pre_run system p
        ≡ (if config_reads && pattern_taken then returned prepared else exited)
    unfolding root_pre_run init_data_path init_logging init_proxy
    root_pre_run_lem = rw init_viper_lem (elim (Bool-cases config_reads) [
      | inl e ↦ rw e (elim (Bool-cases pattern_taken) [
        | inl l ↦ rw l (
            ap
              (λ env. returned (
                finished_with env (
                  make_if system (system.stat system.working_dir configured_path p.folders)
                    configured_path p.folders)))
              (proxies_set configured_proxy p.env)
            ∙ ap (λ folders. returned (finished_with (with_proxies configured_proxy p.env) folders))
                (made_if configured_path p.folders))
        | inr l ↦ rw l refl
      ])
      | inr e ↦ rw e refl
    ])

    -- A start that returns has read and opened all, and leaves the prepared program.
    pub root_pre_run-returned :
        (q : Program V Folders)
        → root_pre_run system p ≡ returned q
        → (config_reads && pattern_taken ≡ true) × (q ≡ prepared)
    root_pre_run-returned q h =
        if-returned (config_reads && pattern_taken) prepared q (sym root_pre_run_lem ∙ h)
