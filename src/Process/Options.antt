-- ===== src/Process/Options.antt =====
-- What the options of the process command (cmd/process_commands.go) come to.
use nsg_parser.Job.Saved.{Storage}
use nsg_parser.Job.Stored.{Saves}
use nsg_parser.Process.BeginTime.{begin_time_of}
use nsg_parser.LogFile.{Blob}
use nsg_parser.Prelude.Int.{◌*ℤ◌, wrap64, pos}
use nsg_parser.Outcome.{Outcome, panicked, exited, returned}
use nsg_parser.Process.{Done, run_command, started, process_loop, run_destination}
use nsg_parser.Process.Setup.{
  ParserClient, by_file, by_syslog, Settings, Command, Emulator, account_of, Destination,
  destination_of, to_files, to_syslog, init_client, init_syslog, syslog_address, job_name_of,
}
use nsg_parser.Azure.{AzureClient, max_concurrency, zero_client, Listing, new_azure_client}
use nsg_parser.Job.{Services}
use nsg_parser.Prelude.{
  ℕ, zero, suc, ◌≡◌, refl, ap, Bool, true, false, Option, none, some, [], ◌∷◌, replicate, Text,
  codes, List, All, ◌∙◌,
}
use nsg_parser.Azure.Polls.{Watched, poll_selection, LoadsStorable}
use nsg_parser.Process.Flags.{OnlyFlags, poll_interval_zero}
use nsg_parser.Process.Rounds.{pauses, process_loop-Steady}

pauses_zero : (n : ℕ) → pauses (pos 0) n ≡ replicate n (pos 0)
unfolding pauses ◌*ℤ◌ wrap64
pauses_zero zero = refl
pauses_zero (suc n) = ap (λ l. pos 0 ∷ l) (pauses_zero n)

-- The client that an accepted account gives.
abbrev pub ready_client : {R : Type 0} → Settings → Text → AzureClient R
ready_client settings data_path = record zero_client {
  container = some (settings.get_string (codes "container_name"));
  data_path = data_path;
  concurrency = max_concurrency;
  registered_jobs = some [];
}

module _ {R W Files Bytes : Type 0} (services : ParserClient → Services R W Files Bytes)
    (listing : Listing) (new_basic_client dial : Text → Text → Bool) (emulator : Emulator)
    (settings : Settings) (command : Command R) (files : Files) where
  abbrev pub Accepted : Bool → Type 0
  Accepted b =
      new_basic_client (account_of command.dev_mode emulator settings).0
        (account_of command.dev_mode emulator settings).1
      ≡ b

  -- How the command ends when the account is refused, by the destination and by the dial.
  abbrev pub refusal : Option Destination → Bool → Outcome (Done R W Files)
  refusal none b = exited
  refusal (some to_files) b = panicked
  refusal (some to_syslog) true = panicked
  refusal (some to_syslog) false = exited

  abbrev pub dialled : Bool
  dialled = dial (settings.get_string (codes "syslog_protocol")) (syslog_address settings)

  Accepted-nsg_azure_client :
      Accepted true
      → (init_client new_basic_client emulator settings command).nsg_azure_client
        ≡ ready_client settings command.data_path
  unfolding init_client new_azure_client
  Accepted-nsg_azure_client h = rw h refl

  -- The command as the flag of the daemon has it.
  abbrev with_daemon : Bool → Command R
  with_daemon b = record command { daemon = b }

  -- A destination that opens: the dial of the syslog client succeeds.
  abbrev pub Opens : Destination → Type 0
  Opens to_files = Unit
  Opens to_syslog = dialled ≡ true

  -- The client that the destination has then.
  abbrev pub opened_client : Destination → ParserClient
  opened_client to_files = by_file (record { data_path = command.data_path })
  opened_client to_syslog = by_syslog (record { initialized = true })

  abbrev pub opened_services : Destination → Services R W Files Bytes
  opened_services destination = services (opened_client destination)

  -- A destination that opens leaves the client and the settings of the loop to the polls.
  opened :
      (destination : Destination) (n : ℕ) (c : Command R) (out : Done R W Files)
      → Opens destination
      → c.nsg_azure_client ≡ ready_client settings command.data_path
      → c.data_path ≡ command.data_path
      → process_loop
          (opened_services destination)
          listing
          n
          c.daemon
          c.poll_interval
          (settings.get_string (codes "begin_time"))
          (job_name_of destination)
          (started (ready_client settings command.data_path) files)
        ≡ returned out
      → run_destination services listing dial settings n files (some destination) c ≡ returned out
  unfolding init_syslog
  opened to_files n c out h e d t = rw (e, d) t
  opened to_syslog n c out h e d t = rw (h, e) t

  module _ (bs : List Blob) (destination : Destination) where
    abbrev pub client : AzureClient R
    client = ready_client settings command.data_path

    abbrev pub run_with : ℕ → Bool → Outcome (Done R W Files)
    run_with n daemon =
        run_command services listing new_basic_client dial emulator settings n (with_daemon daemon)
          files

    run_with-opened :
        (n : ℕ) (daemon : Bool) (out : Done R W Files)
        → Accepted true
        → destination_of (settings.get_string (codes "destination")) ≡ some destination
        → Opens destination
        → process_loop
            (opened_services destination)
            listing
            n
            daemon
            (settings.get_int (codes "poll_interval"))
            (settings.get_string (codes "begin_time"))
            (job_name_of destination)
            (started client files)
          ≡ returned out
        → run_with n daemon ≡ returned out
    unfolding run_command init_client
    run_with-opened n daemon out a dest h t =
        let c = init_client new_basic_client emulator settings (with_daemon daemon) in
        ap (λ o. run_destination services listing dial settings n files o c) dest
        ∙ opened destination n c out h (Accepted-nsg_azure_client a) refl t

    -- Let the process command have an accepted account and a destination that opens, over a
    -- container whose listing stays (blobs of distinct names, all made into log files without an
    -- error), let each task that the first poll selects return from the client of the destination
    -- and send its log file, with the name and the time of modification unchanged, to the channel,
    -- and let an option that is not bound to a flag be 0. Then n + 1 rounds of a daemon come to
    -- their end, have written for the destination what one run without the daemon writes, have
    -- logged the same errors, and each sleep behind a round is of no time. A file is taken to be
    -- read back as it was written, and the JSON of a status whose times have years of four digits,
    -- as those of the entries that are loaded and sent, with the same entries and instants.
    pub run_command_daemon :
        Accepted true
        → OnlyFlags settings
        → destination_of (settings.get_string (codes "destination")) ≡ some destination
        → Opens destination
        → Storage (opened_services destination)
        → Watched
            (opened_services destination)
            listing
            (job_name_of destination)
            (begin_time_of (settings.get_string (codes "begin_time")))
            (settings.get_string (codes "container_name"))
            bs
            client
        → LoadsStorable
            (opened_services destination)
            listing
            (job_name_of destination)
            (begin_time_of (settings.get_string (codes "begin_time")))
            (settings.get_string (codes "container_name"))
            bs
            client
            files
        → All (Saves (opened_services destination)) (
            poll_selection
              (opened_services destination)
              listing
              (job_name_of destination)
              (begin_time_of (settings.get_string (codes "begin_time")))
              (settings.get_string (codes "container_name"))
              bs
              client
              files)
        → (n : ℕ)
        → (once : Done R W Files) × (d : Done R W Files) × (run_with n false ≡ returned once)
          × (run_with (suc n) true ≡ returned d)
          × (d.written ≡ once.written)
          × (d.logged ≡ once.logged)
          × (d.sleeps ≡ replicate (suc n) (pos 0))
    run_command_daemon a o dest h s w fits ok n =
        let (once, d, t) =
          process_loop-Steady (opened_services destination) listing
            (settings.get_int (codes "poll_interval")) (settings.get_string (codes "begin_time"))
            (job_name_of destination) (settings.get_string (codes "container_name")) bs client files
            (record { container_is = refl; registry = []; registry_is = refl }) s w fits ok n in
        (
          once,
          d,
          run_with-opened n false once a dest h t.runs_once,
          run_with-opened (suc n) true d a dest h t.runs,
          t.same_written,
          t.same_logged,
          t.paused
              ∙ (ap (λ i. pauses i (suc n)) (poll_interval_zero settings o) ∙ pauses_zero (suc n)),
        )
