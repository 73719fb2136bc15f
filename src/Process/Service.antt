-- ===== src/Process/Service.antt =====
-- cmd/service_commands.go: the process command as the body of an operating system's service.
use nsg_parser.Outcome.{Outcome, returned, exited}
use nsg_parser.Process.{Services, Listing, run_command, Done, run_destination}
use nsg_parser.Process.Setup.{
  Settings, Emulator, Command, init_syslog, Destination, init_client, init_file_client,
  destination_of,
}
use nsg_parser.Prelude.{refl, Option, none, some, List, [], ◌∷◌, Text, codes, Bool, ℕ, ◌≡◌, true}
use nsg_parser.Process.Setup.{ParserClient, init_file_client, syslog_address, to_files, to_syslog}
use nsg_parser.Prelude.{◌≡◌, refl, Bool-cases, inl, inr}

-- What `service.New` is given: the name stands twice.
pub record ServiceConfig : Type 0 where
  pub name : Text
  pub display_name : Text
  pub description : Text
  pub arguments : List Text

-- `initServiceParams`.
unfoldable pub init_service_params : Settings → ServiceConfig
init_service_params settings = record {
  name = settings.get_string (codes "service_name");
  display_name = settings.get_string (codes "service_name");
  description = settings.get_string (codes "service_description");
  arguments = [];
}

-- The arguments that `install` sets, where `cfgFilePath` finds a configuration file; an error of
-- it ends the process.
unfoldable pub install_config : Option Text → ServiceConfig → Outcome ServiceConfig
install_config none config = exited
install_config (some cfg_file) config = returned (record config {
  arguments = codes "process" ∷ codes "service" ∷ codes "run" ∷ codes "--config" ∷ cfg_file ∷ [];
})

-- `nsgParserService.run`: the clients, then the command as a daemon, which makes them again.
unfoldable pub run_service :
    {R W Files Bytes : Type 0}
    → (ParserClient → Services R W Files Bytes)
    → Listing
    → (Text → Text → Bool)
    → (Text → Text → Bool)
    → Emulator
    → Settings
    → ℕ
    → Command R
    → Files
    → Outcome (Done R W Files)
run_service services listing new_basic_client dial emulator settings n command files =
    let c = init_file_client (init_client new_basic_client emulator settings command) in
    run_command services listing new_basic_client dial emulator settings n
      (record c { daemon = true }) files

module _ {R W Files Bytes : Type 0} (services : ParserClient → Services R W Files Bytes)
    (listing : Listing) (new_basic_client dial : Text → Text → Bool) (emulator : Emulator)
    (settings : Settings) (n : ℕ) (files : Files) where
  same_destination :
      (o : Option Destination) (c d : Command R)
      → c.nsg_azure_client ≡ d.nsg_azure_client
      → c.daemon ≡ d.daemon
      → c.poll_interval ≡ d.poll_interval
      → c.data_path ≡ d.data_path
      → run_destination services listing dial settings n files o c
        ≡ run_destination services listing dial settings n files o d
  unfolding init_syslog
  same_destination none c d a e p q = refl
  same_destination (some to_files) c d a e p q = rw (a, e, p, q) refl
  same_destination (some to_syslog) c d a e p q =
      elim (Bool-cases
        (dial (settings.get_string (codes "syslog_protocol")) (syslog_address settings))) [
          | inl h ↦ rw (h, a, e, p) refl
          | inr h ↦ rw h refl
        ]

  -- The service does what the process command does as a daemon: that the clients are made twice,
  -- and the file client for every destination, changes nothing.
  pub run_service-run_command :
      (command : Command R)
      → run_service services listing new_basic_client dial emulator settings n command files
        ≡ run_command services listing new_basic_client dial emulator settings n
            (record command { daemon = true })
            files
  unfolding run_service run_command init_client
  run_service-run_command command =
      same_destination (destination_of (settings.get_string (codes "destination"))) _ _ refl refl
        refl refl
