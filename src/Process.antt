-- ===== src/Process.antt =====
-- The process command: cmd/process_commands.go, with the settings it reads, the clients it makes, and
-- the loop that polls. The run of the service (cmd/service_commands.go) is the same in daemon mode.
pub mod Setup
pub mod BeginTime
pub mod Rounds
pub mod Flags
pub mod Options
pub mod Service
pub mod Counter
pub mod TestSend
use nsg_parser.Process.Setup.{
  ParserClient, parser_client, Settings, Command, Emulator, init_client, Destination,
  destination_of, job_name_of, init_destination,
}
use nsg_parser.Process.BeginTime.{begin_time_of}
use nsg_parser.Prelude.Int.{ℤ, ◌*ℤ◌, wrap64, pos}
use nsg_parser.Client.Syslog.{CefSyslogClient}
use nsg_parser.Client.File.{FileClient}
use nsg_parser.FileName.{Error}
use nsg_parser.Outcome.{Outcome, ◌>>=◌, exited, returned}
use nsg_parser.Azure.{AzureClient, new_azure_client, Polled, Listing, process_blobs_after}
use nsg_parser.Job.{Services, errors_of}
use nsg_parser.Prelude.{
  ℕ, zero, suc, Bool, true, false, Option, none, some, List, [], ◌∷◌, ◌++◌, if◌then◌else◌, Text,
  codes, text_eq, ◌+◌,
}
use nsg_parser.Azure

-- What the process has done: its client and the files as the polls leave them, all that was
-- written, and the sleeps between the polls, in nanoseconds.
pub record Done (R W Files : Type 0) : Type 0 where
  pub client : AzureClient R
  pub files : Files
  pub written : List W
  pub counted : ℕ
  pub logged : List Error
  pub sleeps : List ℤ

abbrev pub started : {R W Files : Type 0} → AzureClient R → Files → Done R W Files
started client files = record {
  client = client;
  files = files;
  written = [];
  counted = 0;
  logged = [];
  sleeps = [];
}

module _ {R W Files Bytes : Type 0} (services : Services R W Files Bytes) (listing : Listing) where
  abbrev pub after_poll : Done R W Files → Polled R W Files → Done R W Files
  after_poll d p = record {
    client = p.client;
    files = p.files;
    written = d.written ++ p.ran.written;
    counted = d.counted + p.ran.counted;
    logged = d.logged ++ (p.ran.errors ++ errors_of p.error);
    sleeps = d.sleeps;
  }

  -- `processFiles` and `processSyslog`, which differ in the client and the name of the job. The
  -- error of the time is overwritten by that of the poll, and that is logged.
  unfoldable pub process_once : Text → Text → Done R W Files → Outcome (Done R W Files)
  process_once begin_time job_name d = do
    p ← process_blobs_after services listing d.client d.files (begin_time_of begin_time) job_name
    returned (after_poll d p)

  -- `time.Duration(pollInterval) * time.Second`.
  abbrev pub sleep_for : ℤ → Done R W Files → Done R W Files
  sleep_for interval d = record d { sleeps = d.sleeps ++ wrap64 (interval *ℤ pos 1000000000) ∷ [] }

  -- The loop of a daemon, as far as its first `n` rounds.
  unfoldable pub daemon_rounds : ℕ → ℤ → Text → Text → Done R W Files → Outcome (Done R W Files)
  daemon_rounds zero interval begin_time job_name d = returned d
  daemon_rounds (suc n) interval begin_time job_name d = do
    d' ← process_once begin_time job_name d
    daemon_rounds n interval begin_time job_name (sleep_for interval d')

  -- The loop: one round and its end, or the rounds of a daemon.
  unfoldable pub process_loop :
      ℕ → Bool → ℤ → Text → Text → Done R W Files → Outcome (Done R W Files)
  process_loop n daemon interval begin_time job_name d = elim daemon [
    | true ↦ daemon_rounds n interval begin_time job_name d
    | false ↦ process_once begin_time job_name d
  ]

-- The switch's branches and the loop, in which the syslog client has been initialized or the file
-- client has its path. What is outside a job depends on the client that processes its log files.
abbrev pub run_destination :
    {R W Files Bytes : Type 0}
    → (ParserClient → Services R W Files Bytes)
    → Listing
    → (Text → Text → Bool)
    → Settings
    → ℕ
    → Files
    → Option Destination
    → Command R
    → Outcome (Done R W Files)
run_destination services listing dial settings n files none c = exited
run_destination services listing dial settings n files (some destination) c = do
  ready ← init_destination dial settings destination c
  process_loop (services (parser_client destination ready)) listing n ready.daemon
      ready.poll_interval (settings.get_string (codes "begin_time")) (job_name_of destination)
      (started ready.nsg_azure_client files)

-- The run of the command: the clients, the switch, and the loop.
unfoldable pub run_command :
    {R W Files Bytes : Type 0}
    → (ParserClient → Services R W Files Bytes)
    → Listing
    → (Text → Text → Bool)
    → (Text → Text → Bool)
    → Emulator
    → Settings
    → ℕ
    → Command R
    → Files
    → Outcome (Done R W Files)
run_command services listing new_basic_client dial emulator settings n command files =
    let c = init_client new_basic_client emulator settings command in
    run_destination services listing dial settings n files (destination_of c.destination_type) c
