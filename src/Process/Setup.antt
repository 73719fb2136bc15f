-- ===== src/Process/Setup.antt =====
-- What the process command sets up before it polls (cmd/process_commands.go, Initialize of
-- parser/cef.go and of parser/client.go): the flags, the settings, the clients and the destination.
use nsg_parser.Prelude.Int.{ℤ}
use nsg_parser.Client.Syslog.{CefSyslogClient}
use nsg_parser.Client.File.{FileClient}
use nsg_parser.Outcome.{Outcome, ◌>>=◌, exited, returned}
use nsg_parser.Azure.{AzureClient, new_azure_client}
use nsg_parser.Prelude.{
  Bool, true, false, Option, none, some, List, [], ◌∷◌, ◌++◌, if◌then◌else◌, Text, codes, text_eq,
}

-- What viper answers for the flags that were bound to it: the value of the flag, of a variable of the
-- environment, or of the configuration file; the zero value for a key that it does not know.
pub record Settings : Type 0 where
  pub get_string : Text → Text
  pub get_bool : Text → Bool
  pub get_int : Text → ℤ

-- The flags that `init` declares, and those that it binds.
abbrev pub declared_flags : List Text
declared_flags =
    codes "daemon"
    ∷ codes "prefix"
    ∷ codes "destination"
    ∷ codes "storage_account_name"
    ∷ codes "storage_account_key"
    ∷ codes "container_name"
    ∷ codes "begin_time"
    ∷ codes "poll_interval"
    ∷ codes "serve_http"
    ∷ codes "serve_http_bind"
    ∷ codes "syslog_protocol"
    ∷ codes "syslog_host"
    ∷ codes "syslog_port"
    ∷ []

abbrev pub bound_flags : List Text
bound_flags =
    codes "prefix"
    ∷ codes "destination"
    ∷ codes "begin_time"
    ∷ codes "storage_account_name"
    ∷ codes "storage_account_key"
    ∷ codes "container_name"
    ∷ codes "serve_http"
    ∷ codes "serve_http_bind"
    ∷ codes "syslog_protocol"
    ∷ codes "syslog_host"
    ∷ codes "syslog_port"
    ∷ []

-- The variables of the package that the command sets, and those of the root command that it reads.
pub record Command (R : Type 0) : Type 0 where
  pub account_name : Text
  pub account_key : Text
  pub container_name : Text
  pub nsg_azure_client : AzureClient R
  pub syslog_client : CefSyslogClient
  pub file_client : FileClient
  pub daemon : Bool
  pub poll_interval : ℤ
  pub prefix : Text
  pub serve_http : Bool
  pub serve_bind : Text
  pub destination_type : Text
  pub dev_mode : Bool
  pub data_path : Text

-- The emulator's account stands in the storage library.
pub record Emulator : Type 0 where
  pub emulator_name : Text
  pub emulator_key : Text

abbrev pub account_of : Bool → Emulator → Settings → Text × Text
account_of true emulator settings = (emulator.emulator_name, emulator.emulator_key)
account_of false emulator settings = (
  settings.get_string (codes "storage_account_name"),
  settings.get_string (codes "storage_account_key"),
)

-- `initClient`. An error of `NewAzureClient` is only logged: the client is then the zero client.
unfoldable pub init_client :
    {R : Type 0} → (Text → Text → Bool) → Emulator → Settings → Command R → Command R
init_client new_basic_client emulator settings c =
    let account = account_of c.dev_mode emulator settings in
    let container_name = settings.get_string (codes "container_name") in
    record c {
      account_name = account.0;
      account_key = account.1;
      container_name = container_name;
      prefix = settings.get_string (codes "prefix");
      serve_http = settings.get_bool (codes "serve_http");
      serve_bind = settings.get_string (codes "serve_http_bind");
      poll_interval = settings.get_int (codes "poll_interval");
      destination_type = settings.get_string (codes "destination");
      nsg_azure_client =
          (new_azure_client new_basic_client account.0 account.1 container_name c.data_path).0;
    }

-- `CEFSyslogClient.Initialize`: `syslog.Dial` is outside, and where it fails `log.Fatal` ends the
-- process.
abbrev pub initialize :
    (Text → Text → Bool) → Text → Text → CefSyslogClient → Outcome CefSyslogClient
initialize dial protocol address client =
    if dial protocol address then returned (record { initialized = true }) else exited

abbrev pub syslog_address : Settings → Text
syslog_address settings =
    settings.get_string (codes "syslog_host") ++ (b':' ∷ settings.get_string (codes "syslog_port"))

unfoldable pub init_syslog :
    {R : Type 0} → (Text → Text → Bool) → Settings → Command R → Outcome (Command R)
init_syslog dial settings c = do
  client ←
      initialize dial (settings.get_string (codes "syslog_protocol")) (syslog_address settings)
        c.syslog_client
  returned (record c { syslog_client = client })

-- `FileClient.Initialize`.
abbrev pub init_file_client : {R : Type 0} → Command R → Command R
init_file_client c = record c { file_client = record { data_path = c.data_path } }

pub data Destination : Type 0 where
  to_files to_syslog : Destination

-- The switch of the command; any other text ends the process.
abbrev pub destination_of : Text → Option Destination
destination_of t =
    if text_eq t (codes "file")
    then some to_files
    else if text_eq t (codes "syslog")
    then some to_syslog
    else none

abbrev pub job_name_of : Destination → Text
job_name_of to_files = codes "file"
job_name_of to_syslog = codes "syslog"

abbrev pub init_destination :
    {R : Type 0} → (Text → Text → Bool) → Settings → Destination → Command R → Outcome (Command R)
init_destination dial settings to_files c = returned (init_file_client c)
init_destination dial settings to_syslog c = init_syslog dial settings c

-- The `ParserClient` of the job: `processFiles` passes the file client, `processSyslog` the syslog
-- client.
pub data ParserClient : Type 0 where
  by_file : FileClient → ParserClient
  by_syslog : CefSyslogClient → ParserClient

abbrev pub parser_client : {R : Type 0} → Destination → Command R → ParserClient
parser_client to_files c = by_file c.file_client
parser_client to_syslog c = by_syslog c.syslog_client
