-- ===== src/Tests/Polls.antt =====
-- Polls of a sample container with the settings of a command, and the status page.
use nsg_parser.Azure.Names.{Apart, load_process_status-save_apart}
use nsg_parser.Serve.Page.{get_process_status-poll}
use nsg_parser.LogFile.Kinds.{crreate_azure_log_file}
use nsg_parser.FileName.{name_tokens, get_logged_resource_name, get_log_time_from_name}
use nsg_parser.Client.Syslog
use nsg_parser.Nsg.Instance.{nsg_event_record}
use nsg_parser.Outcome.{exited, returned}
use nsg_parser.Status.{ProcessStatus, create_process_status_from_logfile}
use nsg_parser.Serve.{Build, NsgParserStatus, get_process_status}
use nsg_parser.LogFile.{new_azure_nsg_log_file}
use nsg_parser.Regex.{find_submatch}
use nsg_parser.Calendar.{days_since_year_1, number_of, parse_date}
use nsg_parser.Job.Stored.{AllStorable, AllStorable-put, Saves}
use nsg_parser.SourceName.Split.{Lacks-count, count}
use nsg_parser.Serve.Page.{Answers}
use nsg_parser.Process.BeginTime.{digits, parse_layout, begin_time_of}
use nsg_parser.Prelude.Int.{pos, ◌+ℤ◌, ◌-ℤ◌, ◌*ℤ◌}
use nsg_parser.Nsg.Record.{AzureNsgEventRecord}
use nsg_parser.Time.{zero_time}
use nsg_parser.Process.Setup.{ParserClient, by_file, by_syslog, Settings, Command, Emulator}
use nsg_parser.Azure.{AzureClient, zero_client, Listing, Polled, lookup_job, process_blobs_after}
use nsg_parser.Job.{
  read_process_status, load_process_status, Job, new_job, Services, save_process_status, complete,
}
use nsg_parser.Prelude.{
  ◌≡◌, refl, false, none, some, [], ◌∷◌, if◌then◌else◌, All, Text, codes, text_eq, ℕ, sym, ◌⊎◌, inr,
  Bool, true, Option, List, text_eq_ne, ◌≢◌, text_eq_iff,
}
use nsg_parser.Tests.Data.{two_source, sample_format, sample_blob, minute, sample_file}
use nsg_parser.Tests.Service.{
  sample_services, sample_selected-Saves, nothing-AllStorable, sample-AllGood, Folder,
  sample_options, sample-Storage,
}
use nsg_parser.Process.Options.{ready_client}
use nsg_parser.Azure.Polls.{Connected, Watched, poll_selection, LoadsStorable, Idle, poll-Idle}

-- The settings of a command line without a begin_time that can be read.
abbrev pub sample_settings : Settings
sample_settings = record {
  get_string = λ key.
      if text_eq key (codes "destination")
      then codes "syslog"
      else if text_eq key (codes "container_name")
      then codes "insights-logs-networksecuritygroupflowevent"
      else [];
  get_bool = λ key. false;
  get_int = λ key. pos 0;
}

abbrev pub sample_listing : Listing
sample_listing container prefix = some (sample_blob ∷ [])

abbrev pub sample_emulator : Emulator
sample_emulator = record { emulator_name = codes "devstoreaccount1"; emulator_key = codes "key" }

abbrev pub sample_command : Command AzureNsgEventRecord
sample_command = record {
  account_name = [];
  account_key = [];
  container_name = [];
  nsg_azure_client = zero_client;
  syslog_client = record { initialized = false };
  file_client = record { data_path = [] };
  daemon = false;
  poll_interval = pos 0;
  prefix = [];
  serve_http = false;
  serve_bind = [];
  destination_type = [];
  dev_mode = false;
  data_path = codes "/data";
}

abbrev pub sample_container : Text
sample_container = codes "insights-logs-networksecuritygroupflowevent"

abbrev pub sample_azure_client : AzureClient AzureNsgEventRecord
sample_azure_client = ready_client sample_settings (codes "/data")

pub sample-Watched :
    Watched sample_services sample_listing
      (codes "syslog")
      zero_time
      sample_container
      (sample_blob ∷ [])
      sample_azure_client
sample-Watched = record { lists = refl; all_good = sample-AllGood; all_distinct = (tt, tt) }

pub sample_begin_time : begin_time_of [] ≡ zero_time
unfolding begin_time_of parse_layout digits
sample_begin_time = refl

pub sample-Connected : Connected sample_azure_client sample_container
sample-Connected = record { container_is = refl; registry = []; registry_is = refl }

pub sample_poll-Saves : All (Saves sample_services) (
    poll_selection sample_services sample_listing
      (codes "syslog")
      zero_time
      sample_container
      (sample_blob ∷ [])
      sample_azure_client
      none)
unfolding load_process_status read_process_status
sample_poll-Saves = sample_selected-Saves

pub sample_poll-LoadsStorable :
    LoadsStorable sample_services sample_listing
      (codes "syslog")
      zero_time
      sample_container
      (sample_blob ∷ [])
      sample_azure_client
      none
unfolding load_process_status read_process_status
sample_poll-LoadsStorable = nothing-AllStorable

abbrev pub accepting : Text → Text → Bool
accepting name key = true

-- What is outside a job of each client. The file client is not used here, and ends the process.
abbrev pub by_client : ParserClient → Services AzureNsgEventRecord Text Folder ProcessStatus
by_client (by_file client) = record sample_services { process_azure_log_file = λ f. exited }
by_client (by_syslog client) = record sample_services {
  process_azure_log_file = Syslog.process_azure_log_file two_source client sample_format (minute 9);
}

-- A second poll by a client whose blob is known.
abbrev known_files : Folder
known_files = some ((sample_blob.name, create_process_status_from_logfile sample_file) ∷ [])

known-AllStorable :
    AllStorable ((sample_blob.name, create_process_status_from_logfile sample_file) ∷ [])
known-AllStorable =
    AllStorable-put sample_blob.name (create_process_status_from_logfile sample_file) []
      (record {
        modified_fits = (refl, refl);
        processed_fits = (refl, refl);
        record_fits = (refl, refl);
        log_time_fits = (refl, refl);
      })
      nothing-AllStorable

sample-Idle :
    Idle sample_services sample_listing
      (codes "syslog")
      zero_time
      sample_container
      (sample_blob ∷ [])
      sample_azure_client
      known_files
unfolding load_process_status read_process_status crreate_azure_log_file new_azure_nsg_log_file
    get_logged_resource_name get_log_time_from_name name_tokens find_submatch parse_date number_of
    days_since_year_1 ◌+ℤ◌ ◌*ℤ◌ ◌-ℤ◌
sample-Idle = record {
  is_connected = sample-Connected;
  watched = sample-Watched;
  selects_nothing = refl;
  loads_storable = known-AllStorable;
}

poll-Idle_example :
    (p : Polled AzureNsgEventRecord Text Folder) × (process_blobs_after sample_services
        sample_listing sample_azure_client known_files zero_time
        (codes "syslog")
      ≡ returned p)
    × Idle sample_services sample_listing
        (codes "syslog")
        zero_time
        sample_container
        (sample_blob ∷ [])
        p.client
        p.files
    × (p.error ≡ none)
    × (p.ran.written ≡ [])
    × (p.ran.errors ≡ [])
poll-Idle_example =
    poll-Idle sample_services sample_listing (codes "syslog") zero_time sample_container
      (sample_blob ∷ []) sample_azure_client known_files sample-Storage sample-Idle

abbrev sample_build : Build
sample_build = record {
  go_version = codes "go1.8";
  version = [];
  build_date = [];
  build_user = [];
  revision = [];
}

abbrev sample_marshal : NsgParserStatus AzureNsgEventRecord → List ℕ ⊎ List ℕ
sample_marshal status = inr (codes "{}")

get_process_status-poll_example :
    (p : Polled AzureNsgEventRecord Text Folder) × (status : NsgParserStatus AzureNsgEventRecord)
    × (j : Job AzureNsgEventRecord) × (process_blobs_after sample_services sample_listing
          sample_azure_client none zero_time
          (codes "syslog")
        ≡ returned p)
    × Answers
        (get_process_status sample_marshal sample_build (some p.client) (pos 3))
        (sample_marshal status)
    × (lookup_job status.jobs (codes "syslog") ≡ some j)
    × (j.status ≡ complete)
    × (status.processed_flow_count ≡ pos 3)
get_process_status-poll_example =
    get_process_status-poll sample_services sample_listing (codes "syslog") zero_time
      sample_container (sample_blob ∷ []) sample_build (pos 3) sample_marshal sample_azure_client
      none sample-Connected sample-Storage sample-Watched sample_poll-LoadsStorable
      sample_poll-Saves

-- A folder as a function of the names.
abbrev Store : Type 0
Store = Text → Option ProcessStatus

abbrev store_services : Services AzureNsgEventRecord Text Store ProcessStatus
store_services = record {
  list_blobs = none;
  process_azure_log_file = sample_services.process_azure_log_file;
  read_file = λ files path. files path;
  write_file = λ files path bytes other. if text_eq other path then some bytes else files other;
  marshal = λ status. some status;
  unmarshal = λ bytes. some bytes;
  now = minute 9;
}

store-Apart : Apart store_services
store-Apart = record {
  others = λ files path other bytes n. rw (text_eq_ne other path (λ e. n (sym e))) refl;
}

names_apart : codes "syslog" ≢ codes "file"
names_apart e =
    let clash : false ≡ true = (text_eq_iff (codes "syslog") (codes "file")).1 e in absurd cc

abbrev file_job : Job AzureNsgEventRecord
file_job = record (new_job sample_options []) { name = codes "file" }

abbrev syslog_job : Job AzureNsgEventRecord
syslog_job = record (new_job sample_options []) { name = codes "syslog" }

load_process_status-save_apart_example :
    load_process_status store_services
      (save_process_status store_services (λ name. none) file_job)
      syslog_job
    ≡ load_process_status store_services (λ name. none) syslog_job
unfolding count
load_process_status-save_apart_example =
    load_process_status-save_apart store_services store-Apart (λ name. none) file_job syslog_job
      names_apart refl (Lacks-count b'/' (codes "file") refl)
      (Lacks-count b'/' (codes "syslog") refl)
