-- ===== src/Tests/Service.antt =====
-- The services around a sample container, and what they come to.
use nsg_parser.Job.Saved.{Storage}
use nsg_parser.Dict.{lookup}
use nsg_parser.Job.Stored.{AllStorable, SameEntry, SameOption, Saves, Saves-Delivers}
use nsg_parser.Job.Settled.{Delivers}
use nsg_parser.Job.Select.{AllGood, selected}
use nsg_parser.Prelude.Int.{◌+ℤ◌, ◌-ℤ◌, ◌*ℤ◌}
use nsg_parser.Nsg.Record.{AzureNsgEventRecord}
use nsg_parser.LogFile.Kinds.{crreate_azure_log_file}
use nsg_parser.FileName.{Error, name_tokens, get_logged_resource_name, get_log_time_from_name}
use nsg_parser.Status.{LogFileProcessStatus, ProcessStatus}
use nsg_parser.Time.{zero_time}
use nsg_parser.LogFile.{Blob, LogFile, new_azure_nsg_log_file}
use nsg_parser.Regex.{find_submatch}
use nsg_parser.Calendar.{days_since_year_1, number_of, parse_date}
use nsg_parser.Job.{JobOptions, Services, create_azure_log_file, Ran}
use nsg_parser.Prelude.{◌≡◌, refl, sym, subst, Option, none, some, [], ◌∷◌, All, Text, codes}
use nsg_parser.Client.Syslog
use nsg_parser.Job.Clients
use nsg_parser.Tests.Data.{
  two_records, two_source, two_loaded, minute, first_record, quiet_record, sample_file,
  sample_client, sample_format, sample-Loads, sample_blob,
}
use nsg_parser.Nsg.Instance.{nsg_event_record}

-- A container with the one blob, and a folder with the one file that was written last, whose
-- bytes are any status.
abbrev pub Folder : Type 0
Folder = Option ProcessStatus

abbrev pub make_file : Blob → LogFile AzureNsgEventRecord × Option Error
make_file blob =
    (record sample_file { name = blob.name; blob = blob; last_modified = blob.last_modified }, none)

abbrev pub sample_services : Services AzureNsgEventRecord Text Folder ProcessStatus
sample_services = record {
  list_blobs = some (sample_blob ∷ []);
  process_azure_log_file =
      Syslog.process_azure_log_file two_source sample_client sample_format (minute 9);
  read_file = λ files path. files;
  write_file = λ files path bytes. some bytes;
  marshal = λ status. some status;
  unmarshal = λ bytes. some bytes;
  now = minute 9;
}

same_entry : (v : LogFileProcessStatus) → SameEntry v v
same_entry v = record {
  same_name = refl;
  same_etag = refl;
  same_modified = record { same_sec = refl; same_nsec = refl };
  same_processed = record { same_sec = refl; same_nsec = refl };
  same_record = record { same_sec = refl; same_nsec = refl };
  same_stamp = refl;
  same_count = refl;
  same_range = refl;
  same_log_time = record { same_sec = refl; same_nsec = refl };
  same_nsg_name = refl;
}

same_option : (o : Option LogFileProcessStatus) → SameOption o o
same_option none = tt
same_option (some v) = same_entry v

pub nothing-AllStorable : AllStorable []
nothing-AllStorable k v e = cc

pub sample-Storage : Storage sample_services
sample-Storage = record {
  marshalled = λ s fits. (s, s, refl, refl, λ k. same_option (lookup k s));
  stored = λ files path bytes. refl;
}

abbrev pub sample_options : JobOptions
sample_options = record {
  start_record_time = zero_time;
  end_record_time = minute 100;
  data_path = codes "/data";
  concurrency = 1;
}

abbrev pub empty_run : Ran Text
empty_run = record { status = []; errors = []; written = []; counted = 0 }

pub sample-Saves : Saves sample_services sample_file
sample-Saves =
    Clients.process_azure_log_file-IsStorable two_source sample_client sample_format (minute 9)
      sample_file two_loaded two_records quiet_record (first_record ∷ [])
      (sample-Loads quiet_record (first_record ∷ [])) refl (refl, refl) (refl, refl) (refl, refl)
      (refl, refl)

-- The files that a job selects are made from the names of the blobs.
pub sample_selected :
    selected (create_azure_log_file {R = AzureNsgEventRecord}) zero_time [] (sample_blob ∷ [])
    ≡ sample_file ∷ []
unfolding crreate_azure_log_file new_azure_nsg_log_file get_logged_resource_name
    get_log_time_from_name name_tokens find_submatch parse_date number_of days_since_year_1 ◌+ℤ◌
    ◌*ℤ◌ ◌-ℤ◌
sample_selected = refl

pub sample_selected-Saves :
    All
      (Saves sample_services)
      (selected (create_azure_log_file {R = AzureNsgEventRecord}) zero_time [] (sample_blob ∷ []))
sample_selected-Saves = subst (All (Saves sample_services)) (sym sample_selected) (sample-Saves, tt)

pub sample-AllGood : AllGood (create_azure_log_file {R = AzureNsgEventRecord}) (sample_blob ∷ [])
unfolding crreate_azure_log_file new_azure_nsg_log_file get_logged_resource_name name_tokens
    find_submatch
sample-AllGood = (refl, tt)

pub sample_selected-Delivers :
    All
      (Delivers sample_services)
      (selected (create_azure_log_file {R = AzureNsgEventRecord}) zero_time [] (sample_blob ∷ []))
sample_selected-Delivers =
    Saves-Delivers sample_services
      (selected (create_azure_log_file {R = AzureNsgEventRecord}) zero_time [] (sample_blob ∷ []))
      sample_selected-Saves
