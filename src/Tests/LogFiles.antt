-- ===== src/Tests/LogFiles.antt =====
-- Log files and the clients that process them, at concrete ones.

use nsg_parser.Cef.Syslog.{syslog_text}
use nsg_parser.Job.Clients.{process_azure_log_file-next_range, process_azure_log_file-Delivers}
use nsg_parser.Client.Syslog.{process_azure_log_file_loaded}
use nsg_parser.Client.Collect.{copies, events_of, events_of_early}
use nsg_parser.Client.File.{FileWrite, process_azure_log_file, process_azure_log_file_no_events}
use nsg_parser.Nsg.Record.{AzureNsgEventRecord}
use nsg_parser.LogFile.Records.{get_records_last}
use nsg_parser.Outcome.{returned}
use nsg_parser.Status.{create_process_status_from_logfile}
use nsg_parser.Time.{zero_time}
use nsg_parser.Client.{Processed}
use nsg_parser.LogFile.{get_unprocessed_blob_range, get_records, deref, Blob}
use nsg_parser.Job.{carry_over}
use nsg_parser.Prelude.{
  ◌≡◌, refl, true, false, none, some, List, [], ◌∷◌, length, replicate, last_or, codes, map, Text,
}
use nsg_parser.Client.Syslog
use nsg_parser.Client.File
use nsg_parser.Job.Clients
use nsg_parser.Nsg.Instance.{nsg_event_record}
use nsg_parser.Tests.Data.{
  two_records, two_source, two_loaded, minute, no_options, first_record, quiet_record, log_of,
  sample_blob, sample_file, later_file, sample_source, loaded_file, sample_client, sample_format,
  sample-Loads,
}

get_records_last_example :
    ((get_records two_records).1
      ≡ replicate (length two_records.records) (length two_records.cells))
    × (deref (get_records two_records).0 (length two_records.cells)
        ≡ some (last_or quiet_record (first_record ∷ [])))
get_records_last_example = get_records_last two_records quiet_record (first_record ∷ []) refl refl

process_azure_log_file_loaded_example :
    (p : Processed AzureNsgEventRecord (List Text)) × (Syslog.process_azure_log_file two_source
        sample_client sample_format
        (minute 9)
        sample_file
      ≡ returned p)
    × (p.sent ≡ true)
    × (p.error ≡ none)
    × (p.written
        ≡ map
            (syslog_text sample_format)
            (copies (length two_records.records) (events_of first_record no_options)))
    × (p.log_file.last_processed_record ≡ minute 1)
    × (p.log_file.last_record_count ≡ length two_records.records)
    × (p.log_file.last_processed_range ≡ get_unprocessed_blob_range sample_file)
    × (p.log_file.last_processed ≡ minute 9)
    × (p.log_file.name ≡ sample_file.name)
    × (p.log_file.last_modified ≡ sample_file.last_modified)
    × (p.log_file.log_time ≡ sample_file.log_time)
process_azure_log_file_loaded_example =
    Syslog.process_azure_log_file_loaded two_source sample_client sample_format (minute 9)
      sample_file two_loaded two_records quiet_record (first_record ∷ [])
      (sample-Loads quiet_record (first_record ∷ [])) refl

quiet-nothing : events_of quiet_record no_options ≡ []
quiet-nothing = events_of_early quiet_record no_options refl

process_azure_log_file_no_events_example :
    (p : Processed AzureNsgEventRecord (List File.FileWrite)) × (File.process_azure_log_file
        (sample_source first_record (quiet_record ∷ []))
        (λ events. none)
        (record { data_path = codes "/data" })
        (minute 9)
        sample_file
      ≡ returned p)
    × (p.error ≡ none)
    × (p.sent ≡ false)
    × (p.written ≡ [])
    × (p.log_file.last_processed_range ≡ record { start = 0; stop = 0 })
    × (p.log_file.last_processed_record ≡ zero_time)
process_azure_log_file_no_events_example =
    File.process_azure_log_file_no_events (sample_source first_record (quiet_record ∷ []))
      (λ events. none) (record { data_path = codes "/data" }) (minute 9) sample_file
      (loaded_file first_record (quiet_record ∷ [])) (log_of first_record (quiet_record ∷ []))
      first_record (quiet_record ∷ []) (sample-Loads first_record (quiet_record ∷ [])) quiet-nothing

process_azure_log_file-next_range_example :
    (p : Processed AzureNsgEventRecord (List Text)) × (Syslog.process_azure_log_file two_source
        sample_client sample_format
        (minute 9)
        sample_file
      ≡ returned p)
    × (get_unprocessed_blob_range
          (carry_over later_file (create_process_status_from_logfile p.log_file))
        ≡ record { start = 400; stop = 900 })
process_azure_log_file-next_range_example =
    Clients.process_azure_log_file-next_range two_source sample_client sample_format (minute 9)
      sample_file two_loaded later_file two_records quiet_record (first_record ∷ [])
      (sample-Loads quiet_record (first_record ∷ [])) refl

-- The month is 13.
abbrev bad_date_blob : Blob
bad_date_blob = record sample_blob {
  name = codes "resourceId=/N/RG-NSG/y=2017/m=13/d=09/h=21/m=00/PT1H.json";
}
