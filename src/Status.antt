-- ===== src/Status.antt =====
-- The process status of parser/client.go: what is remembered of a log file between runs.
use nsg_parser.Prelude.Int.{ℤ}
use nsg_parser.Time.{Time}
use nsg_parser.LogFile.{BlobRange, LogFile}
use nsg_parser.Dict.{Dict}
use nsg_parser.Prelude.{ℕ, Text}

pub record LogFileProcessStatus : Type 0 where
  pub name : Text
  pub etag : Text
  pub last_modified : Time
  pub last_processed : Time
  pub last_processed_record : Time
  pub last_processed_time_stamp : ℤ
  pub last_record_count : ℕ
  pub last_processed_range : BlobRange
  pub log_time : Time
  pub nsg_name : Text

abbrev pub ProcessStatus : Type 0
ProcessStatus = Dict LogFileProcessStatus

abbrev pub create_process_status_from_logfile : {R : Type 0} → LogFile R → LogFileProcessStatus
create_process_status_from_logfile f = record {
  name = f.name;
  etag = f.etag;
  last_modified = f.last_modified;
  last_processed = f.last_processed;
  last_processed_record = f.last_processed_record;
  last_processed_time_stamp = f.last_processed_time_stamp;
  last_record_count = f.last_record_count;
  last_processed_range = f.last_processed_range;
  log_time = f.log_time;
  nsg_name = f.nsg_name;
}
