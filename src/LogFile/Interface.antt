-- ===== src/LogFile/Interface.antt =====
-- The interface `AzureLogFile` of parser/common.go, with what its implementations owe, and that of
-- parser/event_log_file.go. The interface is cut in three: what is read, what is recorded, and
-- what reads the blob.
use nsg_parser.SourceName.Split.{count}
use nsg_parser.SourceName.Tokens.{stamp}
use nsg_parser.Client.{mark_processed}
use nsg_parser.Prelude.Int.{ℤ}
use nsg_parser.FileName.{Error}
use nsg_parser.Outcome.{Outcome}
use nsg_parser.Status.{LogFileProcessStatus}
use nsg_parser.Time.{Time}
use nsg_parser.LogFile.{
  BlobRange, Blob, EventLog, LogFile, Source, load_blob, load_blob_range,
  get_unprocessed_blob_range,
}
use nsg_parser.Prelude.{ℕ, ◌≡◌, refl, ap, ◌∙◌, Option, Text, some}

pub record Getters (F R : Type 0) : Type 0 where
  pub get_name : F → Text
  pub get_nsg_name : F → Text
  pub get_etag : F → Text
  pub get_log_time : F → Time
  pub get_azure_event_log : F → Option (EventLog R)
  pub get_last_processed : F → Time
  pub get_last_processed_record : F → Time
  pub get_last_processed_time_stamp : F → ℤ
  pub get_last_record_count : F → ℕ
  pub get_last_modified : F → Time
  pub get_last_processed_range : F → BlobRange
  pub get_blob : F → Blob

-- A setter gives the log file as it leaves it.
pub record Setters (F : Type 0) : Type 0 where
  pub set_last_processed : F → Time → F
  pub set_last_record_count : F → ℕ → F
  pub set_last_processed_record : F → Time → F
  pub set_last_processed_range : F → BlobRange → F
  pub set_last_processed_time_stamp : F → ℤ → F

pub record Loading (F : Type 0) : Type 0 where
  pub load_blob : F → Outcome (F × Option Error)
  pub load_blob_range : F → BlobRange → Outcome (F × Option Error)
  pub get_unprocessed_blob_range : F → BlobRange

-- `createProcessStatusFromLogfile`, through the interface.
abbrev pub process_status_of : {F R : Type 0} → Getters F R → F → LogFileProcessStatus
process_status_of g f = record {
  name = g.get_name f;
  etag = g.get_etag f;
  last_modified = g.get_last_modified f;
  last_processed = g.get_last_processed f;
  last_processed_record = g.get_last_processed_record f;
  last_processed_time_stamp = g.get_last_processed_time_stamp f;
  last_record_count = g.get_last_record_count f;
  last_processed_range = g.get_last_processed_range f;
  log_time = g.get_log_time f;
  nsg_name = g.get_nsg_name f;
}

-- A setter changes its own field of the status and no other.
pub record AzureLogFile (F R : Type 0) : Type 0 where
  pub getters : Getters F R
  pub setters : Setters F
  pub loading : Loading F
  pub processed_set :
      (f : F) (t : Time)
      → process_status_of getters (setters.set_last_processed f t)
        ≡ record (process_status_of getters f) { last_processed = t }
  pub count_set :
      (f : F) (n : ℕ)
      → process_status_of getters (setters.set_last_record_count f n)
        ≡ record (process_status_of getters f) { last_record_count = n }
  pub record_set :
      (f : F) (t : Time)
      → process_status_of getters (setters.set_last_processed_record f t)
        ≡ record (process_status_of getters f) { last_processed_record = t }
  pub range_set :
      (f : F) (span : BlobRange)
      → process_status_of getters (setters.set_last_processed_range f span)
        ≡ record (process_status_of getters f) { last_processed_range = span }
  pub time_stamp_set :
      (f : F) (stamp : ℤ)
      → process_status_of getters (setters.set_last_processed_time_stamp f stamp)
        ≡ record (process_status_of getters f) { last_processed_time_stamp = stamp }

-- What both clients record of a log file that they have processed, in their order.
unfoldable pub record_progress : {F : Type 0} → Setters F → F → Time → ℕ → Time → BlobRange → F
record_progress s f now count last span =
    s.set_last_processed_range
      (s.set_last_processed_record (s.set_last_record_count (s.set_last_processed f now) count)
        last)
      span

-- The syslog client has recorded the time of the last event before.
unfoldable pub record_syslog_progress :
    {F : Type 0} → Setters F → F → ℤ → Time → ℕ → Time → BlobRange → F
record_syslog_progress s f stamp now count last span =
    record_progress s (s.set_last_processed_time_stamp f stamp) now count last span

module _ {R : Type 0} where
  abbrev pub nsg_getters : Getters (LogFile R) R
  nsg_getters = record {
    get_name = λ f. f.name;
    get_nsg_name = λ f. f.nsg_name;
    get_etag = λ f. f.etag;
    get_log_time = λ f. f.log_time;
    get_azure_event_log = λ f. f.event_log;
    get_last_processed = λ f. f.last_processed;
    get_last_processed_record = λ f. f.last_processed_record;
    get_last_processed_time_stamp = λ f. f.last_processed_time_stamp;
    get_last_record_count = λ f. f.last_record_count;
    get_last_modified = λ f. f.last_modified;
    get_last_processed_range = λ f. f.last_processed_range;
    get_blob = λ f. f.blob;
  }

  abbrev pub nsg_setters : Setters (LogFile R)
  nsg_setters = record {
    set_last_processed = λ f t. record f { last_processed = t };
    set_last_record_count = λ f n. record f { last_record_count = n };
    set_last_processed_record = λ f t. record f { last_processed_record = t };
    set_last_processed_range = λ f span. record f { last_processed_range = span };
    set_last_processed_time_stamp = λ f stamp. record f { last_processed_time_stamp = stamp };
  }

  abbrev pub nsg_loading : Source R → Loading (LogFile R)
  nsg_loading source = record {
    load_blob = load_blob source;
    load_blob_range = load_blob_range source;
    get_unprocessed_blob_range = get_unprocessed_blob_range;
  }

  abbrev pub azure_nsg_log_file : Source R → AzureLogFile (LogFile R) R
  azure_nsg_log_file source = record {
    getters = nsg_getters;
    setters = nsg_setters;
    loading = nsg_loading source;
    processed_set = λ f t. refl;
    count_set = λ f n. refl;
    record_set = λ f t. refl;
    range_set = λ f span. refl;
    time_stamp_set = λ f stamp. refl;
  }

-- The clients of Client mark a log file as they do through the interface.
pub mark_processed-record_progress :
    {R : Type 0} (f : LogFile R) (log : EventLog R) (now last : Time) (count : ℕ) (span : BlobRange)
    → mark_processed f log now count last span
      ≡ record_progress nsg_setters (record f { event_log = some log }) now count last span
unfolding record_progress
mark_processed-record_progress f log now last count span = refl

abbrev pub with_progress : LogFileProcessStatus → Time → ℕ → Time → BlobRange → LogFileProcessStatus
with_progress s now count last span = record s {
  last_processed = now;
  last_record_count = count;
  last_processed_record = last;
  last_processed_range = span;
}

module _ {F R : Type 0} (i : AzureLogFile F R) (now last : Time) (count : ℕ)
    (span : BlobRange) where
  process_status_of-record_progress :
      (f : F)
      → process_status_of i.getters (record_progress i.setters f now count last span)
        ≡ with_progress (process_status_of i.getters f) now count last span
  unfolding record_progress
  process_status_of-record_progress f =
      let f1 = i.setters.set_last_processed f now in
      let f2 = i.setters.set_last_record_count f1 count in
      let f3 = i.setters.set_last_processed_record f2 last in
      i.range_set f3 span
      ∙ ap {A = LogFileProcessStatus} (λ s. record s { last_processed_range = span })
          (i.record_set f2 last
            ∙ ap {A = LogFileProcessStatus} (λ s. record s { last_processed_record = last })
                (i.count_set f1 count
                  ∙ ap {A = LogFileProcessStatus} (λ s. record s { last_record_count = count })
                      (i.processed_set f now)))

  -- Through the interface of any lawful log file, recording the progress as the syslog client does
  -- changes in the status exactly the time stamp, the time of processing, the count, the last
  -- record and the range.
  pub process_status_of-record_syslog_progress :
      (f : F) (stamp : ℤ)
      → process_status_of i.getters (record_syslog_progress i.setters f stamp now count last span)
        ≡ with_progress
            (record (process_status_of i.getters f) { last_processed_time_stamp = stamp })
            now
            count
            last
            span
  unfolding record_syslog_progress
  process_status_of-record_syslog_progress f stamp =
      process_status_of-record_progress (i.setters.set_last_processed_time_stamp f stamp)
      ∙ ap {A = LogFileProcessStatus} (λ s. with_progress s now count last span)
          (i.time_stamp_set f stamp)
