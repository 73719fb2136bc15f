-- ===== src/SourceName/FromLog.antt =====
-- `NewAzureNsgLogFileFromEventLog` and its like: a log file for an event log that came from elsewhere.
use nsg_parser.LogFile.Records.{get_records_last}
use nsg_parser.SourceName.Unique.{IsResourceId}
use nsg_parser.SourceName.RoundTrip.{IsUtc, get_log_time_from_name-source_file_name}
use nsg_parser.Prelude.Int.{ℤ, pos}
use nsg_parser.LogFile.Kinds.{
  get_app_gw_log_time_from_name, get_app_gw_firewall_log_time_from_name, blank_log_file,
  LogFileKind, nsg_log, app_gw_access_log, app_gw_firewall_log,
}
use nsg_parser.Calendar.Format.{hour_start, format_short}
use nsg_parser.FileName.{Error, get_log_time_from_name, name_tokens}
use nsg_parser.SourceName.{source_file_name}
use nsg_parser.Outcome.{Outcome, returned, panicked}
use nsg_parser.Time.{Time, zero_time}
use nsg_parser.LogFile.{Blob, EventLog, LogFile, get_records, deref}
use nsg_parser.Prelude.{
  ℕ, ◌≡◌, Option, none, some, List, [], ◌∷◌, set, last_or, Text, ◌++◌, codes, refl, ap, ◌∙◌, length,
  replicate,
}

-- What the constructors use of `AzureEventRecord`: `InitRecord` on a record that is not
-- initialized keeps the resource id and the time, of which the name is made.
pub record SourceRecord (R : Type 0) : Type 0 where
  pub zone : ℤ → ℤ
  pub resource_id : R → Text
  pub get_time : R → Time
  pub get_source_file_name : R → Text
  pub get_log_source_name : R → Text
  pub ready : R → R
  pub name_is :
      (r : R) → get_source_file_name r ≡ source_file_name zone (resource_id r) (get_time r)
  pub same_id : (r : R) → resource_id (ready r) ≡ resource_id r
  pub same_time : (r : R) → get_time (ready r) ≡ get_time r

abbrev pub zero_blob : Blob
zero_blob = record {
  name = [];
  container_name = [];
  etag = [];
  last_modified = zero_time;
  content_length = pos 0;
}

abbrev pub zero_log_file : {R : Type 0} → LogFile R
zero_log_file = blank_log_file zero_blob zero_time []

-- `ShortName` of the log files.
unfoldable pub short_name : {R : Type 0} → (ℤ → ℤ) → LogFile R → Text
short_name zone f = f.nsg_name ++ (codes "-" ++ format_short zone f.log_time)

module _ {R : Type 0} (s : SourceRecord R) (get_log_time : Text → Time × Option Error) where
  -- The record behind the pointer is initialized where it stands.
  abbrev pub named_log_file : EventLog R → ℕ → R → LogFile R × Option Error
  named_log_file log p r =
      let ready = s.ready r in
      let name = s.get_source_file_name ready in
      let log_time = get_log_time name in
      (
        record zero_log_file {
          event_log = some (record log { cells = set log.cells p ready });
          name = name;
          last_modified = s.get_time ready;
          log_time = log_time.0;
          nsg_name = s.get_log_source_name ready;
        },
        log_time.1,
      )

  abbrev pub at_cell : EventLog R → ℕ → Option R → Outcome (LogFile R × Option Error)
  at_cell log p none = panicked
  at_cell log p (some r) = returned (named_log_file log p r)

  abbrev pub from_pointers : EventLog R → List ℕ → Outcome (LogFile R × Option Error)
  from_pointers log [] = returned (zero_log_file, none)
  from_pointers log (p ∷ ps) = at_cell log p (deref log p)

  unfoldable pub new_log_file_from_event_log : EventLog R → Outcome (LogFile R × Option Error)
  new_log_file_from_event_log log = let read = get_records log in from_pointers read.0 read.1

module _ {R : Type 0} (s : SourceRecord R) where
  abbrev pub new_azure_nsg_log_file_from_event_log : EventLog R → Outcome (LogFile R × Option Error)
  new_azure_nsg_log_file_from_event_log log =
      new_log_file_from_event_log s get_log_time_from_name log

  abbrev pub new_azure_app_gw_log_file_from_event_log :
      EventLog R → Outcome (LogFile R × Option Error)
  new_azure_app_gw_log_file_from_event_log log =
      new_log_file_from_event_log s get_app_gw_log_time_from_name log

  abbrev pub new_azure_app_gw_firewall_log_file_from_event_log :
      EventLog R → Outcome (LogFile R × Option Error)
  new_azure_app_gw_firewall_log_file_from_event_log log =
      new_log_file_from_event_log s get_app_gw_firewall_log_time_from_name log

  -- The constructor of each type of log file.
  abbrev pub from_event_log : LogFileKind → EventLog R → Outcome (LogFile R × Option Error)
  from_event_log nsg_log = new_azure_nsg_log_file_from_event_log
  from_event_log app_gw_access_log = new_azure_app_gw_log_file_from_event_log
  from_event_log app_gw_firewall_log = new_azure_app_gw_firewall_log_file_from_event_log

  -- The log file is that of one record, and its time is the start of an hour.
  pub record OfRecord (last : R) (hour : Time) (f : LogFile R) : Type 0 where
    pub name_is : f.name ≡ source_file_name s.zone (s.resource_id last) (s.get_time last)
    pub modified_is : f.last_modified ≡ s.get_time last
    pub time_is : f.log_time ≡ hour

  -- Any way of reading the time that gives the start of the hour will do.
  of_last :
      (get_log_time : Text → Time × Option Error) (log : EventLog R) (r : R) (rs : List R)
      (hour : Time)
      → log.azure_event_records ≡ none
      → log.records ≡ r ∷ rs
      → (let last = last_or r rs in
          get_log_time (source_file_name s.zone (s.resource_id last) (s.get_time last))
          ≡ (hour, none))
      → (f : LogFile R) × (new_log_file_from_event_log s get_log_time log ≡ returned (f, none))
        × OfRecord (last_or r rs) hour f
  unfolding new_log_file_from_event_log
  of_last get_log_time log r rs hour fresh e et =
      let last = last_or r rs in
      let p = length log.cells in
      let read = (get_records log).0 in
      let (pointers, cell) = get_records_last log r rs fresh e in
      let named : s.get_source_file_name (s.ready last)
          ≡ source_file_name s.zone (s.resource_id last) (s.get_time last) =
        s.name_is (s.ready last) ∙ rw (s.same_id last, s.same_time last) refl in
      let timed = ap get_log_time named ∙ et in
      (
        (named_log_file s get_log_time read p last).0,
        ap (from_pointers s get_log_time read) (pointers ∙ ap (λ l. replicate (length l) p) e)
            ∙ (ap (at_cell s get_log_time read p) cell
                ∙ ap (λ x. returned ((named_log_file s get_log_time read p last).0, x))
                    (ap (λ q. q.1) timed)),
        record { name_is = named; modified_is = s.same_time last; time_is = ap (λ q. q.0) timed },
      )

  -- Of whichever type, the log file made from a fresh event log with records has no error and the
  -- name and the time of modification of the last record, not the first, and its log time is the
  -- start of the hour of that record, if that is a time in UTC of the years 1 to 9999 and its
  -- resource id has a slash, no newline and no equals sign.
  pub from_event_log-OfRecord :
      (kind : LogFileKind) (log : EventLog R) (r : R) (rs : List R) (sec : ℕ)
      → log.azure_event_records ≡ none
      → log.records ≡ r ∷ rs
      → IsResourceId (s.resource_id (last_or r rs))
      → IsUtc (s.get_time (last_or r rs)) sec
      → (f : LogFile R) × (from_event_log kind log ≡ returned (f, none))
        × OfRecord (last_or r rs) (hour_start sec) f
  unfolding get_log_time_from_name name_tokens get_app_gw_log_time_from_name
      get_app_gw_firewall_log_time_from_name
  from_event_log-OfRecord nsg_log log r rs sec fresh e i u =
      of_last get_log_time_from_name log r rs (hour_start sec) fresh e
        (get_log_time_from_name-source_file_name s.zone _ _ sec i u)
  from_event_log-OfRecord app_gw_access_log log r rs sec fresh e i u =
      of_last get_app_gw_log_time_from_name log r rs (hour_start sec) fresh e
        (get_log_time_from_name-source_file_name s.zone _ _ sec i u)
  from_event_log-OfRecord app_gw_firewall_log log r rs sec fresh e i u =
      of_last get_app_gw_firewall_log_time_from_name log r rs (hour_start sec) fresh e
        (get_log_time_from_name-source_file_name s.zone _ _ sec i u)
