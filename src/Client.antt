-- ===== src/Client.antt =====
-- `ProcessAzureLogFile` of parser/cef.go (syslog) and parser/file_client.go (files). The channel of
-- results is a flag: whether the log file was sent on it.
pub mod Collect
pub mod Loads
pub mod Syslog
pub mod Counted
pub mod File
pub mod Agree
use nsg_parser.FileName.{Error}
use nsg_parser.Outcome.{Outcome, ◌>>=◌, returned, panicked}
use nsg_parser.Time.{Time}
use nsg_parser.LogFile.{
  EventRecord, BlobRange, EventLog, LogFile, get_records, deref, Source, load_blob_range,
}
use nsg_parser.Cef.{CefEvent, GetCefEventListOptions}
use nsg_parser.Prelude.{ℕ, Bool, Option, none, some, List, [], ◌∷◌, ◌++◌, set, last_or}

-- A pointer's record is converted in its cell; the errors of a conversion are dropped.
module _ {R : Type 0} ⦃e : EventRecord R⦄ where
  unfoldable pub collect :
      GetCefEventListOptions
      → EventLog R
      → List ℕ
      → List CefEvent
      → Outcome (EventLog R × List CefEvent)
  collect o log [] events = returned (log, events)
  collect o log (p ∷ ps) events = elim (deref log p) [
    | none ↦ panicked
    | some r ↦ do
      out ← e.cef_list r o
      collect o (record log { cells = set log.cells p out.0 }) ps (events ++ out.1.events)
  ]

-- What the common first half of both clients ends with.
pub data Extract (R : Type 0) : Type 0 where
  load_failed : LogFile R → Error → Extract R
  extracted : LogFile R → EventLog R → List ℕ → List CefEvent → Extract R

module _ {R : Type 0} ⦃e : EventRecord R⦄ (source : Source R) where
  -- `GetRecords` on a nil event log panics.
  abbrev pub extract_loaded : LogFile R × Option Error → Outcome (Extract R)
  extract_loaded (f, some err) = returned (load_failed f err)
  extract_loaded (f, none) = elim f.event_log [
    | none ↦ panicked
    | some log ↦ do
      let fetched = get_records log
      out ← collect (record { start_time = f.last_processed_record }) fetched.0 fetched.1 []
      returned (extracted f out.0 fetched.1 out.1)
  ]

  unfoldable pub extract : LogFile R → BlobRange → Outcome (Extract R)
  extract f span = do loaded ← load_blob_range source f span; extract_loaded loaded

-- `records[len(records)-1]`; there is no such record in an empty slice, and the index panics.
abbrev pub last_pointer : List ℕ → Option ℕ
last_pointer [] = none
last_pointer (p ∷ ps) = some (last_or p ps)

abbrev pub last_record : {R : Type 0} → EventLog R → List ℕ → Option R
last_record log ptrs = elim (last_pointer ptrs) [ none ↦ none | some p ↦ deref log p ]

-- What a call of `ProcessAzureLogFile` leaves: the log file, the error that it returns, whether
-- the log file went to the channel, what it wrote, and what it added to `processedFlowCount`.
pub record Processed (R : Type 0) (W : Type 0) : Type 0 where
  pub log_file : LogFile R
  pub error : Option Error
  pub sent : Bool
  pub written : W
  pub counted : ℕ

-- The fields that both clients set at their end.
abbrev pub mark_processed :
    {R : Type 0} → LogFile R → EventLog R → Time → ℕ → Time → BlobRange → LogFile R
mark_processed f log now count last span = record f {
  event_log = some log;
  last_processed = now;
  last_record_count = count;
  last_processed_record = last;
  last_processed_range = span;
}
