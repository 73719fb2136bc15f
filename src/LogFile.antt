-- ===== src/LogFile.antt =====
-- parser/client.go's interfaces and parser/event_log_file.go: the log file, the event log with the
-- slice of record pointers that it builds, the ranges of the blob, loading. One definition serves
-- each type of record `R`, as one interface serves each type of log file.
pub mod Records
pub mod Ranges
pub mod Kinds
pub mod Interface
use nsg_parser.Prelude.Int.{ℤ, pos, negsuc}
use nsg_parser.Nsg.Flow.{Conversion, nothing}
use nsg_parser.FileName.{
  Error, get_logged_resource_name, get_log_time_from_name, no_time_field, bad_payload,
}
use nsg_parser.Outcome.{Outcome, returned, exited}
use nsg_parser.Time.{Time, zero_time, after}
use nsg_parser.Cef.{GetCefEventListOptions}
use nsg_parser.Prelude.{
  ℕ, ◌-◌, ◌^◌, ◌≡◌, Bool, true, false, not, ◌&&◌, Option, none, some, List, [], ◌∷◌, ◌++◌, ◌==◌,
  if◌then◌else◌, length, get_elem?, set, Text, codes,
}

-- What the log file uses of `AzureEventRecord`, with what an implementation owes: a call of
-- `GetCEFList` returns, leaves the record as `ready` does, keeps its time, and finds nothing in a
-- record that is not later than the start time.
pub record EventRecord (R : Type 0) : Type 0 where
  pub get_time : R → Time
  pub ready : R → R
  pub cef_list : R → GetCefEventListOptions → Outcome (R × Conversion)
  pub cef_list_total :
      (r : R) (o : GetCefEventListOptions)
      → (c : Conversion) × (cef_list r o ≡ returned (ready r, c))
  pub cef_list_early :
      (r : R) (o : GetCefEventListOptions)
      → after (get_time r) o.start_time ≡ false
      → cef_list r o ≡ returned (ready r, nothing)
  pub cef_list-ready : (r : R) (o : GetCefEventListOptions) → cef_list (ready r) o ≡ cef_list r o
  pub time_ready : (r : R) → get_time (ready r) ≡ get_time r

pub record BlobRange : Type 0 where
  pub start : ℕ
  pub stop : ℕ

-- What the program reads of a `storage.Blob`; the length is an int64.
pub record Blob : Type 0 where
  pub name : Text
  pub container_name : Text
  pub etag : Text
  pub last_modified : Time
  pub content_length : ℤ

-- The decoded records, the cells of the loop variables that pointers still reach, and the slice of
-- pointers (cell numbers); `none` is the nil slice.
pub record EventLog (R : Type 0) : Type 0 where
  pub records : List R
  pub cells : List R
  pub azure_event_records : Option (List ℕ)

pub record LogFile (R : Type 0) : Type 0 where
  pub name : Text
  pub etag : Text
  pub last_modified : Time
  pub last_processed : Time
  pub last_processed_record : Time
  pub last_processed_time_stamp : ℤ
  pub last_record_count : ℕ
  pub last_processed_range : BlobRange
  pub log_time : Time
  pub blob : Blob
  pub event_log : Option (EventLog R)
  pub nsg_name : Text

-- `uint64(n)` of an int64.
abbrev pub uint64_of : ℤ → ℕ
uint64_of (pos n) = n
uint64_of (negsuc n) = 2 ^ 64 - 1 - n

abbrev pub whole_range : ℤ → BlobRange
whole_range length = record { start = 0; stop = uint64_of length }

module _ {R : Type 0} where
  unfoldable pub get_unprocessed_blob_range : LogFile R → BlobRange
  get_unprocessed_blob_range f =
      if not (f.last_processed_range.stop == 0)
      then record { start = f.last_processed_range.stop; stop = uint64_of f.blob.content_length }
      else whole_range f.blob.content_length

  -- `range` assigns each record to the one variable `v` (the cell `p`), and stores `&v`.
  unfoldable pub range_loop : ℕ → List R → List R → List ℕ → List R × List ℕ
  range_loop p [] cells ptrs = (cells, ptrs)
  range_loop p (r ∷ rs) cells ptrs = range_loop p rs (set cells p r) (ptrs ++ p ∷ [])

  -- The first round also makes the cell.
  abbrev pub fill : List R → List R → List R × List ℕ
  fill [] cells = (cells, [])
  fill (r ∷ rs) cells = range_loop (length cells) (r ∷ rs) (cells ++ r ∷ []) []

  -- `GetRecords`: the event log as the call leaves it, and the slice of pointers.
  unfoldable pub get_records : EventLog R → EventLog R × List ℕ
  unfolding range_loop
  get_records log = elim log.azure_event_records [
    | some ptrs ↦ (log, ptrs)
    | none ↦
        let (cells, ptrs) = fill log.records log.cells in
        (record log { cells = cells; azure_event_records = some ptrs }, ptrs)
  ]

  -- `*p`.
  abbrev pub deref : EventLog R → ℕ → Option R
  deref log p = get_elem? log.cells p

-- `bytes.Index(s, pattern)`, -1 as `none`.
abbrev pub has_prefix : Text → Text → Bool
has_prefix s [] = true
has_prefix [] (p ∷ ps) = false
has_prefix (c ∷ s) (p ∷ ps) = c == p && has_prefix s ps

-- The bytes from the first occurrence on.
unfoldable pub from_index : Text → Text → Option Text
from_index pattern [] = if has_prefix [] pattern then some [] else none
from_index pattern (c ∷ s) =
    if has_prefix (c ∷ s) pattern then some (c ∷ s) else from_index pattern s

-- What a log file takes from outside: the storage service's answer to a range (`none` is an
-- error), and `json.Unmarshal` into the event log, with whether it failed.
pub record Source (R : Type 0) : Type 0 where
  pub get_range : Blob → BlobRange → Option (List ℕ)
  pub unmarshal : List ℕ → Option (EventLog R) → Option (EventLog R) × Bool

module _ {R : Type 0} (source : Source R) where
  unfoldable pub load_azure_nsg_event_records : LogFile R → List ℕ → LogFile R × Option Error
  load_azure_nsg_event_records f payload =
      let (log, failed) = source.unmarshal payload f.event_log in
      (record f { event_log = log }, if failed then some bad_payload else none)

  -- The bytes in front of the first `"time"` are replaced by the head of a JSON document.
  abbrev pub load_payload : LogFile R → Option Text → LogFile R × Option Error
  load_payload f none = (f, some no_time_field)
  load_payload f (some bytes) = load_azure_nsg_event_records f (codes "{\"records\": [{ " ++ bytes)

  -- An error of the service ends the process.
  abbrev pub load_answer : LogFile R → Option (List ℕ) → Outcome (LogFile R × Option Error)
  load_answer f none = exited
  load_answer f (some bytes) = returned (load_payload f (from_index (codes "\"time\"") bytes))

  unfoldable pub load_blob_range : LogFile R → BlobRange → Outcome (LogFile R × Option Error)
  load_blob_range f span = load_answer f (source.get_range f.blob span)

  unfoldable pub load_blob : LogFile R → Outcome (LogFile R × Option Error)
  load_blob f = load_blob_range f (whole_range f.blob.content_length)

-- `NewAzureNsgLogFile`: the error of the log time is overwritten by that of the name.
unfoldable pub new_azure_nsg_log_file : {R : Type 0} → Blob → LogFile R × Option Error
new_azure_nsg_log_file blob =
    let log_time = get_log_time_from_name blob.name in
    let resource = get_logged_resource_name blob.name in
    (
      record {
        name = blob.name;
        etag = blob.etag;
        last_modified = blob.last_modified;
        last_processed = zero_time;
        last_processed_record = zero_time;
        last_processed_time_stamp = pos 0;
        last_record_count = 0;
        last_processed_range = record { start = 0; stop = 0 };
        log_time = log_time.0;
        blob = blob;
        event_log = none;
        nsg_name = resource.0;
      },
      resource.1,
    )
