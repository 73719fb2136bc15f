-- ===== src/Client/Syslog.antt =====
-- `CEFSyslogClient` of parser/cef.go: sending events, and `ProcessAzureLogFile`.
use nsg_parser.Cef.Syslog.{syslog_text}
use nsg_parser.Client.Loads.{Loads}
use nsg_parser.Prelude.Int.{ℤ}
use nsg_parser.Client.Collect.{copies, events_of, collect_last}
use nsg_parser.LogFile.Records.{get_records_last}
use nsg_parser.FileName.{Error, uninitialized_client}
use nsg_parser.Outcome.{Outcome, ◌>>=◌, panicked}
use nsg_parser.Time.{Time, to_unix}
use nsg_parser.LogFile.{
  EventRecord, BlobRange, EventLog, LogFile, get_unprocessed_blob_range, get_records, Source,
}
use nsg_parser.Cef.{CefEvent, GetCefEventListOptions}
use nsg_parser.Prelude.{
  ℕ, ◌≡◌, refl, ap, ◌∙◌, Bool, true, false, not, Option, none, some, List, [], ◌∷◌, ◌++◌,
  if◌then◌else◌, length, last_or, length-replicate, map, Text,
}
use nsg_parser.Client.{
  Extract, extract, last_record, Processed, mark_processed, load_failed, extracted, returned,
}

pub record CefSyslogClient : Type 0 where
  pub initialized : Bool

-- `SendEvent`: the error, and what goes to the writer. The result of the write is not looked at.
abbrev pub send_event : CefSyslogClient → (Time → Text) → CefEvent → Option Error × List Text
send_event client format_time event =
    if not client.initialized
    then (some uninitialized_client, [])
    else (none, syslog_text format_time event ∷ [])

-- The loop that sends drops the errors.
abbrev pub send_all : CefSyslogClient → (Time → Text) → List CefEvent → List Text
send_all client format_time [] = []
send_all client format_time (event ∷ events) =
    (send_event client format_time event).1 ++ send_all client format_time events

-- The time of the last event, or of the last record where no event was extracted.
abbrev pub end_time_stamp : ℤ → List CefEvent → ℤ
end_time_stamp stamp [] = stamp
end_time_stamp stamp (event ∷ events) = to_unix (last_or event events).time

module _ {R : Type 0} ⦃e : EventRecord R⦄ (source : Source R) (client : CefSyslogClient)
    (format_time : Time → Text) (now : Time) where
  abbrev pub finish_syslog :
      BlobRange
      → LogFile R
      → EventLog R
      → List ℕ
      → List CefEvent
      → Option R
      → Outcome (Processed R (List Text))
  finish_syslog span f log ptrs events none = panicked
  finish_syslog span f log ptrs events (some last) = returned (record {
    log_file =
        mark_processed
          (record f {
            last_processed_time_stamp = end_time_stamp (to_unix (e.get_time last)) events;
          })
          log now (length ptrs) (e.get_time last) span;
    error = none;
    sent = true;
    written = send_all client format_time events;
    counted = length events;
  })

  abbrev pub process_extract : BlobRange → Extract R → Outcome (Processed R (List Text))
  process_extract span (load_failed f err) =
      returned (record { log_file = f; error = some err; sent = false; written = []; counted = 0 })
  process_extract span (extracted f log ptrs events) =
      finish_syslog span f log ptrs events (last_record log ptrs)

  unfoldable pub process_azure_log_file : LogFile R → Outcome (Processed R (List Text))
  process_azure_log_file f = do
    let span = get_unprocessed_blob_range f
    x ← extract source f span
    process_extract span x

  pub send_all_initialized :
      (events : List CefEvent)
      → client.initialized ≡ true
      → send_all client format_time events ≡ map (syslog_text format_time) events
  send_all_initialized [] h = refl
  send_all_initialized (event ∷ events) h = rw h (rw (send_all_initialized events h))

  -- When a payload of n records is loaded, an initialized syslog client returns without an error,
  -- has written the texts of the events of the last record n times and those of no other record,
  -- sends the log file to the channel, and records the time of the last record, n, the range and
  -- the time of processing, with the name, the time of modification and the log time that the load
  -- left.
  pub process_azure_log_file_loaded :
      (f g : LogFile R) (log : EventLog R) (r : R) (rs : List R)
      → Loads source f r rs g log
      → client.initialized ≡ true
      → (p : Processed R (List Text)) × (process_azure_log_file f ≡ returned p)
        × (p.sent ≡ true)
        × (p.error ≡ none)
        × (p.written
            ≡ map (syslog_text format_time) (
                copies
                  (length log.records)
                  (events_of (last_or r rs) (record { start_time = g.last_processed_record }))))
        × (p.log_file.last_processed_record ≡ e.get_time (last_or r rs))
        × (p.log_file.last_record_count ≡ length log.records)
        × (p.log_file.last_processed_range ≡ get_unprocessed_blob_range f)
        × (p.log_file.last_processed ≡ now)
        × (p.log_file.name ≡ g.name)
        × (p.log_file.last_modified ≡ g.last_modified)
        × (p.log_file.log_time ≡ g.log_time)
  unfolding process_azure_log_file extract
  process_azure_log_file_loaded f g log r rs l init =
      let o : GetCefEventListOptions = record { start_time = g.last_processed_record } in
      let (out, s, q, d, t) = collect_last o log r rs l.fresh l.records_are in
      let events = copies (length log.records) (events_of (last_or r rs) o) in
      let ptrs = get_records_last log r rs l.fresh l.records_are in
      (
        record {
          log_file =
              mark_processed
                (record g {
                  last_processed_time_stamp = end_time_stamp (to_unix (e.get_time s)) events;
                })
                out now (length (get_records log).1) (e.get_time s) (get_unprocessed_blob_range f);
          error = none;
          sent = true;
          written = send_all client format_time events;
          counted = length events;
        },
        rw (l.loaded, l.has_log) (rw q (rw d)),
        refl,
        refl,
        send_all_initialized events init,
        t,
        ap length ptrs.0 ∙ length-replicate (length log.records) (length log.cells),
        refl,
        refl,
        refl,
        refl,
        refl,
      )
