-- ===== src/Client/Agree.antt =====
-- What the file client (parser/file_client.go) and the syslog client (parser/cef.go) have in common.
use nsg_parser.Client.Collect.{copies, events_of}
use nsg_parser.Client.Loads.{Loads}
use nsg_parser.Client.Syslog.{CefSyslogClient}
use nsg_parser.Client.File.{FileClient, FileWrite, out_file_name}
use nsg_parser.Cef.{CefEvent, GetCefEventListOptions}
use nsg_parser.FileName.{name_tokens}
use nsg_parser.Time.{Time, to_unix}
use nsg_parser.LogFile.{
  EventRecord, EventLog, LogFile, Source, get_records, get_unprocessed_blob_range,
}
use nsg_parser.Client.{mark_processed}
use nsg_parser.Prelude.{ℕ, ◌≡◌, Option, some, List, [], ◌∷◌, length, last_or, Text}
use nsg_parser.Client.File
use nsg_parser.Client.Syslog

module _ {R : Type 0} ⦃e : EventRecord R⦄ (source : Source R) (syslog : CefSyslogClient)
    (format_time : Time → Text) (marshal : List CefEvent → Option (List ℕ)) (client : FileClient)
    (now : Time) (f g : LogFile R) (log : EventLog R) (r : R) (rs : List R)
    (loads : Loads source f r rs g log) where
  abbrev pub options : GetCefEventListOptions
  options = record { start_time = g.last_processed_record }

  -- The events of the payload.
  abbrev pub events : List CefEvent
  events = copies (length log.records) (events_of (last_or r rs) options)

  module _ (x : CefEvent) (xs : List CefEvent) (some_event : events ≡ x ∷ xs) (n y m d h mi : Text)
      (named : name_tokens g.blob.name ≡ some (n ∷ y ∷ m ∷ d ∷ h ∷ mi ∷ [])) (bytes : List ℕ)
      (marshalled : marshal (x ∷ xs) ≡ some bytes) where
    -- The log file as both leave it, but for the time stamp of its last event.
    abbrev marked : LogFile R → EventLog R → Time → LogFile R
    marked h out last =
        mark_processed h out now (length (get_records log).1) last (get_unprocessed_blob_range f)

    abbrev written_file : FileWrite
    written_file = record {
      folder = client.data_path;
      file_name = out_file_name n y m d h mi (to_unix x.time) (to_unix (last_or x xs).time);
      content = bytes;
    }
