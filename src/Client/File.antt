-- ===== src/Client/File.antt =====
-- `FileClient.ProcessAzureLogFile` of parser/file_client.go.
use nsg_parser.Prelude.Int.{ℤ, format_ℤ}
use nsg_parser.Client.Loads.{Loads}
use nsg_parser.Client.Collect.{copies, events_of, collect_last, copies-nil}
use nsg_parser.FileName.{Error, name_tokens, bad_blob_name, bad_events}
use nsg_parser.Outcome.{Outcome, ◌>>=◌, panicked}
use nsg_parser.Time.{Time, to_unix}
use nsg_parser.LogFile.{
  EventRecord, BlobRange, EventLog, LogFile, get_unprocessed_blob_range, get_records, Source,
}
use nsg_parser.Cef.{CefEvent, GetCefEventListOptions}
use nsg_parser.Regex.{Captures}
use nsg_parser.Prelude.{
  ℕ, ◌≡◌, refl, ap, ◌∙◌, true, false, Option, none, some, List, [], ◌∷◌, ◌++◌, length, last_or,
  Text, codes,
}
use nsg_parser.Client.{
  Extract, extract, last_record, Processed, mark_processed, load_failed, extracted, returned,
}

pub record FileClient : Type 0 where
  pub data_path : Text

-- The folder, the file's name and its content.
pub record FileWrite : Type 0 where
  pub folder : Text
  pub file_name : Text
  pub content : List ℕ

-- "nsgLog-%s-%s%s%s%s%s", then "%s-%d-%d.json".
unfoldable pub out_file_name : Text → Text → Text → Text → Text → Text → ℤ → ℤ → Text
out_file_name n y m d h mi first last =
    codes "nsgLog-"
    ++ (n
        ++ (b'-'
            ∷ (y
                ++ (m
                    ++ (d
                        ++ (h
                            ++ (mi
                                ++ (b'-'
                                    ∷ (format_ℤ first
                                        ++ (b'-' ∷ (format_ℤ last ++ codes ".json")))))))))))

-- Seven tokens are the match and six groups.
abbrev pub file_name_of : Option Captures → ℤ → ℤ → Option Text
file_name_of (some (n ∷ y ∷ m ∷ d ∷ h ∷ mi ∷ [])) first last =
    some (out_file_name n y m d h mi first last)
file_name_of _ first last = none

module _ {R : Type 0} ⦃e : EventRecord R⦄ (source : Source R)
    (marshal : List CefEvent → Option (List ℕ)) (client : FileClient) (now : Time) where
  abbrev pub failed_file : LogFile R → Error → Outcome (Processed R (List FileWrite))
  failed_file f err =
      returned (record { log_file = f; error = some err; sent = false; written = []; counted = 0 })

  -- The error of the write is not looked at: the log file goes to the channel all the same.
  abbrev pub write_events :
      BlobRange
      → LogFile R
      → EventLog R
      → List ℕ
      → Text
      → Option (List ℕ)
      → Outcome (Processed R (List FileWrite))
  write_events span f log ptrs file_name none =
      failed_file (record f { event_log = some log }) bad_events
  write_events span f log ptrs file_name (some bytes) = elim (last_record log ptrs) [
    | none ↦ panicked
    | some last ↦ returned (record {
      log_file = mark_processed f log now (length ptrs) (e.get_time last) span;
      error = none;
      sent = true;
      written = record { folder = client.data_path; file_name = file_name; content = bytes } ∷ [];
      counted = 0;
    })
  ]

  abbrev pub name_events :
      BlobRange
      → LogFile R
      → EventLog R
      → List ℕ
      → List CefEvent
      → Option Text
      → Outcome (Processed R (List FileWrite))
  name_events span f log ptrs events none =
      failed_file (record f { event_log = some log }) bad_blob_name
  name_events span f log ptrs events (some file_name) =
      write_events span f log ptrs file_name (marshal events)

  -- Without events the call returns at once, and nothing goes to the channel.
  abbrev pub finish_file :
      BlobRange
      → LogFile R
      → EventLog R
      → List ℕ
      → List CefEvent
      → Outcome (Processed R (List FileWrite))
  finish_file span f log ptrs [] = returned (record {
    log_file = record f { event_log = some log };
    error = none;
    sent = false;
    written = [];
    counted = 0;
  })
  finish_file span f log ptrs (event ∷ events) = name_events span f log ptrs (event ∷ events) (
      file_name_of (name_tokens f.blob.name) (to_unix event.time)
        (to_unix (last_or event events).time))

  abbrev pub process_extract : BlobRange → Extract R → Outcome (Processed R (List FileWrite))
  process_extract span (load_failed f err) = failed_file f err
  process_extract span (extracted f log ptrs events) = finish_file span f log ptrs events

  unfoldable pub process_azure_log_file : LogFile R → Outcome (Processed R (List FileWrite))
  process_azure_log_file f = do
    let span = get_unprocessed_blob_range f
    x ← extract source f span
    process_extract span x

  finish_file_unsent :
      (span : BlobRange) (f : LogFile R) (log : EventLog R) (ptrs : List ℕ) (events : List CefEvent)
      → events ≡ []
      → finish_file span f log ptrs events
        ≡ returned (record {
          log_file = record f { event_log = some log };
          error = none;
          sent = false;
          written = [];
          counted = 0;
        })
  finish_file_unsent span f log ptrs [] h = refl
  finish_file_unsent span f log ptrs (x ∷ events) h = cc

  -- When a payload is loaded whose last record gives no event, the file client succeeds, writes
  -- nothing and sends nothing to the channel, and the range and the last record stay where they
  -- were.
  pub process_azure_log_file_no_events :
      (f g : LogFile R) (log : EventLog R) (r : R) (rs : List R)
      → Loads source f r rs g log
      → events_of (last_or r rs) (record { start_time = g.last_processed_record }) ≡ []
      → (p : Processed R (List FileWrite)) × (process_azure_log_file f ≡ returned p)
        × (p.error ≡ none)
        × (p.sent ≡ false)
        × (p.written ≡ [])
        × (p.log_file.last_processed_range ≡ g.last_processed_range)
        × (p.log_file.last_processed_record ≡ g.last_processed_record)
  unfolding process_azure_log_file extract
  process_azure_log_file_no_events f g log r rs l h =
      let o : GetCefEventListOptions = record { start_time = g.last_processed_record } in
      let (out, s, q, d, t) = collect_last o log r rs l.fresh l.records_are in
      let none_left : copies (length log.records) (events_of (last_or r rs) o) ≡ [] =
        ap (copies (length log.records)) h ∙ copies-nil (length log.records) in
      (
        record {
          log_file = record g { event_log = some out };
          error = none;
          sent = false;
          written = [];
          counted = 0;
        },
        rw (l.loaded, l.has_log)
            (rw q (
              finish_file_unsent (get_unprocessed_blob_range f) g out (get_records log).1 _
                none_left)),
        refl,
        refl,
        refl,
        refl,
        refl,
      )
