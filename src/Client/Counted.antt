-- ===== src/Client/Counted.antt =====
-- What the syslog client (parser/cef.go) adds to the counter of events. The file client
-- (parser/file_client.go) adds nothing.
use nsg_parser.Cef.Syslog.{syslog_text}
use nsg_parser.Cef.{CefEvent}
use nsg_parser.Outcome.{Outcome, panicked, exited, >>=-eq-returned}
use nsg_parser.Time.{Time}
use nsg_parser.LogFile.{
  EventRecord, BlobRange, EventLog, LogFile, Source, get_unprocessed_blob_range,
}
use nsg_parser.Client.{Extract, extract, last_record, Processed, load_failed, extracted, returned}
use nsg_parser.Client.Syslog.{
  CefSyslogClient, send_all, send_all_initialized, finish_syslog, process_extract,
  process_azure_log_file,
}
use nsg_parser.Prelude.{
  ℕ, ◌≡◌, ◌≢◌, refl, ap, sym, ◌∙◌, subst, true, Option, none, some, List, length, length-map, Text,
}

panicked_ne : {A : Type 0} (a : A) → panicked ≢ returned a
panicked_ne a e = cc

module _ {R : Type 0} ⦃e : EventRecord R⦄ (source : Source R) (client : CefSyslogClient)
    (format_time : Time → Text) (now : Time) (init : client.initialized ≡ true) where
  abbrev pub Counted : Processed R (List Text) → Type 0
  Counted p = p.counted ≡ length p.written

  sent_length :
      (events : List CefEvent) → length events ≡ length (send_all client format_time events)
  sent_length events = sym (
      ap length (send_all_initialized source client format_time now events init)
      ∙ length-map (syslog_text format_time) events)

  abbrev CountedIf : Outcome (Processed R (List Text)) → Type 0
  CountedIf (returned p) = Counted p
  CountedIf panicked = Unit
  CountedIf exited = Unit

  finish_syslog-Counted :
      (span : BlobRange) (f : LogFile R) (log : EventLog R) (ptrs : List ℕ) (events : List CefEvent)
      (o : Option R) (p : Processed R (List Text))
      → finish_syslog source client format_time now span f log ptrs events o ≡ returned p
      → Counted p
  finish_syslog-Counted span f log ptrs events none p h = absurd (panicked_ne p h)
  finish_syslog-Counted span f log ptrs events (some last) p h =
      subst CountedIf h (sent_length events)

  process_extract-Counted :
      (span : BlobRange) (x : Extract R) (p : Processed R (List Text))
      → process_extract source client format_time now span x ≡ returned p
      → Counted p
  process_extract-Counted span (load_failed f err) p h = subst CountedIf h refl
  process_extract-Counted span (extracted f log ptrs events) p h =
      finish_syslog-Counted span f log ptrs events (last_record log ptrs) p h

  -- An initialized syslog client that returns has counted as many events as it has written
  -- messages, whether the load succeeds or not.
  pub process_azure_log_file-Counted :
      (f : LogFile R) (p : Processed R (List Text))
      → process_azure_log_file source client format_time now f ≡ returned p
      → Counted p
  unfolding process_azure_log_file
  process_azure_log_file-Counted f p h =
      let (x, ok, rest) =
        >>=-eq-returned (extract source f (get_unprocessed_blob_range f))
          (process_extract source client format_time now (get_unprocessed_blob_range f)) h in
      process_extract-Counted (get_unprocessed_blob_range f) x p rest
