-- ===== src/Job/Clients.antt =====
-- What the syslog client leaves for the next run of a job.

use nsg_parser.Client.Syslog.{CefSyslogClient, process_azure_log_file_loaded}
use nsg_parser.LogFile.Ranges.{load_blob_range-SameFile, get_unprocessed_blob_range-start}
use nsg_parser.Outcome.{returned}
use nsg_parser.Status.{create_process_status_from_logfile}
use nsg_parser.Time.{Time}
use nsg_parser.Client.{Processed}
use nsg_parser.LogFile.{
  EventRecord, EventLog, LogFile, uint64_of, get_unprocessed_blob_range, Source,
}
use nsg_parser.Job.{carry_over, run}
use nsg_parser.Job.Stored.{IsJsonTime, IsStorable}
use nsg_parser.Prelude.{◌≡◌, ap, ◌∙◌, true, none, List, Text, last_or}
use nsg_parser.Client.Syslog
use nsg_parser.Client.Loads.{Loads}
use nsg_parser.LogFile.Ranges.{load_blob_range-SameFile, get_unprocessed_blob_range-start}

module _ {R : Type 0} ⦃e : EventRecord R⦄ (source : Source R) (client : CefSyslogClient)
    (format_time : Time → Text) (now : Time) where
  -- When an initialized syslog client has processed the loaded payload of a log file, the range
  -- that is read next, from the status carried over to a later listing of the blob, starts at the
  -- length that the blob had and stops at the length that it has then.
  pub process_azure_log_file-next_range :
      (f g later : LogFile R) (log : EventLog R) (r : R) (rs : List R)
      → Loads source f r rs g log
      → client.initialized ≡ true
      → (p : Processed R (List Text)) × (Syslog.process_azure_log_file source client format_time now
            f
          ≡ returned p)
        × (get_unprocessed_blob_range
              (carry_over later (create_process_status_from_logfile p.log_file))
            ≡ record {
              start = uint64_of f.blob.content_length;
              stop = uint64_of later.blob.content_length;
            })
  process_azure_log_file-next_range f g later log r rs l init =
      let (p, run, sent, error, written, record_is, count, range_is, _, _, _, _) =
        Syslog.process_azure_log_file_loaded source client format_time now f g log r rs l init in
      (
        p,
        run,
        get_unprocessed_blob_range-start
              (carry_over later (create_process_status_from_logfile p.log_file))
            ∙ ap (λ s. record { start = s.stop; stop = uint64_of later.blob.content_length })
                (range_is ∙ get_unprocessed_blob_range-start f),
      )

  -- A payload with records makes the syslog client deliver: the log file goes to the channel, with the name
  -- and the time of modification that it had.
  pub process_azure_log_file-Delivers :
      (f g : LogFile R) (log : EventLog R) (r : R) (rs : List R)
      → Loads source f r rs g log
      → client.initialized ≡ true
      → (p : Processed R (List Text)) × (Syslog.process_azure_log_file source client format_time now
            f
          ≡ returned p)
        × (p.sent ≡ true)
        × (p.log_file.name ≡ f.name)
        × (p.log_file.last_modified ≡ f.last_modified)
  process_azure_log_file-Delivers f g log r rs l init =
      let same = load_blob_range-SameFile source f g (get_unprocessed_blob_range f) none l.loaded in
      let (p, run, sent, _, _, _, _, _, _, name, modified, _) =
        Syslog.process_azure_log_file_loaded source client format_time now f g log r rs l init in
      (p, run, sent, name ∙ same.name_same, modified ∙ same.modified_same)

  -- The entry of such a log file can be written, if its times and that of the last record can.
  pub process_azure_log_file-IsStorable :
      (f g : LogFile R) (log : EventLog R) (r : R) (rs : List R)
      → Loads source f r rs g log
      → client.initialized ≡ true
      → IsJsonTime f.last_modified
      → IsJsonTime now
      → IsJsonTime (e.get_time (last_or r rs))
      → IsJsonTime f.log_time
      → (d : (p : Processed R (List Text)) × (Syslog.process_azure_log_file source client
              format_time now f
            ≡ returned p)
          × (p.sent ≡ true)
          × (p.log_file.name ≡ f.name)
          × (p.log_file.last_modified ≡ f.last_modified))
        × IsStorable (create_process_status_from_logfile d.0.log_file)
  process_azure_log_file-IsStorable f g log r rs l init modified_fits now_fits record_fits
        log_fits =
      let same = load_blob_range-SameFile source f g (get_unprocessed_blob_range f) none l.loaded in
      let (p, run, sent, _, _, record_is, _, _, now_is, name, modified, log_time) =
        Syslog.process_azure_log_file_loaded source client format_time now f g log r rs l init in
      (
        (p, run, sent, name ∙ same.name_same, modified ∙ same.modified_same),
        record {
          modified_fits = rw (modified, same.modified_same) modified_fits;
          processed_fits = rw now_is now_fits;
          record_fits = rw record_is record_fits;
          log_time_fits = rw (log_time, same.log_time_same) log_fits;
        },
      )
