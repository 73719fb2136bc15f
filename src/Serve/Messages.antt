-- ===== src/Serve/Messages.antt =====
-- The counter on the status page beside a daemon that sends to syslog (parser/serve.go, parser/cef.go).
use nsg_parser.Client.Counted.{process_azure_log_file-Counted}
use nsg_parser.Client.Syslog
use nsg_parser.Client.Syslog.{CefSyslogClient}
use nsg_parser.Prelude.Int.{ℤ, pos}
use nsg_parser.Outcome.{returned}
use nsg_parser.Time.{Time}
use nsg_parser.LogFile.{EventRecord, Source}
use nsg_parser.Azure.{AzureClient, Listing}
use nsg_parser.Job.{Services}
use nsg_parser.Process.{Done, started}
use nsg_parser.Process.Counter.{Counts, daemon_rounds-Tallied}
use nsg_parser.Serve.{Build, NsgParserStatus, Response, respond}
use nsg_parser.Serve.Schedule.{Serving, Reach, beginning, rounds, Shown, Reach-rounds}
use nsg_parser.Prelude.{ℕ, ◌≡◌, refl, ap, ◌∙◌, ◌⊎◌, Bool, true, List, [], ◌∷◌, Text, All, length}

module _ {R Files Bytes : Type 0} ⦃e : EventRecord R⦄ (source : Source R) (client : CefSyslogClient)
    (format_time : Time → Text) (now : Time) (init : client.initialized ≡ true)
    (services : Services R Text Files Bytes) (listing : Listing)
    (marshal : NsgParserStatus R → List ℕ ⊎ List ℕ) (build : Build) (serve_http listens : Bool)
    (interval : ℤ) (begin_time job_name : Text) (azure : AzureClient R) (files : Files) where
  -- The services of a process that sends to syslog.
  abbrev pub to_syslog : Services R Text Files Bytes
  to_syslog = record services {
    process_azure_log_file = Syslog.process_azure_log_file source client format_time now;
  }

  to_syslog-Counts : Counts to_syslog
  to_syslog-Counts = record {
    counted = process_azure_log_file-Counted source client format_time now init;
  }

  abbrev pub first : Done R Text Files
  first = started azure files

  abbrev pub RoundsTo : ℕ → Done R Text Files → Type 0
  RoundsTo n d =
      rounds to_syslog listing marshal build serve_http listens interval begin_time job_name n first
      ≡ returned d

  -- An answer whose counter is the number of the messages that some of the rounds have written.
  abbrev pub ShowsMessages : Response → Type 0
  ShowsMessages r =
      (n : ℕ) × (d : Done R Text Files) × RoundsTo n d
      × (r
          ≡ respond (
              marshal (record {
                build = build;
                jobs = d.client.registered_jobs;
                processed_flow_count = pos (length d.written);
              })))

  tallied : (n : ℕ) (d : Done R Text Files) → RoundsTo n d → d.counted ≡ length d.written
  tallied n d h =
      daemon_rounds-Tallied to_syslog to_syslog-Counts listing n interval begin_time job_name first
        d refl h

  shows :
      (answers : List Response)
      → All
          (Shown to_syslog listing marshal build serve_http listens interval begin_time job_name
            first)
          answers
      → All ShowsMessages answers
  shows [] h = tt
  shows (r ∷ answers) ((n, d, after, page), rest) = (
    (
      n,
      d,
      after,
      page
          ∙ ap
              (λ (count : ℕ). respond (
                marshal (record {
                  build = build;
                  jobs = d.client.registered_jobs;
                  processed_flow_count = pos count;
                })))
              (tallied n d after),
    ),
    shows answers rest,
  )

  -- Where a daemon sends to an initialized syslog client, in every order of its polls, the
  -- statements of ServeClient and the requests between the polls, the polls have come as far as
  -- some number of rounds, with a counter that is the number of the messages that were written,
  -- whichever tasks fail; and each such request is answered with the jobs and the number of the
  -- messages after some number of rounds.
  pub Reach-messages :
      {s : Serving R Text Files}
      → Reach to_syslog listing marshal build serve_http listens interval begin_time job_name
          (beginning to_syslog listing marshal build serve_http listens interval begin_time job_name
            first)
          s
      → (n : ℕ) × RoundsTo n s.polls
        × (s.polls.counted ≡ length s.polls.written)
        × All ShowsMessages s.answers
  Reach-messages {s} r =
      let (n, after, shown, answers_now) =
        Reach-rounds to_syslog listing marshal build serve_http listens interval begin_time job_name
          first r in
      (n, after, tallied n s.polls after, shows s.answers shown)
