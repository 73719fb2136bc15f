-- ===== src/Tests/Serving.antt =====
-- A schedule of the status server beside a daemon: its three statements, a poll, and a request.
use nsg_parser.Nsg.Record.{AzureNsgEventRecord}
use nsg_parser.Outcome.{returned}
use nsg_parser.Prelude.Int.{pos}
use nsg_parser.Process.{Done, started, process_once, after_poll, sleep_for}
use nsg_parser.Serve.{Build, NsgParserStatus, get_process_status, load_status}
use nsg_parser.Serve.Schedule.{
  Serving, Reach, beginning, stopped_server, listening, rounds, Shown, Answers, poll, assign, route,
  listen, request, here, next, Reach-rounds, assign_client, handle_func, listen_and_serve, page_of,
}
use nsg_parser.Tests.Service.{sample_services, Folder, sample-Storage}
use nsg_parser.Tests.Data.{sample_blob, two_source, sample_format, minute}
use nsg_parser.Tests.Data.{sample_client as syslog_client}
use nsg_parser.Nsg.Instance.{nsg_event_record}
use nsg_parser.Serve.Messages.{RoundsTo, ShowsMessages, Reach-messages}
use nsg_parser.Tests.Polls.{
  sample_listing, sample_container, sample_azure_client, sample-Watched, sample_begin_time,
  sample-Connected, sample_poll-LoadsStorable, sample_poll-Saves,
}
use nsg_parser.Azure.Polls.{poll-Settles}
use nsg_parser.Time.{zero_time}
use nsg_parser.Prelude.{ℕ, ◌≡◌, refl, ◌⊎◌, inr, true, none, List, [], ◌∷◌, Text, codes, All, length}

abbrev sample_build : Build
sample_build = record {
  go_version = codes "go1.8";
  version = codes "1";
  build_date = [];
  build_user = [];
  revision = [];
}

abbrev sample_marshal : NsgParserStatus AzureNsgEventRecord → List ℕ ⊎ List ℕ
sample_marshal status = inr (codes "{}")

abbrev Polls : Type 0
Polls = Done AzureNsgEventRecord Text Folder

abbrev first : Polls
first = started sample_azure_client none

poll_returns :
    (d : Polls) × (process_once sample_services sample_listing [] (codes "syslog") first
      ≡ returned d)
unfolding process_once
poll_returns =
    let (p, t) =
      poll-Settles sample_services sample_listing (codes "syslog") zero_time sample_container
        (sample_blob ∷ []) sample_azure_client none sample-Connected sample-Storage sample-Watched
        sample_poll-LoadsStorable sample_poll-Saves in
    (after_poll sample_services sample_listing first p, rw (sample_begin_time, t.returns) refl)

abbrev Schedule : Serving AzureNsgEventRecord Text Folder → Type 0
Schedule =
    Reach sample_services sample_listing sample_marshal sample_build true true (pos 60) []
      (codes "syslog")
      (beginning sample_services sample_listing sample_marshal sample_build true true (pos 60) []
        (codes "syslog") first)

abbrev sample_end : Serving AzureNsgEventRecord Text Folder
sample_end = record {
  polls = sleep_for sample_services sample_listing (pos 60) poll_returns.0;
  server = listen_and_serve true (handle_func (assign_client stopped_server));
  answers =
      page_of sample_services sample_listing sample_marshal sample_build true true (pos 60) []
        (codes "syslog") first
      ∷ [];
}

-- A request between the start of the server and the end of the first poll.
sample-Schedule : Schedule sample_end
unfolding get_process_status load_status
sample-Schedule =
    next
      (next (next (next (next here (assign refl refl)) (route refl)) (listen refl))
        (request refl refl))
      (poll poll_returns.1)

Reach-rounds_example :
    (n : ℕ) × (rounds sample_services sample_listing sample_marshal sample_build true true
        (pos 60)
        []
        (codes "syslog")
        n
        first
      ≡ returned sample_end.polls)
    × All
        (Shown sample_services sample_listing sample_marshal sample_build true true
          (pos 60)
          []
          (codes "syslog")
          first)
        sample_end.answers
    × Answers sample_services sample_listing sample_marshal sample_build true true
        (pos 60)
        []
        (codes "syslog")
        first
        listening
        sample_end
Reach-rounds_example =
    Reach-rounds sample_services sample_listing sample_marshal sample_build true true (pos 60) []
      (codes "syslog") first sample-Schedule

Reach-messages_example :
    (n : ℕ) × RoundsTo two_source syslog_client sample_format
      (minute 9)
      refl
      sample_services
      sample_listing
      sample_marshal
      sample_build
      true
      true
      (pos 60)
      []
      (codes "syslog")
      sample_azure_client
      none
      n
      sample_end.polls
    × (sample_end.polls.counted ≡ length sample_end.polls.written)
    × All
        (ShowsMessages two_source syslog_client sample_format
          (minute 9)
          refl
          sample_services
          sample_listing
          sample_marshal
          sample_build
          true
          true
          (pos 60)
          []
          (codes "syslog")
          sample_azure_client
          none)
        sample_end.answers
Reach-messages_example =
    Reach-messages two_source syslog_client sample_format (minute 9) refl sample_services
      sample_listing sample_marshal sample_build true true (pos 60) [] (codes "syslog")
      sample_azure_client none sample-Schedule
