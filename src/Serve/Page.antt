-- ===== src/Serve/Page.antt =====
-- What the status page shows between two polls.
use nsg_parser.Job.Saved.{Storage}
use nsg_parser.Job.Stored.{Saves}
use nsg_parser.Prelude.Int.{ℤ}
use nsg_parser.Outcome.{Outcome, returned}
use nsg_parser.Time.{Time}
use nsg_parser.Serve.{Build, Response, NsgParserStatus, respond, load_status, get_process_status}
use nsg_parser.LogFile.{Blob}
use nsg_parser.Azure.{AzureClient, Polled, lookup_job, Listing, process_blobs_after}
use nsg_parser.Job.{Job, Services, complete}
use nsg_parser.Prelude.{ℕ, ◌≡◌, refl, ◌⊎◌, inl, inr, some, List, [], ◌∷◌, ◌++◌, All, Text, codes}
use nsg_parser.Azure.Polls.{Connected, Watched, LoadsStorable, poll-Settles, poll_selection}

-- The answer to a request, by the JSON or the error of its making.
abbrev pub Answers : Outcome Response → List ℕ ⊎ List ℕ → Type 0
Answers answer (inr js) =
    answer
    ≡ returned (record { status_code = 200; content_type = codes "application/json"; body = js })
Answers answer (inl error) =
    answer
    ≡ returned (record {
      status_code = 500;
      content_type = codes "text/plain; charset=utf-8";
      body = error ++ b'\n' ∷ [];
    })

respond-Answers : (made : List ℕ ⊎ List ℕ) → Answers (returned (respond made)) made
respond-Answers (inr js) = refl
respond-Answers (inl error) = refl

module _ {R W Files Bytes : Type 0} (services : Services R W Files Bytes) (listing : Listing)
    (job_name : Text) (after_time : Time) (container : Text) (bs : List Blob) where
  -- After a poll over a container whose listing stays, in which each selected task returns and
  -- sends its log file, with the name and the time of modification unchanged, to the channel, the
  -- value that the status page marshals holds the job of the poll under its name, complete, and the
  -- counter of events. Where its JSON is made the answer is that JSON with the code 200, and where
  -- it is not the answer is the error with the code 500. A file is taken to be read back as it was
  -- written, and the JSON of a status whose times have years of four digits, as those of the
  -- entries that are loaded and sent, with the same entries and instants.
  pub get_process_status-poll :
      (build : Build) (count : ℤ) (marshal : NsgParserStatus R → List ℕ ⊎ List ℕ)
      (client : AzureClient R) (files : Files)
      → Connected client container
      → Storage services
      → Watched services listing job_name after_time container bs client
      → LoadsStorable services listing job_name after_time container bs client files
      → All
          (Saves services)
          (poll_selection services listing job_name after_time container bs client files)
      → (p : Polled R W Files) × (status : NsgParserStatus R) × (j : Job R) × (process_blobs_after
            services listing client files after_time job_name
          ≡ returned p)
        × Answers (get_process_status marshal build (some p.client) count) (marshal status)
        × (lookup_job status.jobs job_name ≡ some j)
        × (j.status ≡ complete)
        × (status.processed_flow_count ≡ count)
  unfolding get_process_status load_status
  get_process_status-poll build count marshal client files c s w fits ok =
      let (p, t) =
        poll-Settles services listing job_name after_time container bs client files c s w fits ok in
      let (j, shown, done, no_files) = t.job_done in
      let status : NsgParserStatus R = record {
        build = build;
        jobs = p.client.registered_jobs;
        processed_flow_count = count;
      } in
      (p, status, j, t.returns, respond-Answers (marshal status), shown, done, refl)
