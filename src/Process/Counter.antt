-- ===== src/Process/Counter.antt =====
-- The counter of events that the status page shows: `processedFlowCount` of parser/client.go.
use nsg_parser.Prelude.Int.{ℤ}
use nsg_parser.Dict.{Dict}
use nsg_parser.FileName.{Error, no_job}
use nsg_parser.Outcome.{◌>>=◌, returned, panicked, >>=-eq-returned, returned-injective}
use nsg_parser.Time.{Time}
use nsg_parser.LogFile.{LogFile, Blob}
use nsg_parser.Client.{Processed}
use nsg_parser.Azure.{
  AzureClient, Listing, Polled, listing_services, lookup_job, register_job, finish_job, run_found,
  get_blobs_by_prefix, polling_job, empty_run, process_blobs_after, register_in, with_jobs,
}
use nsg_parser.Job.{
  Job, Services, Ran, run_tasks, after_task, run, complete_job, load_tasks,
  load_unprocessed_log_files, load_process_status, running,
}
use nsg_parser.Process.{Done, process_once, after_poll, daemon_rounds, sleep_for}
use nsg_parser.Process.BeginTime.{begin_time_of}
use nsg_parser.Prelude.{
  ℕ, zero, suc, ◌≡◌, ◌≢◌, refl, ap, sym, true, Option, none, some, List, [], ◌∷◌, Text, length,
  length-append, Bool-cases, inl, inr,
}
use nsg_parser.Azure
use nsg_parser.Job
use nsg_parser.Job.{run_pool}
use nsg_parser.Job.Runs.{run_closed_tasks-ne}

-- A client adds to the counter what it writes.
pub record Counts {R W Files Bytes : Type 0} (services : Services R W Files Bytes) : Type 0 where
  pub counted :
      (f : LogFile R) (p : Processed R (List W))
      → services.process_azure_log_file f ≡ returned p
      → p.counted ≡ length p.written

abbrev pub Counted : {W : Type 0} → Ran W → Type 0
Counted ran = ran.counted ≡ length ran.written

ended-Counted :
    {A W : Type 0} (a : A) (ran : Ran W) (x : A × Ran W)
    → returned (a, ran) ≡ returned x
    → Counted ran
    → Counted x.1
ended-Counted a ran x e h = rw (← returned-injective (a, ran) x e) h

returned_ne : {A : Type 0} (a : A) → panicked ≢ returned a
returned_ne a e = cc

module _ {R W Files Bytes : Type 0} where
  module _ (services : Services R W Files Bytes) (c : Counts services) where
    after_task-Counted :
        (ran : Ran W) (p : Processed R (List W))
        → Counted ran
        → p.counted ≡ length p.written
        → Counted (after_task services ran p)
    after_task-Counted ran p h e = rw (h, e) (sym (length-append ran.written p.written))

    run_tasks-Counted :
        (fs : List (LogFile R)) (ran out : Ran W)
        → Counted ran
        → run_tasks services fs ran ≡ returned out
        → Counted out
    unfolding run_tasks
    run_tasks-Counted [] ran out h e = rw (← returned-injective ran out e) h
    run_tasks-Counted (f ∷ fs) ran out h e =
        let (p, once, rest) =
          >>=-eq-returned (services.process_azure_log_file f)
            (λ p. run_tasks services fs (after_task services ran p)) e in
        run_tasks-Counted fs (after_task services ran p) out
          (after_task-Counted ran p h (c.counted f p once)) rest

    run_pool-Counted :
        (job : Job R) (ran : Ran W) → run_pool services job ≡ returned ran → Counted ran
    unfolding run_pool
    run_pool-Counted job ran e = elim (Bool-cases job.results_closed) [
      | inl closed ↦ absurd (run_closed_tasks-ne services job.tasks ran (rw closed at e))
      | inr still ↦
          run_tasks-Counted job.tasks
            (record { status = job.process_status; errors = []; written = []; counted = 0 }) ran
            refl (rw still at e)
    ]

    run-Counted :
        (files : Files) (job : Job R) (x : (Files × Job R) × Ran W)
        → run services files job ≡ returned x
        → Counted x.1
    unfolding run
    run-Counted files job x e =
        let ended = λ (ran : Ran W). complete_job services files (record job {
          start_time = services.now;
          status = running;
          process_status = ran.status;
          results_closed = true;
        }) in
        let (ran, ok, rest) =
          >>=-eq-returned (run_pool services job) (λ ran. returned (ended ran, ran)) e in
        ended-Counted (ended ran) ran x rest (run_pool-Counted job ran ok)

    run_job-Counted :
        (files : Files) (job : Job R) (x : (Files × Job R) × Ran W)
        → Job.run_job services files job ≡ returned x
        → Counted x.1
    unfolding Job.run_job
    run_job-Counted files job x e =
        run-Counted files
          (load_tasks
            (load_unprocessed_log_files services (load_process_status services files job)).0)
          x e

  module _ (services : Services R W Files Bytes) (c : Counts services) (listing : Listing) where
    listing-Counts : (blobs : Option (List Blob)) → Counts (listing_services services listing blobs)
    listing-Counts blobs = record { counted = c.counted }

    abbrev polled_of : AzureClient R → Files → Option Error → Ran W → Polled R W Files
    polled_of client files error ran = record {
      client = client;
      files = files;
      error = error;
      ran = ran;
    }

    finish_job-ran :
        (client : AzureClient R) (job_name : Text) (out : (Files × Job R) × Ran W)
        (p : Polled R W Files)
        → finish_job services listing client job_name out ≡ returned p
        → p.ran ≡ out.1
    finish_job-ran client job_name ((files, job), ran) p e =
        let left = λ (jobs : Dict (Job R)). polled_of (with_jobs client jobs) files none ran in
        let (jobs, ok, rest) =
          >>=-eq-returned (register_in client.registered_jobs job_name job)
            (λ jobs. returned (left jobs)) e in
        sym (ap (λ (x : Polled R W Files). x.ran) (returned-injective (left jobs) p rest))

    run_found-Counted :
        (client : AzureClient R) (files : Files) (job_name : Text) (o : Option (Job R))
        (p : Polled R W Files)
        → run_found services listing client files job_name o ≡ returned p
        → Counted p.ran
    run_found-Counted client files job_name none p e =
        let unknown = polled_of client files (some no_job) (empty_run services listing) in
        rw (← returned-injective unknown p e) refl
    run_found-Counted client files job_name (some job) p e =
        let (blobs, listed, rest) =
          >>=-eq-returned (get_blobs_by_prefix services listing client client.prefix)
            (λ blobs.
              Job.run_job (listing_services services listing blobs) files job
              >>= finish_job services listing client job_name)
            e in
        let (out, ran, end) =
          >>=-eq-returned (Job.run_job (listing_services services listing blobs) files job)
            (finish_job services listing client job_name) rest in
        rw (finish_job-ran client job_name out p end) (
          run_job-Counted (listing_services services listing blobs) (listing-Counts blobs) files job
            out ran)

    process_blobs_after-Counted :
        (client : AzureClient R) (files : Files) (after_time : Time) (job_name : Text)
        (p : Polled R W Files)
        → process_blobs_after services listing client files after_time job_name ≡ returned p
        → Counted p.ran
    unfolding process_blobs_after Azure.run_job
    process_blobs_after-Counted client files after_time job_name p e =
        let (client', registered, rest) =
          >>=-eq-returned (register_job client (polling_job client after_time job_name))
            (λ client'. Azure.run_job services listing client' files job_name) e in
        run_found-Counted client' files job_name (lookup_job client'.registered_jobs job_name) p
          rest

    abbrev pub Tallied : Done R W Files → Type 0
    Tallied d = d.counted ≡ length d.written

    process_once-Tallied :
        (begin_time job_name : Text) (d d' : Done R W Files)
        → Tallied d
        → process_once services listing begin_time job_name d ≡ returned d'
        → Tallied d'
    unfolding process_once
    process_once-Tallied begin_time job_name d d' h e =
        let (p, polled, rest) =
          >>=-eq-returned
            (process_blobs_after services listing d.client d.files (begin_time_of begin_time)
              job_name)
            (λ p. returned (after_poll services listing d p)) e in
        rw (← returned-injective (after_poll services listing d p) d' rest) (
          rw
            (
              h,
              process_blobs_after-Counted d.client d.files (begin_time_of begin_time) job_name p
                  polled,
            )
            (sym (length-append d.written p.ran.written)))

    -- If each task of a client adds to the counter as many events as it writes messages, then after
    -- any number of rounds of a daemon the counter has grown by the number of the messages that
    -- the rounds have written, whatever the container lists and whichever tasks fail.
    pub daemon_rounds-Tallied :
        (n : ℕ) (interval : ℤ) (begin_time job_name : Text) (d d' : Done R W Files)
        → Tallied d
        → daemon_rounds services listing n interval begin_time job_name d ≡ returned d'
        → Tallied d'
    unfolding daemon_rounds
    daemon_rounds-Tallied zero interval begin_time job_name d d' h e =
        rw (← returned-injective d d' e) h
    daemon_rounds-Tallied (suc n) interval begin_time job_name d d' h e =
        let (once, polled, rest) =
          >>=-eq-returned (process_once services listing begin_time job_name d)
            (λ x.
              daemon_rounds services listing n interval begin_time job_name
                (sleep_for services listing interval x))
            e in
        daemon_rounds-Tallied n interval begin_time job_name
          (sleep_for services listing interval once) d'
          (process_once-Tallied begin_time job_name d once h polled) rest
