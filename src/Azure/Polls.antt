-- ===== src/Azure/Polls.antt =====
-- Polls of one container, one after the other.
use nsg_parser.Job.Settled.{Distinct}
use nsg_parser.Job.Stored.{AllStorable, Saves}
use nsg_parser.Job.Select.{AllGood}
use nsg_parser.Job.Saved.{Storage}
use nsg_parser.Job.Next.{selection, Listed, loaded_status}
use nsg_parser.Job.Restart.{RunsTo, before_tasks, run_job-RunsTo}
use nsg_parser.Outcome.{returned, returned-injective}
use nsg_parser.Time.{Time}
use nsg_parser.LogFile.{Blob, LogFile}
use nsg_parser.Dict.{Dict, put, lookup-put_self}
use nsg_parser.Azure.{
  AzureClient, new_azure_client, polling_options, polling_job, Polled, with_jobs, register_job,
  Listing, listing_services, process_blobs_after, lookup_job,
}
use nsg_parser.Job.{Job, Services, Ran, complete_job, create_azure_log_file, run_tasks, complete}
use nsg_parser.Prelude.{◌≡◌, refl, Bool, true, none, some, List, [], Text, All, sym, ap, subst}
use nsg_parser.Azure

-- The client has its container and a registry.
pub record Connected {R : Type 0} (client : AzureClient R) (container : Text) : Type 0 where
  pub container_is : client.container ≡ some container
  pub registry : Dict (Job R)
  pub registry_is : client.registered_jobs ≡ some registry

pub new_azure_client-Connected :
    {R : Type 0} (accepts : Text → Text → Bool) (account key container data_path : Text)
    → accepts account key ≡ true
    → Connected {R = R} (new_azure_client accepts account key container data_path).0 container
unfolding new_azure_client
new_azure_client-Connected accepts account key container data_path h =
    rw (new_azure_client, h) (record { container_is = refl; registry = []; registry_is = refl })

module _ {R W Files Bytes : Type 0} (services : Services R W Files Bytes) (listing : Listing)
    (job_name : Text) (after_time : Time) (container : Text) (bs : List Blob) where
  module _ (client : AzureClient R) where
    abbrev pub services_of : Services R W Files Bytes
    services_of = listing_services services listing (listing container client.prefix)

    -- The selection of a poll by this client, on these files.
    abbrev pub poll_selection : Files → List (LogFile R)
    poll_selection = selection services_of job_name (polling_options client after_time) bs

    -- The times of the entries that the poll loads can be written.
    abbrev pub LoadsStorable : Files → Type 0
    LoadsStorable files =
        AllStorable
          (loaded_status {R = R} services_of job_name (polling_options client after_time) files)

    -- The run that a poll is.
    abbrev pub PollRunsTo : Files → Ran W → Type 0
    PollRunsTo files out =
        RunsTo services_of job_name (polling_options client after_time) bs files out

    -- What a poll leaves.
    abbrev pub polled :
        (files : Files) (out : Ran W) → PollRunsTo files out → Dict (Job R) → Polled R W Files
    polled files out r registry =
        let finished = complete_job services_of files r.job in
        record {
          client = with_jobs client (
              put job_name finished.1
                (put job_name (polling_job client after_time job_name) registry));
          files = finished.0;
          error = none;
          ran = out;
        }

    pub process_blobs_after-polled :
        (files : Files) (out : Ran W) (c : Connected client container) (r : PollRunsTo files out)
        → process_blobs_after services listing client files after_time job_name
          ≡ returned (polled files out r c.registry)
    unfolding process_blobs_after register_job Azure.run_job
    process_blobs_after-polled files out c r =
        let job = polling_job client after_time job_name in
        rw (process_blobs_after, register_job, c.registry_is)
          (rw (Azure.run_job, lookup-put_self job_name job c.registry)
            (rw c.container_is (rw r.runs refl)))

  -- The container's listing stays: blobs of distinct names, each of them made into a log file
  -- without an error.
  pub record Watched (client : AzureClient R) : Type 0 where
    pub lists : listing container client.prefix ≡ some bs
    pub all_good : AllGood (create_azure_log_file {R = R}) bs
    pub all_distinct : Distinct bs

  Storage-services_of : (client : AzureClient R) → Storage services → Storage (services_of client)
  Storage-services_of client s = record { marshalled = s.marshalled; stored = s.stored }

  Watched-Listed :
      (client : AzureClient R)
      → Watched client
      → Listed (services_of client) job_name (polling_options client after_time) bs
  Watched-Listed client w = record {
    listed = w.lists;
    good = w.all_good;
    distinct = w.all_distinct;
  }

  -- A poll that came to its end, and after which nothing is left to do.
  pub record Settles (client : AzureClient R) (files : Files) (p : Polled R W Files) : Type 0 where
    pub returns : process_blobs_after services listing client files after_time job_name ≡ returned p
    pub connected : Connected p.client container
    pub same_prefix : p.client.prefix ≡ client.prefix
    pub same_path : p.client.data_path ≡ client.data_path
    pub no_error : p.error ≡ none
    pub nothing_left : poll_selection p.client p.files ≡ []
    pub leaves_storable : LoadsStorable p.client p.files
    pub job_done :
        (j : Job R) × (lookup_job p.client.registered_jobs job_name ≡ some j)
        × (j.status ≡ complete)
        × (j.log_files ≡ [])
    pub ran_as :
        run_tasks
          (services_of client)
          (poll_selection client files)
          (before_tasks (services_of client) job_name (polling_options client after_time) bs files)
        ≡ returned p.ran

  pub poll-Settles :
      (client : AzureClient R) (files : Files)
      → Connected client container
      → Storage services
      → Watched client
      → LoadsStorable client files
      → All (Saves services) (poll_selection client files)
      → (p : Polled R W Files) × Settles client files p
  unfolding complete_job
  poll-Settles client files c s w fits ok =
      let (out, r) =
        run_job-RunsTo (services_of client) job_name (polling_options client after_time) bs files
          (Storage-services_of client s) (Watched-Listed client w) fits ok in
      (
        polled client files out r c.registry,
        record {
          returns = process_blobs_after-polled client files out c r;
          connected = record { container_is = c.container_is; registry = _; registry_is = refl };
          same_prefix = refl;
          same_path = refl;
          no_error = refl;
          nothing_left = r.settled;
          leaves_storable = r.stored;
          job_done = (_, lookup-put_self job_name _ _, refl, refl);
          ran_as = r.tasks_run;
        },
      )

  -- A poll with nothing to do sends no event and logs no error.
  pub Settles-written :
      (client : AzureClient R) (files : Files) (p : Polled R W Files)
      → Settles client files p
      → poll_selection client files ≡ []
      → (p.ran.written ≡ []) × (p.ran.errors ≡ [])
  unfolding run_tasks
  Settles-written client files p t h =
      let start =
        before_tasks (services_of client) job_name (polling_options client after_time) bs files in
      let e : start ≡ p.ran =
        returned-injective start p.ran
          (subst (λ fs. run_tasks (services_of client) fs start ≡ returned p.ran) h t.ran_as) in
      (ap (λ r. r.written) (sym e), ap (λ r. r.errors) (sym e))

  -- What holds between two polls: the client is connected, its next poll selects nothing, and what
  -- that poll loads can be written again.
  pub record Idle (client : AzureClient R) (files : Files) : Type 0 where
    pub is_connected : Connected client container
    pub watched : Watched client
    pub selects_nothing : poll_selection client files ≡ []
    pub loads_storable : LoadsStorable client files

  pub Settles-Idle :
      (client : AzureClient R) (files : Files) (p : Polled R W Files)
      → Settles client files p
      → Watched client
      → Idle p.client p.files
  Settles-Idle client files p t w = record {
    is_connected = t.connected;
    watched = record {
      lists = subst (λ x. listing container x ≡ some bs) (sym t.same_prefix) w.lists;
      all_good = w.all_good;
      all_distinct = w.all_distinct;
    };
    selects_nothing = t.nothing_left;
    loads_storable = t.leaves_storable;
  }

  -- A poll of a connected client that selects nothing of a container whose listing stays returns
  -- without an error, writes nothing for the destination and logs no error, and with the client and
  -- the files that it leaves the same holds again. A file is taken to be read back as it was
  -- written, and the JSON of a status whose times have years of four digits, as those of the
  -- entries that are loaded, with the same entries and instants.
  pub poll-Idle :
      (client : AzureClient R) (files : Files)
      → Storage services
      → Idle client files
      → (p : Polled R W Files) × (process_blobs_after services listing client files after_time
            job_name
          ≡ returned p)
        × Idle p.client p.files
        × (p.error ≡ none)
        × (p.ran.written ≡ [])
        × (p.ran.errors ≡ [])
  poll-Idle client files s i =
      let (p, t) =
        poll-Settles client files i.is_connected s i.watched i.loads_storable
          (subst (All (Saves services)) (sym i.selects_nothing) tt) in
      let (none_written, no_errors) = Settles-written client files p t i.selects_nothing in
      (p, t.returns, Settles-Idle client files p t i.watched, t.no_error, none_written, no_errors)
