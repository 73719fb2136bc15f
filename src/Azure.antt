-- ===== src/Azure.antt =====
-- `AzureClient` of parser/client.go: the storage container, the registry of jobs, and a poll of the
-- container by a new job.
pub mod Polls
pub mod Names
use nsg_parser.FileName.{Error, no_job, no_storage}
use nsg_parser.Outcome.{Outcome, ◌>>=◌, returned, panicked}
use nsg_parser.Status.{ProcessStatus}
use nsg_parser.Time.{Time, zero_time}
use nsg_parser.LogFile.{Blob}
use nsg_parser.Dict.{Dict, lookup, put}
use nsg_parser.Job.{Job, new_job, Services, Ran, JobOptions}
use nsg_parser.Prelude.{ℕ, Bool, Option, none, some, List, [], if◌then◌else◌, Text}
use nsg_parser.Job

pub record AzureClient (R : Type 0) : Type 0 where
  pub container : Option Text
  pub prefix : Text
  pub process_status : ProcessStatus
  pub data_path : Text
  pub destination_type : Text
  pub concurrency : ℕ
  pub registered_jobs : Option (Dict (Job R))

abbrev pub max_concurrency : ℕ
max_concurrency = 1

-- `AzureClient{}`: no container, and a nil map.
abbrev pub zero_client : {R : Type 0} → AzureClient R
zero_client = record {
  container = none;
  prefix = [];
  process_status = [];
  data_path = [];
  destination_type = [];
  concurrency = 0;
  registered_jobs = none;
}

-- `storage.NewBasicClient` is outside: whether it accepts the account and its key.
unfoldable pub new_azure_client :
    {R : Type 0} → (Text → Text → Bool) → Text → Text → Text → Text → AzureClient R × Option Error
new_azure_client new_basic_client account_name account_key container_name data_path =
    if new_basic_client account_name account_key
    then (
      record zero_client {
        container = some container_name;
        data_path = data_path;
        concurrency = max_concurrency;
        registered_jobs = some [];
      },
      none,
    )
    else (zero_client, some no_storage)

-- The options that `ProcessBlobsAfter` sets, and those it leaves at zero.
abbrev pub polling_options : {R : Type 0} → AzureClient R → Time → JobOptions
polling_options client after_time = record {
  start_record_time = after_time;
  end_record_time = zero_time;
  data_path = client.data_path;
  concurrency = 0;
}

abbrev pub polling_job : {R : Type 0} → AzureClient R → Time → Text → Job R
polling_job client after_time job_name = record (new_job (polling_options client after_time) []) {
  name = job_name;
}

-- What a call of `RunJob` or `ProcessBlobsAfter` leaves.
pub record Polled (R W Files : Type 0) : Type 0 where
  pub client : AzureClient R
  pub files : Files
  pub error : Option Error
  pub ran : Ran W

-- The value of an assignment into a map; a nil map panics.
abbrev pub register_in : {V : Type 0} → Option (Dict V) → Text → V → Outcome (Dict V)
register_in none k v = panicked
register_in (some m) k v = returned (put k v m)

abbrev pub with_jobs : {R : Type 0} → AzureClient R → Dict (Job R) → AzureClient R
with_jobs client jobs = record client { registered_jobs = some jobs }

unfoldable pub register_job : {R : Type 0} → AzureClient R → Job R → Outcome (AzureClient R)
register_job client job = do
  jobs ← register_in client.registered_jobs job.name job
  returned (with_jobs client jobs)

abbrev pub lookup_job : {V : Type 0} → Option (Dict V) → Text → Option V
lookup_job none k = none
lookup_job (some m) k = lookup k m

-- The first page of `container.ListBlobs`, for a container and a prefix; `none` is an error.
abbrev pub Listing : Type 0
Listing = Text → Text → Option (List Blob)

module _ {R W Files Bytes : Type 0} (services : Services R W Files Bytes) (listing : Listing) where
  -- `GetBlobsByPrefix` on a nil container panics.
  abbrev pub get_blobs_by_prefix : AzureClient R → Text → Outcome (Option (List Blob))
  get_blobs_by_prefix client prefix = elim client.container [
    | none ↦ panicked
    | some container ↦ returned (listing container prefix)
  ]

  -- What a job of the client lists: `GetBlobsByPrefix(job.AzureClient.Prefix)`.
  abbrev pub listing_services : Option (List Blob) → Services R W Files Bytes
  listing_services blobs = record services { list_blobs = blobs }

  -- The registry holds a pointer, so it shows the job as the run leaves it.
  abbrev pub finish_job :
      AzureClient R → Text → (Files × Job R) × Ran W → Outcome (Polled R W Files)
  finish_job client job_name ((files, job), ran) = do
    jobs ← register_in client.registered_jobs job_name job
    returned (record { client = with_jobs client jobs; files = files; error = none; ran = ran })

  abbrev pub empty_run : Ran W
  empty_run = record { status = []; errors = []; written = []; counted = 0 }

  abbrev pub run_found : AzureClient R → Files → Text → Option (Job R) → Outcome (Polled R W Files)
  run_found client files job_name none =
      returned (record { client = client; files = files; error = some no_job; ran = empty_run })
  run_found client files job_name (some job) = do
    blobs ← get_blobs_by_prefix client client.prefix
    out ← Job.run_job (listing_services blobs) files job
    finish_job client job_name out

  unfoldable pub run_job : AzureClient R → Files → Text → Outcome (Polled R W Files)
  run_job client files job_name =
      run_found client files job_name (lookup_job client.registered_jobs job_name)

  -- A new job each time; the error of `RunJob` is returned.
  unfoldable pub process_blobs_after :
      AzureClient R → Files → Time → Text → Outcome (Polled R W Files)
  process_blobs_after client files after_time job_name = do
    client' ← register_job client (polling_job client after_time job_name)
    run_job client' files job_name
