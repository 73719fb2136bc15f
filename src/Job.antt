-- ===== src/Job.antt =====
-- parser/job.go: a job selects the log files that are new or were modified, processes them one
-- after the other, and saves what it knows of them.
pub mod Select
pub mod Settled
pub mod Runs
pub mod Stored
pub mod Saved
pub mod Next
pub mod Restart
pub mod Clients
use nsg_parser.LogFile.Kinds.{crreate_azure_log_file}
use nsg_parser.FilePath.{join_path}
use nsg_parser.FileName.{Error, list_failed}
use nsg_parser.Outcome.{Outcome, ◌>>=◌, returned, panicked}
use nsg_parser.Status.{LogFileProcessStatus, ProcessStatus, create_process_status_from_logfile}
use nsg_parser.Time.{Time, zero_time, after}
use nsg_parser.Client.{Processed}
use nsg_parser.LogFile.{Blob, LogFile}
use nsg_parser.Dict.{lookup, put}
use nsg_parser.Prelude.{
  ℕ, Bool, true, false, Option, none, some, List, [], ◌∷◌, ◌++◌, if◌then◌else◌, Text, codes, ◌+◌,
}

pub record JobOptions : Type 0 where
  pub start_record_time : Time
  pub end_record_time : Time
  pub data_path : Text
  pub concurrency : ℕ

pub data JobStatus : Type 0 where
  created running complete : JobStatus

-- A task is the log file that its closure processes. A channel is open or closed.
pub record Job (R : Type 0) : Type 0 where
  pub name : Text
  pub options : JobOptions
  pub process_status : ProcessStatus
  pub log_files : List (LogFile R)
  pub tasks : List (LogFile R)
  pub results_closed : Bool
  pub start_time : Time
  pub end_time : Time
  pub status : JobStatus

abbrev pub new_job : {R : Type 0} → JobOptions → ProcessStatus → Job R
new_job options process_status = record {
  name = codes "nsg-parser";
  options = options;
  process_status = process_status;
  log_files = [];
  tasks = [];
  results_closed = false;
  start_time = zero_time;
  end_time = zero_time;
  status = created;
}

-- What a job takes from outside: the blobs of the container (`none` is an error), the client's `ProcessAzureLogFile`, files, the JSON of the status as bytes, and the clock. A
-- write gives the files behind it, whether it succeeded or not.
pub record Services (R W Files Bytes : Type 0) : Type 0 where
  pub list_blobs : Option (List Blob)
  pub process_azure_log_file : LogFile R → Outcome (Processed R (List W))
  pub read_file : Files → Text → Option Bytes
  pub write_file : Files → Text → Bytes → Files
  pub marshal : ProcessStatus → Option Bytes
  pub unmarshal : Bytes → Option ProcessStatus
  pub now : Time

-- The log file behind the interface; its blob's container still tells its type.
abbrev pub create_azure_log_file : {R : Type 0} → Blob → LogFile R × Option Error
create_azure_log_file blob = (crreate_azure_log_file blob).1

module _ {R : Type 0} where
  -- The three fields that a modified log file takes over.
  abbrev pub carry_over : LogFile R → LogFileProcessStatus → LogFile R
  carry_over f s = record f {
    last_processed_time_stamp = s.last_processed_time_stamp;
    last_processed_record = s.last_processed_record;
    last_processed_range = s.last_processed_range;
  }

  abbrev pub append_log_file : Job R → LogFile R → Job R
  append_log_file job f = record job { log_files = job.log_files ++ f ∷ [] }

  abbrev pub consider_known : Job R → LogFile R → Option LogFileProcessStatus → Job R
  consider_known job f (some s) =
      if after f.last_modified s.last_modified then append_log_file job (carry_over f s) else job
  consider_known job f none = append_log_file job f

  abbrev pub consider : Job R → LogFile R → Job R
  consider job f =
      if after f.log_time job.options.start_record_time
      then consider_known job f (lookup f.blob.name job.process_status)
      else job

  -- The loop over the blobs: the first that cannot be made into a log file ends it with its
  -- error, and the files selected so far stay.
  unfoldable pub consider_blobs :
      (Blob → LogFile R × Option Error) → Job R → List Blob → Job R × Option Error
  consider_blobs create job [] = (job, none)
  consider_blobs create job (b ∷ bs) =
      let rest = consider_blobs create (consider job (create b).0) bs in
      elim (create b).1 [ some err ↦ (job, some err) | none ↦ rest ]

  abbrev pub load_tasks : Job R → Job R
  load_tasks job = record job { tasks = job.tasks ++ job.log_files }

  -- `logFileSink` for one log file.
  abbrev pub sink : ProcessStatus → LogFile R → ProcessStatus
  sink status f = put f.name (create_process_status_from_logfile f) status

abbrev pub process_status_file_name : {R : Type 0} → Job R → Text
process_status_file_name job = codes "nsg-parser-status-" ++ (job.name ++ codes ".json")

-- `filepath.Join` of the data path and the name.
abbrev pub process_status_path : {R : Type 0} → Job R → Text
process_status_path job = join_path job.options.data_path (process_status_file_name job)

-- What the tasks leave: the status map, the errors that were logged, all that was written, and what
-- was added to the counter of events.
pub record Ran (W : Type 0) : Type 0 where
  pub status : ProcessStatus
  pub errors : List Error
  pub written : List W
  pub counted : ℕ

abbrev pub errors_of : Option Error → List Error
errors_of none = []
errors_of (some e) = e ∷ []

-- On an error the job keeps the status that it had.
abbrev pub with_status : {R : Type 0} → Job R → Option ProcessStatus → Job R
with_status job none = job
with_status job (some status) = record job { process_status = status }

module _ {R W Files Bytes : Type 0} (services : Services R W Files Bytes) where
  unfoldable pub load_unprocessed_log_files : Job R → Job R × Option Error
  load_unprocessed_log_files job = elim services.list_blobs [
    | none ↦ (job, some list_failed)
    | some blobs ↦ consider_blobs create_azure_log_file job blobs
  ]

  abbrev pub after_task : Ran W → Processed R (List W) → Ran W
  after_task ran p = record {
    status = if p.sent then sink ran.status p.log_file else ran.status;
    errors = ran.errors ++ errors_of p.error;
    written = ran.written ++ p.written;
    counted = ran.counted + p.counted;
  }

  -- The pool runs the tasks with one worker, so in order; a panic of a task ends the process.
  unfoldable pub run_tasks : List (LogFile R) → Ran W → Outcome (Ran W)
  run_tasks [] ran = returned ran
  run_tasks (f ∷ fs) ran = do p ← services.process_azure_log_file f; run_tasks fs (after_task ran p)

  -- `ReadProcessStatus`: a file that cannot be read is an empty status.
  unfoldable pub read_process_status : Files → Job R → Option ProcessStatus
  read_process_status files job = elim (services.read_file files (process_status_path job)) [
    | none ↦ some []
    | some bytes ↦ services.unmarshal bytes
  ]

  unfoldable pub load_process_status : Files → Job R → Job R
  load_process_status files job = with_status job (read_process_status files job)

  unfoldable pub save_process_status : Files → Job R → Files
  save_process_status files job = elim (services.marshal job.process_status) [
    | none ↦ files
    | some bytes ↦ services.write_file files (process_status_path job) bytes
  ]

  -- `Complete`: save, read back, and forget the log files. The tasks stay.
  unfoldable pub complete_job : Files → Job R → Files × Job R
  complete_job files job =
      let files' = save_process_status files job in
      let job' = load_process_status files' (record job { end_time = services.now }) in
      (files', record job' { log_files = []; status = complete })

  -- The tasks of a job whose channel is closed: the first that sends to it panics, and so does the
  -- close behind them.
  unfoldable pub run_closed_tasks : List (LogFile R) → Outcome (Ran W)
  run_closed_tasks [] = panicked
  run_closed_tasks (f ∷ fs) = do
    p ← services.process_azure_log_file f
    if p.sent then panicked else run_closed_tasks fs

  -- The pool in front of the close of the channel.
  unfoldable pub run_pool : Job R → Outcome (Ran W)
  unfolding run_closed_tasks
  run_pool job =
      if job.results_closed
      then run_closed_tasks job.tasks
      else run_tasks job.tasks
          (record { status = job.process_status; errors = []; written = []; counted = 0 })

  -- `Run`. The channel is closed at its end.
  unfoldable pub run : Files → Job R → Outcome ((Files × Job R) × Ran W)
  run files job =
      let started = record job { start_time = services.now; status = running } in
      do
        ran ← run_pool job
        returned (
          complete_job files
              (record started { process_status = ran.status; results_closed = true }),
          ran,
        )

  -- The steps of `RunJob` on a registered job; the error of the selection is dropped.
  unfoldable pub run_job : Files → Job R → Outcome ((Files × Job R) × Ran W)
  run_job files job =
      run files (load_tasks (load_unprocessed_log_files (load_process_status files job)).0)
