-- ===== src/Job/Next.antt =====
-- What the next process selects, from the status that it loads (parser/job.go).
use nsg_parser.Job.Settled.{Distinct}
use nsg_parser.Job.Select.{selected, AllGood, consider_blobs-selected}
use nsg_parser.FileName.{Error}
use nsg_parser.LogFile.{Blob, LogFile}
use nsg_parser.Status.{ProcessStatus}
use nsg_parser.Job.{
  Job, Services, read_process_status, load_process_status, JobOptions, new_job,
  load_unprocessed_log_files, consider_blobs, with_status, create_azure_log_file,
}
use nsg_parser.Prelude.{◌≡◌, some, List, Text, ap, Option, none, [], ◌∙◌, refl}

with_status-eq :
    {R : Type 0} (job : Job R) (o : Option ProcessStatus)
    → with_status job o ≡ record job { process_status = (with_status job o).process_status }
with_status-eq job none = refl
with_status-eq job (some s) = refl

-- A new job under the name that the client gives it.
abbrev pub named_job : {R : Type 0} → Text → JobOptions → Job R
named_job name options = record (new_job options []) { name = name }

-- A process that starts a new job from its options, loads what the last one saved, and selects.
abbrev pub next_selection :
    {R W Files Bytes : Type 0}
    → Services R W Files Bytes
    → Text
    → JobOptions
    → Files
    → Job R × Option Error
next_selection services name options files =
    load_unprocessed_log_files services
      (load_process_status services files (named_job name options))

-- The status that it loads.
abbrev pub loaded_status :
    {R W Files Bytes : Type 0}
    → Services R W Files Bytes
    → Text
    → JobOptions
    → Files
    → ProcessStatus
loaded_status {R = R} services name options files =
    (load_process_status services files (named_job {R = R} name options)).process_status

module _ {R W Files Bytes : Type 0} (services : Services R W Files Bytes) (name : Text)
    (options : JobOptions) (bs : List Blob) where
  -- The container's blobs are `bs`, of distinct names, and each of them is made into a log file
  -- without an error.
  pub record Listed : Type 0 where
    pub listed : services.list_blobs ≡ some bs
    pub good : AllGood (create_azure_log_file {R = R}) bs
    pub distinct : Distinct bs

  load_process_status-eq :
      (files : Files)
      → load_process_status services files (named_job name options)
        ≡ record (named_job name options) {
          process_status = loaded_status services name options files;
        }
  unfolding load_process_status
  load_process_status-eq files =
      with_status-eq (named_job name options)
        (read_process_status services files (named_job name options))

  load_unprocessed-listed :
      (job : Job R)
      → services.list_blobs ≡ some bs
      → load_unprocessed_log_files services job
        ≡ consider_blobs (create_azure_log_file {R = R}) job bs
  unfolding load_unprocessed_log_files
  load_unprocessed-listed job h = rw (load_unprocessed_log_files, h)

  pub next_selection-files :
      (files : Files) (l : Listed)
      → next_selection services name options files ≡ (
        record (named_job name options) {
          process_status = loaded_status services name options files;
          log_files =
              selected
                (create_azure_log_file {R = R})
                options.start_record_time
                (loaded_status services name options files)
                bs;
        },
        none,
      )
  next_selection-files files l =
      ap (load_unprocessed_log_files services) (load_process_status-eq files)
      ∙ load_unprocessed-listed _ l.listed
      ∙ consider_blobs-selected (create_azure_log_file {R = R}) bs _ l.good

  -- The files that a new job selects.
  abbrev pub selection : Files → List (LogFile R)
  selection files =
      selected (create_azure_log_file {R = R}) options.start_record_time
        (loaded_status services name options files) bs
