-- ===== src/Job/Select.antt =====
-- Which log files a job takes up.
use nsg_parser.FileName.{Error}
use nsg_parser.Status.{LogFileProcessStatus, ProcessStatus}
use nsg_parser.Time.{Time, after}
use nsg_parser.LogFile.{Blob, LogFile}
use nsg_parser.Dict.{lookup}
use nsg_parser.Prelude.{
  ◌≡◌, ap, ◌∙◌, subst, inl, inr, Option, none, some, List, [], ◌∷◌, ◌++◌, append-nil, append_assoc,
  if◌then◌else◌, Bool-cases, Option-cases, All,
}
use nsg_parser.Job.{Job, consider, consider_blobs}

module _ {R : Type 0} (start : Time) (status : ProcessStatus) where
  -- A known file counts if it was modified since, with what is known of it.
  abbrev pub chosen_known : LogFile R → Option LogFileProcessStatus → List (LogFile R)
  chosen_known f (some s) =
      if after f.last_modified s.last_modified
      then record f {
        last_processed_time_stamp = s.last_processed_time_stamp;
        last_processed_record = s.last_processed_record;
        last_processed_range = s.last_processed_range;
      }
        ∷ []
      else []
  chosen_known f none = f ∷ []

  abbrev pub chosen : LogFile R → List (LogFile R)
  chosen f = if after f.log_time start then chosen_known f (lookup f.blob.name status) else []

module _ {R : Type 0} (create : Blob → LogFile R × Option Error) where
  abbrev pub selected : Time → ProcessStatus → List Blob → List (LogFile R)
  selected start status [] = []
  selected start status (b ∷ bs) = chosen start status (create b).0 ++ selected start status bs

  abbrev pub AllGood : List Blob → Type 0
  AllGood = All (λ b. (create b).1 ≡ none)

abbrev with_files : {R : Type 0} → Job R → List (LogFile R) → Job R
with_files job fs = record job { log_files = job.log_files ++ fs }

abbrev chosen_by : {R : Type 0} → Job R → LogFile R → List (LogFile R)
chosen_by job f = chosen job.options.start_record_time job.process_status f

abbrev pub selected_by :
    {R : Type 0} → (Blob → LogFile R × Option Error) → Job R → List Blob → List (LogFile R)
selected_by create job = selected create job.options.start_record_time job.process_status

consider-chosen :
    {R : Type 0} (job : Job R) (f : LogFile R) → consider job f ≡ with_files job (chosen_by job f)
consider-chosen job f = elim (Bool-cases (after f.log_time job.options.start_record_time)) [
  | inr e ↦ rw (e, append-nil)
  | inl e ↦ elim (Option-cases (lookup f.blob.name job.process_status)) [
    | inl n ↦ rw (e, n)
    | inr (s, k) ↦ elim (Bool-cases (after f.last_modified s.last_modified)) [
      | inl m ↦ rw (e, k, m)
      | inr m ↦ rw (e, k, m, append-nil)
    ]
  ]
]

consider_blobs_good :
    {R : Type 0} (create : Blob → LogFile R × Option Error) (bs rest : List Blob) (job : Job R)
    → AllGood create bs
    → consider_blobs create job (bs ++ rest)
      ≡ consider_blobs create (with_files job (selected_by create job bs)) rest
unfolding consider_blobs
consider_blobs_good create [] rest job h = rw append-nil
consider_blobs_good create (b ∷ bs) rest job (hb, h) = rw hb (
    rw (consider-chosen job (create b).0) (
      consider_blobs_good create bs rest (with_files job (chosen_by job (create b).0)) h
      ∙ ap (λ fs. consider_blobs create (record job { log_files = fs }) rest)
          (append_assoc job.log_files _ _)))

-- If every blob can be made into a log file, the job gains exactly the files that are later than
-- the start time and are unknown or modified, in the order of the blobs, the known ones with their
-- range, record and time stamp, and nothing else of the job changes.
pub consider_blobs-selected :
    {R : Type 0} (create : Blob → LogFile R × Option Error) (bs : List Blob) (job : Job R)
    → AllGood create bs
    → consider_blobs create job bs
      ≡ (record job { log_files = job.log_files ++ selected_by create job bs }, none)
unfolding consider_blobs
consider_blobs-selected create bs job h =
    subst
      (λ l.
        consider_blobs create job l
        ≡ (record job { log_files = job.log_files ++ selected_by create job bs }, none))
      (append-nil bs) (consider_blobs_good create bs [] job h)

-- The first blob that cannot be made into a log file ends the selection with its error, the files
-- selected before it stay, and no blob behind it is looked at.
pub consider_blobs_error :
    {R : Type 0} (create : Blob → LogFile R × Option Error) (bs rest : List Blob) (b : Blob)
    (job : Job R) (err : Error)
    → AllGood create bs
    → (create b).1 ≡ some err
    → consider_blobs create job (bs ++ b ∷ rest)
      ≡ (record job { log_files = job.log_files ++ selected_by create job bs }, some err)
unfolding consider_blobs
consider_blobs_error create bs rest b job err h e =
    consider_blobs_good create bs (b ∷ rest) job h ∙ rw (e, consider_blobs)
