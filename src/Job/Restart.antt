-- ===== src/Job/Restart.antt =====
-- A run, the save of its status, and the start of the next process.
use nsg_parser.Outcome.{returned}
use nsg_parser.Job.Settled.{run_tasks-settled}
use nsg_parser.Job.Select.{selected}
use nsg_parser.LogFile.{Blob}
use nsg_parser.Job.Stored.{
  AllStorable, AllStorable-same, SameEntries, Saves, Saves-Delivers, run_tasks-AllStorable,
  selected_nothing,
}
use nsg_parser.Job.{
  Job, Services, save_process_status, JobOptions, Ran, run, run_job, run_pool, load_tasks,
  run_tasks, complete_job, running, create_azure_log_file,
}
use nsg_parser.Prelude.{◌≡◌, List, Text, ap, none, [], All, subst, sym, ◌∙◌, refl, true, false}
use nsg_parser.Job.Saved.{Storage, load_process_status-save}
use nsg_parser.Job.Next.{
  named_job, next_selection, loaded_status, Listed, next_selection-files, selection,
}

module _ {R W Files Bytes : Type 0} (services : Services R W Files Bytes) (name : Text)
    (options : JobOptions) (bs : List Blob) where
  -- A job as its tasks leave it, before `Complete`.
  abbrev after_tasks : Job R → Ran W → Job R
  after_tasks job out = record job {
    start_time = services.now;
    status = running;
    process_status = out.status;
    results_closed = true;
  }

  run-tasks :
      (files : Files) (job : Job R) (out : Ran W)
      → job.results_closed ≡ false
      → run_tasks services job.tasks
          (record { status = job.process_status; errors = []; written = []; counted = 0 })
        ≡ returned out
      → run services files job ≡ returned (complete_job services files (after_tasks job out), out)
  unfolding run run_pool
  run-tasks files job out c h = rw c (rw h refl)

  -- What the tasks of a run start from.
  abbrev pub before_tasks : Files → Ran W
  before_tasks files = record {
    status = loaded_status services name options files;
    errors = [];
    written = [];
    counted = 0;
  }

  -- What a run of a new job leaves when its tasks leave `out`.
  pub record RunsTo (files : Files) (out : Ran W) : Type 0 where
    pub job : Job R
    pub runs :
        run_job services files (named_job name options)
        ≡ returned (complete_job services files job, out)
    pub closes : job.results_closed ≡ true
    pub name_is : job.name ≡ name
    pub tasks_run :
        run_tasks services (selection services name options bs files) (before_tasks files)
        ≡ returned out
    pub settled : selection services name options bs (complete_job services files job).0 ≡ []
    pub stored :
        AllStorable
          (loaded_status {R = R} services name options (complete_job services files job).0)

  pub run_job-RunsTo :
      (files : Files)
      → Storage services
      → Listed services name options bs
      → AllStorable (loaded_status {R = R} services name options files)
      → All (Saves services) (selection services name options bs files)
      → (out : Ran W) × RunsTo files out
  unfolding run_job complete_job
  run_job-RunsTo files storage l fits ok =
      let (out, tasks, settled) =
        run_tasks-settled services options.start_record_time bs (before_tasks files) l.distinct
          (Saves-Delivers services (selection services name options bs files) ok) in
      let entries_fit =
        run_tasks-AllStorable services (selection services name options bs files)
          (before_tasks files) out fits ok tasks in
      let job = load_tasks (record (named_job name options) {
        process_status = loaded_status services name options files;
        log_files = selection services name options bs files;
      }) in
      let left = after_tasks job out in
      let files' = save_process_status services files left in
      let (s, loaded, same) =
        load_process_status-save services storage files left (named_job name options) entries_fit
          refl refl in
      let entries : SameEntries (loaded_status {R = R} services name options files') out.status =
        subst (λ (j : Job R). SameEntries j.process_status out.status) (sym loaded) same in
      (
        out,
        record {
          job = left;
          runs =
              ap (λ n. run services files (load_tasks n.0))
                (next_selection-files services name options bs files l)
              ∙ run-tasks files job out refl tasks;
          closes = refl;
          name_is = refl;
          tasks_run = tasks;
          settled =
              selected_nothing options.start_record_time
                (loaded_status {R = R} services name options files') out.status bs entries settled;
          stored =
              AllStorable-same (loaded_status {R = R} services name options files') out.status
                entries entries_fit;
        },
      )

  -- RunJob on a new job, over listed blobs of distinct names that are all made into log files
  -- without an error, returns if each selected task returns and sends its log file, with the name
  -- and the time of modification unchanged, to the channel; and a new job of the same options that
  -- loads the saved status selects nothing from the same blobs, without an error. A file is taken
  -- to be read back as it was written, and the JSON of a status whose times have years of four
  -- digits, as those of the entries that are loaded and sent, with the same entries and instants.
  pub run_job-restart :
      (files : Files)
      → Storage services
      → Listed services name options bs
      → AllStorable (loaded_status {R = R} services name options files)
      → All (Saves services) (
          selected
            (create_azure_log_file {R = R})
            options.start_record_time
            (loaded_status services name options files)
            bs)
      → (files' : Files) × (job' : Job R) × (ran : Ran W) × (run_job services files
            (named_job name options)
          ≡ returned ((files', job'), ran))
        × ((next_selection services name options files').0.log_files ≡ [])
        × ((next_selection services name options files').1 ≡ none)
  run_job-restart files storage l fits ok =
      let (out, r) = run_job-RunsTo files storage l fits ok in
      let files' = (complete_job services files r.job).0 in
      let later = next_selection-files services name options bs files' l in
      (
        files',
        (complete_job services files r.job).1,
        out,
        r.runs,
        ap (λ n. n.0.log_files) later ∙ r.settled,
        ap (λ n. n.1) later,
      )
