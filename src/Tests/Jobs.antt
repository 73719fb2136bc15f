-- ===== src/Tests/Jobs.antt =====
-- Jobs and their runs, at concrete ones.

use nsg_parser.Job.Next.{next_selection, Listed, named_job}
use nsg_parser.Job.Restart.{run_job-restart}
use nsg_parser.Job.Settled.{run_tasks-settled}
use nsg_parser.Job.Select.{selected, selected_by, consider_blobs-selected}
use nsg_parser.FileName.{Error, resource_id_name, no_time_field}
use nsg_parser.Nsg.Record.{AzureNsgEventRecord}
use nsg_parser.Outcome.{returned}
use nsg_parser.Status.{create_process_status_from_logfile, ProcessStatus}
use nsg_parser.Time.{zero_time}
use nsg_parser.LogFile.{LogFile, Blob}
use nsg_parser.Job.{
  Job, new_job, Services, consider_blobs, Ran, run_tasks, read_process_status, load_process_status,
  run_job, complete, create_azure_log_file,
}
use nsg_parser.Prelude.{
  ◌≡◌, refl, true, false, none, some, [], ◌∷◌, codes, Option, ◌++◌, if◌then◌else◌, Text, text_eq,
}
use nsg_parser.Nsg.Instance.{nsg_event_record}
use nsg_parser.Tests.Service.{
  Folder, make_file, sample_services, sample-Storage, sample_options, empty_run,
  sample_selected-Delivers, sample_selected-Saves, nothing-AllStorable, sample-AllGood,
}
use nsg_parser.Tests.Data.{minute, sample_file, sample_blob}

run_tasks-settled_example :
    (out : Ran Text) × (run_tasks sample_services
        (selected (create_azure_log_file {R = AzureNsgEventRecord}) zero_time [] (sample_blob ∷ []))
        empty_run
      ≡ returned out)
    × (selected
          (create_azure_log_file {R = AzureNsgEventRecord})
          zero_time
          out.status
          (sample_blob ∷ [])
        ≡ [])
run_tasks-settled_example =
    run_tasks-settled sample_services zero_time (sample_blob ∷ []) empty_run (tt, tt)
      sample_selected-Delivers

sample-Listed : Listed sample_services (codes "syslog") sample_options (sample_blob ∷ [])
sample-Listed = record { listed = refl; good = sample-AllGood; distinct = (tt, tt) }

abbrev sample_name : Text
sample_name = codes "syslog"

run_job-restart_example :
    (files : Folder) × (job : Job AzureNsgEventRecord) × (ran : Ran Text) × (run_job sample_services
        none
        (named_job sample_name sample_options)
      ≡ returned ((files, job), ran))
    × ((next_selection sample_services sample_name sample_options files).0.log_files ≡ [])
    × ((next_selection sample_services sample_name sample_options files).1 ≡ none)
unfolding load_process_status read_process_status
run_job-restart_example =
    run_job-restart sample_services sample_name sample_options (sample_blob ∷ []) none
      sample-Storage sample-Listed nothing-AllStorable sample_selected-Saves

abbrev sample_status : ProcessStatus
sample_status = (sample_blob.name, create_process_status_from_logfile sample_file) ∷ []

abbrev sample_job : Job AzureNsgEventRecord
sample_job = new_job sample_options sample_status

consider_blobs-selected_example : consider_blobs make_file sample_job (sample_blob ∷ []) ≡ (
  record sample_job { log_files = [] ++ selected_by make_file sample_job (sample_blob ∷ []) },
  none,
)
consider_blobs-selected_example =
    consider_blobs-selected make_file (sample_blob ∷ []) sample_job (refl, tt)

-- A blob whose name is empty is refused.
abbrev make_named : Blob → LogFile AzureNsgEventRecord × Option Error
make_named blob = ((make_file blob).0, if text_eq blob.name [] then some resource_id_name else none)

-- The client is not given any file.
abbrev failing_services : Services AzureNsgEventRecord Text Folder ProcessStatus
failing_services = record sample_services {
  process_azure_log_file = λ f. returned (record {
    log_file = f;
    error = some no_time_field;
    sent = false;
    written = [];
    counted = 0;
  });
}

abbrev complete_sample : Job AzureNsgEventRecord
complete_sample = record sample_job {
  results_closed = true;
  status = complete;
  start_time = minute 9;
  end_time = minute 9;
}
