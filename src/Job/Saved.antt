-- ===== src/Job/Saved.antt =====
-- The status of a job, saved and loaded again (parser/job.go).
use nsg_parser.Status.{ProcessStatus}
use nsg_parser.Job.Stored.{AllStorable, SameEntries}
use nsg_parser.Job.{
  Job, Services, process_status_path, read_process_status, load_process_status, save_process_status,
}
use nsg_parser.Prelude.{◌≡◌, refl, some, Text}

-- What the next process relies on: a status whose times have years of four digits has a JSON form
-- from which it is read back with the same entries, the times as instants, and a file that was
-- written is read back.
pub record Storage {R W Files Bytes : Type 0} (services : Services R W Files Bytes) : Type 0 where
  pub marshalled :
      (s : ProcessStatus)
      → AllStorable s
      → (bytes : Bytes) × (s' : ProcessStatus) × (services.marshal s ≡ some bytes)
        × (services.unmarshal bytes ≡ some s')
        × SameEntries s' s
  pub stored :
      (files : Files) (path : Text) (bytes : Bytes)
      → services.read_file (services.write_file files path bytes) path ≡ some bytes

module _ {R W Files Bytes : Type 0} (services : Services R W Files Bytes)
    (storage : Storage services) where
  loaded_from :
      (files : Files) (job : Job R) (bytes : Bytes) (s : ProcessStatus)
      → services.read_file files (process_status_path job) ≡ some bytes
      → services.unmarshal bytes ≡ some s
      → load_process_status services files job ≡ record job { process_status = s }
  unfolding load_process_status read_process_status
  loaded_from files job bytes s r u = rw (load_process_status, read_process_status, r, u)

  saved_as :
      (files : Files) (job : Job R) (bytes : Bytes)
      → services.marshal job.process_status ≡ some bytes
      → save_process_status services files job
        ≡ services.write_file files (process_status_path job) bytes
  unfolding save_process_status
  saved_as files job bytes m = rw (save_process_status, m)

  read_back :
      (files : Files) (path path' : Text) (bytes : Bytes)
      → path' ≡ path
      → services.read_file (services.write_file files path bytes) path' ≡ some bytes
  read_back files path path' bytes p = rw p (storage.stored files path bytes)

  same_path :
      (job later : Job R)
      → later.name ≡ job.name
      → later.options.data_path ≡ job.options.data_path
      → process_status_path later ≡ process_status_path job
  same_path job later n d = rw (n, d) refl

  -- A job that is saved is loaded, with the same entries, by any job of its name and data path.
  pub load_process_status-save :
      (files : Files) (job later : Job R)
      → AllStorable job.process_status
      → later.name ≡ job.name
      → later.options.data_path ≡ job.options.data_path
      → (s : ProcessStatus) × (load_process_status services
            (save_process_status services files job)
            later
          ≡ record later { process_status = s })
        × SameEntries s job.process_status
  load_process_status-save files job later fits n d =
      let (bytes, s, m, u, same) = storage.marshalled job.process_status fits in
      (
        s,
        loaded_from (save_process_status services files job) later bytes s
            (rw (saved_as files job bytes m) (
              read_back files (process_status_path job) (process_status_path later) bytes
                (same_path job later n d)))
            u,
        same,
      )
