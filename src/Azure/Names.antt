-- ===== src/Azure/Names.antt =====
-- Jobs of different names keep their statuses in different files.
use nsg_parser.Job.{
  Job, Services, process_status_file_name, read_process_status, load_process_status,
  save_process_status, process_status_path,
}
use nsg_parser.FilePath.{join_path}
use nsg_parser.FilePath.Join.{IsElement, join_path_inj, or_dot-cons}
use nsg_parser.SourceName.Split.{Lacks-count, count}
use nsg_parser.Prelude.{
  ◌≡◌, refl, sym, ◌≢◌, inl, inr, Option-cases, Text, codes, ap, ◌∙◌, ◌++◌, All-append, Lacks,
}
use mathlib.Core.List.{append_cancel_left, append_cancel_right}

-- Two jobs whose status files have one name have one name themselves.
process_status_file_name_inj :
    {R : Type 0} (a b : Job R)
    → process_status_file_name a ≡ process_status_file_name b
    → a.name ≡ b.name
process_status_file_name_inj a b h =
    append_cancel_right a.name b.name (codes ".json")
      (append_cancel_left (codes "nsg-parser-status-") _ _ h)

-- The name of a status file is an element of a path, if the job's name has no slash.
process_status_file_name-IsElement :
    {R : Type 0} (job : Job R) → Lacks b'/' job.name → IsElement (process_status_file_name job)
unfolding count
process_status_file_name-IsElement job h = record {
  lacks_slash =
      All-append (λ c. c ≢ b'/') (codes "nsg-parser-status-") (job.name ++ codes ".json")
        (Lacks-count b'/' (codes "nsg-parser-status-") refl)
        (All-append (λ c. c ≢ b'/') job.name (codes ".json") h
          (Lacks-count b'/' (codes ".json") refl));
  kept = λ rooted stack. refl;
  shown = λ t. or_dot-cons t (codes "sg-parser-status-" ++ (job.name ++ codes ".json")) b'n';
  relative = refl;
}

-- Jobs of different names with one data path have different status files.
process_status_path_ne :
    {R : Type 0} (a b : Job R)
    → a.name ≢ b.name
    → a.options.data_path ≡ b.options.data_path
    → Lacks b'/' a.name
    → Lacks b'/' b.name
    → process_status_path a ≢ process_status_path b
process_status_path_ne a b n d ha hb e = n (
    process_status_file_name_inj a b (
      join_path_inj b.options.data_path (process_status_file_name a) (process_status_file_name b)
        (process_status_file_name-IsElement a ha) (process_status_file_name-IsElement b hb)
        (ap (λ p. join_path p (process_status_file_name a)) (sym d) ∙ e)))

-- A write leaves the other files.
pub record Apart {R W Files Bytes : Type 0} (services : Services R W Files Bytes) : Type 0 where
  pub others :
      (files : Files) (path other : Text) (bytes : Bytes)
      → path ≢ other
      → services.read_file (services.write_file files path bytes) other
        ≡ services.read_file files other

module _ {R W Files Bytes : Type 0} (services : Services R W Files Bytes)
    (apart : Apart services) where
  read_apart :
      (files : Files) (job : Job R) (other : Text)
      → process_status_path job ≢ other
      → services.read_file (save_process_status services files job) other
        ≡ services.read_file files other
  unfolding save_process_status
  read_apart files job other n = elim (Option-cases (services.marshal job.process_status)) [
    | inl e ↦ rw (save_process_status, e)
    | inr (bytes, e) ↦
        rw (save_process_status, e) (apart.others files (process_status_path job) other bytes n)
  ]

  -- Saving the status of a job leaves what a job of another name with the same data path loads, if
  -- neither name has a slash and a write to one path leaves the files of other paths.
  pub load_process_status-save_apart :
      (files : Files) (job other : Job R)
      → other.name ≢ job.name
      → other.options.data_path ≡ job.options.data_path
      → Lacks b'/' job.name
      → Lacks b'/' other.name
      → load_process_status services (save_process_status services files job) other
        ≡ load_process_status services files other
  unfolding load_process_status read_process_status
  load_process_status-save_apart files job other n d hj ho =
      rw
        (
          load_process_status,
          read_process_status,
          read_apart files job (process_status_path other)
              (process_status_path_ne job other (λ e. n (sym e)) (sym d) hj ho),
        )
        refl
