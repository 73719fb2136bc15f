-- ===== src/Tests/Whole.antt =====
-- The service and the process command, from their start to their end.
use nsg_parser.Install.{ServiceManager}
use nsg_parser.Install.Whole.{process_main, service_main, service_main-process_main}
use nsg_parser.Tests.Polls.{by_client, sample_listing, sample_emulator, sample_command, accepting}
use nsg_parser.Tests.Startup.{
  sample_system, sample_program, started_sample, found, found-Inherits, sample-ExplicitFile,
  sample-AbsolutePaths, sample_file, sample_cfg_file, sample_process_start,
}
use nsg_parser.Prelude.{ℕ, ◌≡◌, refl, true, none, some, codes}

-- A manager of no state that takes every service.
abbrev willing : ServiceManager ℕ
willing = record {
  accepts = λ c. true;
  stop = λ c m. (m, true);
  uninstall = λ c m. (m, true);
  install = λ c m. (m, true);
  starts = λ c. true;
  stops = λ c. true;
}

service_main-process_main_example :
    service_main by_client sample_listing accepting accepting sample_emulator 3 none found willing
      sample_command
      (record sample_system { working_dir = some (codes "/") })
      (record sample_program { cfg_file = sample_file })
      0
    ≡ (
      0,
      process_main by_client sample_listing accepting accepting sample_emulator 3 none found
          (record sample_command { daemon = true })
          sample_system
          sample_program,
    )
service_main-process_main_example =
    service_main-process_main by_client sample_listing accepting accepting sample_emulator 3 none
      found willing sample_system sample_program started_sample (some (codes "/")) sample_file
      found-Inherits sample-ExplicitFile sample-AbsolutePaths refl sample_cfg_file
      sample_process_start refl sample_command 0
      (record { accepted = refl; started = refl; stopped = refl })
