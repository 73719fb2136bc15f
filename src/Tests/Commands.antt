-- ===== src/Tests/Commands.antt =====
-- The process command on a sample container: as a daemon, and with an account that is refused.
use nsg_parser.Outcome.{returned}
use nsg_parser.Process.BeginTime.{digits, parse_layout, begin_time_of}
use nsg_parser.Prelude.Int.{pos}
use nsg_parser.Nsg.Record.{AzureNsgEventRecord}
use nsg_parser.Process.{Done, run_command}
use nsg_parser.Process.Setup.{to_syslog, Command}
use nsg_parser.Prelude.{◌≡◌, refl, false, none, [], ◌∷◌, Text, Bool, true}
use nsg_parser.Tests.Data.{sample_blob}
use nsg_parser.Tests.Service.{Folder, sample-Storage}
use nsg_parser.Process.Options.{run_command_daemon}
use nsg_parser.Tests.Polls.{
  by_client, sample_settings, sample_listing, sample_emulator, sample_command, accepting,
  sample-Watched, sample_poll-LoadsStorable, sample_poll-Saves,
}

abbrev refusing : Text → Text → Bool
refusing name key = false

abbrev as_daemon : Bool → Command AzureNsgEventRecord
as_daemon b = record sample_command { daemon = b }

run_command_daemon_example :
    (once : Done AzureNsgEventRecord Text Folder) × (d : Done AzureNsgEventRecord Text Folder)
    × (run_command by_client sample_listing accepting accepting sample_emulator sample_settings 2
          (as_daemon false)
          none
        ≡ returned once)
    × (run_command by_client sample_listing accepting accepting sample_emulator sample_settings 3
          (as_daemon true)
          none
        ≡ returned d)
    × (d.written ≡ once.written)
    × (d.logged ≡ once.logged)
    × (d.sleeps ≡ pos 0 ∷ pos 0 ∷ pos 0 ∷ [])
unfolding begin_time_of parse_layout digits
run_command_daemon_example =
    run_command_daemon by_client sample_listing accepting accepting sample_emulator sample_settings
      sample_command none (sample_blob ∷ []) to_syslog refl (λ key h. refl) refl refl sample-Storage
      sample-Watched sample_poll-LoadsStorable sample_poll-Saves 2
