-- ===== src/Tests/Sending.antt =====
-- The command test_send on the event that its JSON gives: the keys that are no tag of a field, in
-- whatever case, leave the field unset.
use nsg_parser.Cef.Extension.{extension_text, trim_space}
use nsg_parser.Cef.Value.{format_value}
use nsg_parser.Prelude.Int.{pos, format_ℤ, format_ℕ, wrap64, ◌+ℤ◌}
use nsg_parser.Prelude.Sorted.{sort}
use nsg_parser.Outcome.{returned}
use nsg_parser.Time.{zero_time}
use nsg_parser.Process.Setup.{init_syslog}
use nsg_parser.Process.TestSend.{
  DecodedEvent, decoded_syslog_text, decoded_template_text, test_send,
}
use nsg_parser.Prelude.{◌≡◌, refl, Option, none, some, List, [], ◌∷◌, Text, codes, ◌++◌}
use nsg_parser.Tests.Polls.{accepting, sample_command, sample_emulator, sample_settings}

abbrev unset_event : DecodedEvent
unset_event = record {
  cef_version = none;
  device_vendor = none;
  device_product = none;
  device_version = none;
  device_event_class_id = [];
  time = zero_time;
  name = codes "nsg-flow";
  severity = pos 0;
  extension =
      (codes "dst", codes "10.44.160.4")
      ∷ (codes "cs1", codes "UserRule_HTTP")
      ∷ (codes "start", codes "1498075171000")
      ∷ [];
}

abbrev unmarshal_sample : Text → Option (List DecodedEvent)
unmarshal_sample t = some (unset_event ∷ [])

sent_sample :
    test_send accepting accepting sample_emulator sample_settings unmarshal_sample
      (λ t. codes "now")
      (λ i. zero_time)
      sample_command
    ≡ returned (
        (codes "now|CEF:<nil>|<nil>|<nil>|<nil>||nsg-flow|0|"
          ++ codes "cs1=UserRule_HTTP dst=10.44.160.4 start=1498075171000")
        ∷ [])
unfolding test_send init_syslog decoded_syslog_text decoded_template_text extension_text format_ℤ
    format_ℕ sort trim_space format_value wrap64 ◌+ℤ◌
sent_sample = refl
