-- ===== src/Tests/Formats.antt =====
-- What reaches syslog, at concrete events.
use nsg_parser.Calendar.Civil.{years_and_day, month_and_day}
use nsg_parser.Calendar.Format.{civil, two_digits, format_cef_time}
use nsg_parser.SourceName.Split.{count, dot-count}
use nsg_parser.Prelude.Int.{format_ℕ, ℤ, pos}
use nsg_parser.Prelude.Sorted.{sort}
use nsg_parser.Cef.Value.{format_value}
use nsg_parser.Cef.Formatter.{message, cef_syslog_formatter}
use nsg_parser.Regex.{dot}
use nsg_parser.Cef.Extension.{extension_text, trim_space}
use nsg_parser.Cef.Syslog.{cef_template_text, syslog_text}
use nsg_parser.LogFile.{from_index}
use nsg_parser.Cef.{CefEvent, new_azure_cef_event}
use nsg_parser.Prelude.{refl, [], ◌∷◌, codes, ◌≡◌, true, ◌++◌, All}
use nsg_parser.Tests.Data.{minute}
use nsg_parser.Cef.Formatter.Clock.{cef_syslog_formatter-format_cef_time}
use nsg_parser.Cef.Formatter.Sent.{from_index-Unmarked, Unmarked, formatter_cut}

abbrev sample_event : CefEvent
sample_event = record new_azure_cef_event {
  time = minute 1;
  name = codes "nsg-flow";
  extension = (codes "dpt", codes "80") ∷ [];
}

sample_event-Unmarked : Unmarked (cef_template_text sample_event)
unfolding from_index cef_template_text extension_text format_ℕ sort trim_space format_value
sample_event-Unmarked = from_index-Unmarked (cef_template_text sample_event) refl

sample_text-line : All (λ c. dot c ≡ true) (cef_template_text sample_event)
unfolding count cef_template_text extension_text format_ℕ sort trim_space format_value
sample_text-line = dot-count (cef_template_text sample_event) refl

abbrev no_offset : ℤ → ℤ
no_offset s = pos 0

cef_syslog_formatter-format_cef_time_example :
    cef_syslog_formatter
      (format_cef_time no_offset (minute 9))
      (codes "host")
      (syslog_text (format_cef_time no_offset) sample_event)
    ≡ message (format_cef_time no_offset (minute 1)) (codes "host") (cef_template_text sample_event)
cef_syslog_formatter-format_cef_time_example =
    cef_syslog_formatter-format_cef_time no_offset (minute 9) (codes "host") sample_event
      sample_text-line sample_event-Unmarked

cef_time_text : format_cef_time no_offset (minute 1) ≡ codes "Jun 09 21:01:00"
unfolding format_cef_time civil years_and_day month_and_day two_digits
cef_time_text = refl

-- An event whose name has two lines.
two_lines-Unmarked : Unmarked (codes "CEF:0|Microsoft|N" ++ b'\n' ∷ codes "1|0|dpt=80")
unfolding from_index
two_lines-Unmarked =
    from_index-Unmarked (codes "CEF:0|Microsoft|N" ++ b'\n' ∷ codes "1|0|dpt=80") refl

formatter_cut_example :
    cef_syslog_formatter
      (codes "Jun 10 08:00:00")
      (codes "host")
      (codes "Jun 09 21:00:00|CEF:0|Microsoft|N" ++ b'\n' ∷ codes "1|0|dpt=80")
    ≡ codes "Jun 09 21:00:00 host CEF:0|Microsoft|N"
unfolding count
formatter_cut_example =
    formatter_cut (codes "Jun 10 08:00:00") (codes "host") (codes "Jun 09 21:00:00")
      (codes ":0|Microsoft|N") (codes "1|0|dpt=80") (dot-count (codes "Jun 09 21:00:00") refl)
      (dot-count (codes ":0|Microsoft|N") refl) two_lines-Unmarked
