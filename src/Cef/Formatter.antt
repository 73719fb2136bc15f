-- ===== src/Cef/Formatter.antt =====
-- `CEFSyslogFormatter` of parser/cef.go, and what it makes of the text of an event.
pub mod Sent
pub mod Clock
use nsg_parser.Prelude.{Option, some, [], ◌∷◌, ◌++◌, Text, codes}
use nsg_parser.Regex.{Regex, star, dot, group, seq, literal, find_at_start, Captures}

-- `eventWithTime`, behind its `^`.
abbrev pub event_with_time : Regex
event_with_time =
    seq (group (star dot))
      (seq (literal (codes "|")) (group (seq (literal (codes "CEF")) (star dot))))

abbrev pub message : Text → Text → Text → Text
message timestamp hostname content = timestamp ++ (b' ' ∷ (hostname ++ (b' ' ∷ content)))

-- The two groups, if there is a match.
abbrev pub formatted : Text → Text → Text → Option Captures → Text
formatted current hostname content (some (timestamp ∷ text ∷ [])) = message timestamp hostname text
formatted current hostname content _ = message current hostname content

-- `current` is the text of the time that it is.
unfoldable pub cef_syslog_formatter : Text → Text → Text → Text
cef_syslog_formatter current hostname content =
    formatted current hostname content (find_at_start event_with_time content)
