-- ===== src/FileName.antt =====
-- `LoggedResourceFileRegExp` of parser/event_log_file.go (`AppGwFileRegExp` and
-- `AppGwFirewallFileRegExp` are the same pattern), and what is read out of a blob's name with it.
use nsg_parser.Time.{Time, zero_time}
use nsg_parser.Regex.{Regex, dot, digit, literal, times, Captures, find_submatch, star, group, seq}
use nsg_parser.Calendar.{number_of, parse_date}
use nsg_parser.Prelude.{ℕ, Option, none, some, [], ◌∷◌, Text, codes}

pub data Error : Type 0 where
  resource_id_name no_time_field bad_payload bad_date bad_blob_name bad_events : Error
  uninitialized_client no_job list_failed no_storage : Error

-- `([0-9]{n})`.
abbrev pub digits_group : ℕ → Regex
digits_group n = group (times n digit)

abbrev pub minute_on : Regex
minute_on = seq (literal (codes "/m=")) (seq (digits_group 2) (star dot))

abbrev pub hour_on : Regex
hour_on = seq (literal (codes "/h=")) (seq (digits_group 2) minute_on)

abbrev pub day_on : Regex
day_on = seq (literal (codes "/d=")) (seq (digits_group 2) hour_on)

abbrev pub month_on : Regex
month_on = seq (literal (codes "/m=")) (seq (digits_group 2) day_on)

abbrev pub logged_resource_file_regexp : Regex
logged_resource_file_regexp = seq (star dot) (
    seq (literal (codes "/"))
      (seq (group (star dot)) (seq (literal (codes "/y=")) (seq (digits_group 4) month_on))))

-- The six groups: the resource, the year, the month, the day, the hour, the minute.
unfoldable pub name_tokens : Text → Option Captures
name_tokens name = find_submatch logged_resource_file_regexp name

-- `getLoggedResourceName`: a value and an error, as in the source.
abbrev pub resource_of : Option Captures → Text × Option Error
resource_of (some (n ∷ y ∷ m ∷ d ∷ h ∷ mi ∷ [])) = (n, none)
resource_of _ = ([], some resource_id_name)

unfoldable pub get_logged_resource_name : Text → Text × Option Error
get_logged_resource_name name = resource_of (name_tokens name)

abbrev pub parsed : Option Time → Time × Option Error
parsed (some t) = (t, none)
parsed none = (zero_time, some bad_date)

abbrev pub log_time_of : Option Captures → Time × Option Error
log_time_of (some (n ∷ y ∷ m ∷ d ∷ h ∷ mi ∷ [])) =
    parsed (parse_date (number_of y) (number_of m) (number_of d) (number_of h) (number_of mi))
log_time_of _ = (zero_time, some resource_id_name)

unfoldable pub get_log_time_from_name : Text → Time × Option Error
get_log_time_from_name name = log_time_of (name_tokens name)
