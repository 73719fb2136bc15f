-- ===== src/Tests/Names.antt =====
-- The names and the times in them, at concrete ones.

use nsg_parser.Process.BeginTime.{begin_time_of}
use nsg_parser.Prelude.Int.{ℤ, pos}
use nsg_parser.Nsg.Record.{AzureNsgEventRecord}
use nsg_parser.LogFile.Kinds.{nsg_log}
use nsg_parser.Calendar.Civil.{years_and_day, month_and_day}
use nsg_parser.Calendar.Format.{
  civil, two_digits, four_digits, format_file_time, format_short, hour_start,
}
use nsg_parser.FileName.{get_log_time_from_name}
use nsg_parser.SourceName.{source_file_name}
use nsg_parser.Outcome.{returned}
use nsg_parser.LogFile.{LogFile}
use nsg_parser.Prelude.{◌≡◌, refl, none, [], ◌∷◌, arith, Text, codes}
use nsg_parser.Tests.Data.{minute, sample_resource_id, first_record, quiet_record, two_records}
use nsg_parser.SourceName.Unique.{IsResourceId}
use nsg_parser.SourceName.RoundTrip.{IsUtc, get_log_time_from_name-source_file_name}
use nsg_parser.SourceName.FromLog.{from_event_log, OfRecord, from_event_log-OfRecord}
use nsg_parser.SourceName.Records.{nsg_source_record}
use nsg_parser.SourceName.Split.{Lacks-count, dot-count, count}
use nsg_parser.Process.BeginTime.Hours.{begin_time_of-format_short}

abbrev no_zone : ℤ → ℤ
no_zone s = pos 0

abbrev sample_front : Text
sample_front =
    codes "/SUBSCRIPTIONS/S1/RESOURCEGROUPS/G1/PROVIDERS/MICROSOFT.NETWORK/NETWORKSECURITYGROUPS"

sample_id-IsResourceId : IsResourceId sample_resource_id
unfolding count
sample_id-IsResourceId = record {
  front = sample_front;
  last = codes "N1";
  id_is = refl;
  front_line = dot-count sample_front refl;
  last_line = dot-count (codes "N1") refl;
  no_equals = Lacks-count b'=' sample_resource_id refl;
}

-- 2017-06-09 21:01:00.
sample_time-IsUtc : IsUtc (minute 1) 63632638860
sample_time-IsUtc = record { in_utc = refl; sec_is = refl; in_range = omega arith }

get_log_time_from_name-source_file_name_example :
    get_log_time_from_name (source_file_name no_zone sample_resource_id (minute 1))
    ≡ (hour_start 63632638860, none)
get_log_time_from_name-source_file_name_example =
    get_log_time_from_name-source_file_name no_zone sample_resource_id (minute 1) 63632638860
      sample_id-IsResourceId sample_time-IsUtc

begin_time_of-format_short_example :
    begin_time_of (format_short no_zone (minute 1)) ≡ hour_start 63632638860
begin_time_of-format_short_example =
    begin_time_of-format_short no_zone (minute 1) 63632638860 sample_time-IsUtc

from_event_log-OfRecord_example :
    (f : LogFile AzureNsgEventRecord) × (from_event_log
        (nsg_source_record no_zone)
        nsg_log
        two_records
      ≡ returned (f, none))
    × OfRecord (nsg_source_record no_zone) first_record (hour_start 63632638860) f
from_event_log-OfRecord_example =
    from_event_log-OfRecord (nsg_source_record no_zone) nsg_log two_records quiet_record
      (first_record ∷ []) 63632638860 refl refl sample_id-IsResourceId sample_time-IsUtc

-- The texts that the program makes.
short_text : format_short no_zone (minute 1) ≡ codes "2017-06-09-21"
unfolding format_short civil years_and_day month_and_day two_digits four_digits
short_text = refl

name_text :
    source_file_name no_zone (codes "/A/B") (minute 1)
    ≡ codes "resourceId=/A/B/y=2017/m=06/d=09/h=21/m=00/PT1H.json"
unfolding source_file_name format_file_time civil years_and_day month_and_day two_digits four_digits
name_text = refl
