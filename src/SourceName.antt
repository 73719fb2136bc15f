-- ===== src/SourceName.antt =====
-- The name that a record gives to the blob that it would stand in (`getSourceFileName` of
-- parser/event_record.go, parser/appgw_access_record.go and parser/appgw_firewall_record.go), and
-- the log files that are made from an event log (`New...LogFileFromEventLog`).
pub mod Split
pub mod Tokens
pub mod Unique
pub mod RoundTrip
pub mod Records
pub mod FromLog
use nsg_parser.Prelude.{◌++◌, Text, codes}
use nsg_parser.Calendar.Format.{format_file_time}
use nsg_parser.Prelude.Int.{ℤ}
use nsg_parser.Time.{Time}

-- `zone` is the offset of the local time zone.
unfoldable pub source_file_name : (ℤ → ℤ) → Text → Time → Text
source_file_name zone resource_id time =
    codes "resourceId="
    ++ (resource_id ++ (codes "/" ++ (format_file_time zone time ++ codes "/m=00/PT1H.json")))
