-- ===== src/Tests/Data.antt =====
-- Sample flow logs, records, blobs, and the services around them.
use nsg_parser.Client.Loads.{Loads}
use nsg_parser.Prelude.Int.{pos}
use nsg_parser.Client.Syslog.{CefSyslogClient}
use nsg_parser.Nsg.Flow.Expected.{Flow, flow_json}
use nsg_parser.Nsg.Record.{AzureNsgEventRecord}
use nsg_parser.Time.{Time, zero_time, utc}
use nsg_parser.LogFile.{
  Blob, EventLog, LogFile, get_unprocessed_blob_range, from_index, Source,
  load_azure_nsg_event_records, load_blob_range,
}
use nsg_parser.Cef.{GetCefEventListOptions}
use nsg_parser.Json.{Fields, items, array, end, field}
use nsg_parser.Prelude.{ℕ, ◌+◌, ◌*◌, refl, true, false, none, some, List, [], ◌∷◌, map, Text, codes}

abbrev pub minute : ℕ → Time
minute n = record { sec = pos (63632638800 + 60 * n); nsec = 0; loc = utc }

abbrev pub no_options : GetCefEventListOptions
no_options = record { start_time = zero_time }

abbrev pub sample_flows : List Flow
sample_flows =
    record {
      rule = codes "DefaultRule_AllowInternetOutBound";
      flows =
          record {
            mac = codes "000D3AF87856";
            flow_tuples =
                codes "1497042060,10.0.0.4,13.67.143.118,50000,443,T,O,A"
                ∷ codes "1497042070,10.0.0.4,13.67.143.118,50001,443,T"
                ∷ codes "soon,10.0.0.9,10.0.0.4,50002,22,T,I,D"
                ∷ [];
          }
          ∷ [];
    }
    ∷ []

abbrev pub sample_resource_id : Text
sample_resource_id =
    codes "/SUBSCRIPTIONS/S1/RESOURCEGROUPS/G1/PROVIDERS/MICROSOFT.NETWORK/NETWORKSECURITYGROUPS/N1"

abbrev pub nsg_record : Time → Fields → AzureNsgEventRecord
nsg_record t properties = record {
  time = t;
  system_id = codes "4b7a";
  category = codes "NetworkSecurityGroupFlowEvent";
  resource_id = sample_resource_id;
  operation_name = codes "NetworkSecurityGroupFlowEvents";
  subscription_id = [];
  resource_group = [];
  nsg_name = [];
  initialized = false;
  properties = properties;
}

abbrev pub flow_properties : Fields
flow_properties = field (codes "flows") (array (items (map flow_json sample_flows))) end

abbrev pub first_record : AzureNsgEventRecord
first_record = nsg_record (minute 1) flow_properties

-- It has no time of its own, so it is never later than the start time, and gives no event.
abbrev pub quiet_record : AzureNsgEventRecord
quiet_record = nsg_record zero_time flow_properties

abbrev pub log_of : AzureNsgEventRecord → List AzureNsgEventRecord → EventLog AzureNsgEventRecord
log_of r rs = record { records = r ∷ rs; cells = []; azure_event_records = none }

abbrev pub sample_blob : Blob
sample_blob = record {
  name = codes "resourceId=/NETWORKSECURITYGROUPS/RG-NSG/y=2017/m=06/d=09/h=21/m=00/PT1H.json";
  container_name = codes "insights-logs-networksecuritygroupflowevent";
  etag = codes "0x8D4";
  last_modified = minute 5;
  content_length = pos 400;
}

abbrev pub sample_file : LogFile AzureNsgEventRecord
sample_file = record {
  name = sample_blob.name;
  etag = sample_blob.etag;
  last_modified = sample_blob.last_modified;
  last_processed = zero_time;
  last_processed_record = zero_time;
  last_processed_time_stamp = pos 0;
  last_record_count = 0;
  last_processed_range = record { start = 0; stop = 0 };
  log_time = minute 0;
  blob = sample_blob;
  event_log = none;
  nsg_name = codes "RG-NSG";
}

-- The blob grew, and its file is listed again.
abbrev pub later_file : LogFile AzureNsgEventRecord
later_file = record sample_file {
  last_modified = minute 65;
  blob = record sample_blob { content_length = pos 900; last_modified = minute 65 };
}

-- A storage service that gives one payload, and a decoder that gives the records.
abbrev pub sample_source :
    AzureNsgEventRecord → List AzureNsgEventRecord → Source AzureNsgEventRecord
sample_source r rs = record {
  get_range = λ blob span. some (codes "[{\"time\": \"2017-06-09T21:01:00Z\" }]}");
  unmarshal = λ bytes log. (some (log_of r rs), false);
}

abbrev pub loaded_file :
    AzureNsgEventRecord → List AzureNsgEventRecord → LogFile AzureNsgEventRecord
loaded_file r rs = record sample_file { event_log = some (log_of r rs) }

abbrev pub sample_client : CefSyslogClient
sample_client = record { initialized = true }

pub sample-Loads :
    (r : AzureNsgEventRecord) (rs : List AzureNsgEventRecord)
    → Loads (sample_source r rs) sample_file r rs (loaded_file r rs) (log_of r rs)
unfolding get_unprocessed_blob_range load_blob_range load_azure_nsg_event_records from_index
sample-Loads r rs = record { loaded = refl; has_log = refl; fresh = refl; records_are = refl }

abbrev pub two_records : EventLog AzureNsgEventRecord
two_records = log_of quiet_record (first_record ∷ [])

abbrev pub two_source : Source AzureNsgEventRecord
two_source = sample_source quiet_record (first_record ∷ [])

abbrev pub two_loaded : LogFile AzureNsgEventRecord
two_loaded = loaded_file quiet_record (first_record ∷ [])

-- In place of the format of times.
abbrev pub sample_format : Time → Text
sample_format t = codes "Jun 09 21:00:00"
