-- ===== src/Tests/Agree.antt =====
-- Both clients on one payload of two records.
use nsg_parser.Client.Loads.{Loads}
use nsg_parser.Cef.{CefEvent, GetCefEventListOptions}
use nsg_parser.Nsg.Flow.{Conversion, nothing}
use nsg_parser.Outcome.{returned}
use nsg_parser.Time.{Time, after, zero_time}
use nsg_parser.Prelude.Int.{pos}
use nsg_parser.LogFile.{EventRecord, EventLog, LogFile, Source}
use nsg_parser.Tests.Data.{minute, sample_blob}
use nsg_parser.Prelude.{◌≡◌, refl, ap, false, if◌then◌else◌, none, some, [], ◌∷◌, codes}
use nsg_parser.Client.File
use nsg_parser.Client.Syslog

-- A record that is its time, and gives one event.
abbrev event_at : Time → CefEvent
event_at t = record {
  cef_version = 0;
  device_vendor = codes "Microsoft";
  device_product = codes "Azure NSG";
  device_version = codes "1";
  device_event_class_id = codes "nsg-flow";
  time = t;
  name = codes "nsg-flow";
  severity = 0;
  extension = [];
}

abbrev one_event : Time → GetCefEventListOptions → Conversion
one_event t o =
    if after t o.start_time then record { events = event_at t ∷ []; errors = [] } else nothing

early :
    (t : Time) (o : GetCefEventListOptions) → after t o.start_time ≡ false → one_event t o ≡ nothing
early t o h = rw h refl

instance abbrev time_record : EventRecord Time
time_record = record {
  get_time = λ t. t;
  ready = λ t. t;
  cef_list = λ t o. returned (t, one_event t o);
  cef_list_total = λ t o. (one_event t o, refl);
  cef_list_early = λ t o h. ap (λ c. returned (t, c)) (early t o h);
  cef_list-ready = λ t o. refl;
  time_ready = λ t. refl;
}

abbrev time_log : EventLog Time
time_log = record { records = minute 1 ∷ minute 2 ∷ []; cells = []; azure_event_records = none }

abbrev time_source : Source Time
time_source = record {
  get_range = λ blob span. some (codes "[{\"time\": \"2017-06-09T21:01:00Z\" }]}");
  unmarshal = λ bytes log. (some time_log, false);
}

abbrev time_file : LogFile Time
time_file = record {
  name = sample_blob.name;
  etag = sample_blob.etag;
  last_modified = sample_blob.last_modified;
  last_processed = zero_time;
  last_processed_record = zero_time;
  last_processed_time_stamp = pos 0;
  last_record_count = 0;
  last_processed_range = record { start = 0; stop = 0 };
  log_time = minute 0;
  blob = sample_blob;
  event_log = none;
  nsg_name = codes "RG-NSG";
}

abbrev time_loaded : LogFile Time
time_loaded = record time_file { event_log = some time_log }
