-- ===== src/AppGw/Firewall/LogFile.antt =====
-- parser/appgw_firewall_log_file.go: the log file of this kind, and what it does behind the
-- interface. The text is that of parser/event_log_file.go again, for another type of record.
use nsg_parser.SourceName.FromLog.{short_name}
use nsg_parser.Prelude.Int.{ℤ}
use nsg_parser.AppGw.Firewall.{AzureAppGwFirewallEventRecord}
use nsg_parser.LogFile.Interface.{Getters, Setters, Loading, AzureLogFile}
use nsg_parser.FileName.{Error}
use nsg_parser.Outcome.{Outcome}
use nsg_parser.LogFile.{
  BlobRange, EventLog, LogFile, whole_range, get_records, Source, load_azure_nsg_event_records,
  get_unprocessed_blob_range, load_blob_range,
}
use nsg_parser.Prelude.{ℕ, refl, Option, List, Text}

abbrev pub AzureAppGwFirewallLogFile : Type 0
AzureAppGwFirewallLogFile = LogFile AzureAppGwFirewallEventRecord

abbrev pub AzureAppGwFirewallAccessLog : Type 0
AzureAppGwFirewallAccessLog = EventLog AzureAppGwFirewallEventRecord

-- `GetRecords` has the loop of the other event logs, and its one variable.
abbrev pub app_gw_firewall_get_records :
    AzureAppGwFirewallAccessLog → AzureAppGwFirewallAccessLog × List ℕ
app_gw_firewall_get_records log = get_records log

abbrev pub app_gw_firewall_getters : Getters AzureAppGwFirewallLogFile AzureAppGwFirewallEventRecord
app_gw_firewall_getters = record {
  get_name = λ f. f.name;
  get_nsg_name = λ f. f.nsg_name;
  get_etag = λ f. f.etag;
  get_log_time = λ f. f.log_time;
  get_azure_event_log = λ f. f.event_log;
  get_last_processed = λ f. f.last_processed;
  get_last_processed_record = λ f. f.last_processed_record;
  get_last_processed_time_stamp = λ f. f.last_processed_time_stamp;
  get_last_record_count = λ f. f.last_record_count;
  get_last_modified = λ f. f.last_modified;
  get_last_processed_range = λ f. f.last_processed_range;
  get_blob = λ f. f.blob;
}

abbrev pub app_gw_firewall_setters : Setters AzureAppGwFirewallLogFile
app_gw_firewall_setters = record {
  set_last_processed = λ f t. record f { last_processed = t };
  set_last_record_count = λ f n. record f { last_record_count = n };
  set_last_processed_record = λ f t. record f { last_processed_record = t };
  set_last_processed_range = λ f span. record f { last_processed_range = span };
  set_last_processed_time_stamp = λ f stamp. record f { last_processed_time_stamp = stamp };
}

abbrev pub app_gw_firewall_unprocessed_blob_range : AzureAppGwFirewallLogFile → BlobRange
app_gw_firewall_unprocessed_blob_range f = get_unprocessed_blob_range f

module _ (source : Source AzureAppGwFirewallEventRecord) where
  abbrev pub app_gw_firewall_load_azure_nsg_event_records :
      AzureAppGwFirewallLogFile → List ℕ → AzureAppGwFirewallLogFile × Option Error
  app_gw_firewall_load_azure_nsg_event_records f payload =
      load_azure_nsg_event_records source f payload

  abbrev pub app_gw_firewall_load_blob_range :
      AzureAppGwFirewallLogFile → BlobRange → Outcome (AzureAppGwFirewallLogFile × Option Error)
  app_gw_firewall_load_blob_range f span = load_blob_range source f span

  abbrev pub app_gw_firewall_load_blob :
      AzureAppGwFirewallLogFile → Outcome (AzureAppGwFirewallLogFile × Option Error)
  app_gw_firewall_load_blob f =
      app_gw_firewall_load_blob_range f (whole_range f.blob.content_length)

  abbrev pub app_gw_firewall_loading : Loading AzureAppGwFirewallLogFile
  app_gw_firewall_loading = record {
    load_blob = app_gw_firewall_load_blob;
    load_blob_range = app_gw_firewall_load_blob_range;
    get_unprocessed_blob_range = app_gw_firewall_unprocessed_blob_range;
  }

  abbrev pub app_gw_firewall_log_file :
      AzureLogFile AzureAppGwFirewallLogFile AzureAppGwFirewallEventRecord
  app_gw_firewall_log_file = record {
    getters = app_gw_firewall_getters;
    setters = app_gw_firewall_setters;
    loading = app_gw_firewall_loading;
    processed_set = λ f t. refl;
    count_set = λ f n. refl;
    record_set = λ f t. refl;
    range_set = λ f span. refl;
    time_stamp_set = λ f stamp. refl;
  }

abbrev pub app_gw_firewall_short_name : (ℤ → ℤ) → AzureAppGwFirewallLogFile → Text
app_gw_firewall_short_name zone f = short_name zone f
