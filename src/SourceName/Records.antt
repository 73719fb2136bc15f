-- ===== src/SourceName/Records.antt =====
-- The three types of record as the constructors of log files use them.
use nsg_parser.Nsg.Events.{ensure_init}
use nsg_parser.Nsg.Instance.{ensure_init_resource_id, ensure_init_time}
use nsg_parser.Prelude.Int.{ℤ}
use nsg_parser.AppGw.Access.{AzureAppGwEventRecord}
use nsg_parser.AppGw.Firewall.{AzureAppGwFirewallEventRecord}
use nsg_parser.Nsg.Record.{AzureNsgEventRecord}
use nsg_parser.Prelude.{refl}
use nsg_parser.Nsg.Record
use nsg_parser.Nsg.Instance
use nsg_parser.Nsg.Events
use nsg_parser.AppGw.Access
use nsg_parser.AppGw.Access.Instance as AccessInstance
use nsg_parser.AppGw.Firewall
use nsg_parser.AppGw.Firewall.Instance as FirewallInstance
use nsg_parser.SourceName.FromLog.{SourceRecord}

module _ (zone : ℤ → ℤ) where
  abbrev pub nsg_source_record : SourceRecord AzureNsgEventRecord
  nsg_source_record = record {
    zone = zone;
    resource_id = λ r. r.resource_id;
    get_time = λ r. r.time;
    get_source_file_name = Record.get_source_file_name zone;
    get_log_source_name = Record.get_log_source_name;
    ready = Events.ensure_init;
    name_is = λ r. refl;
    same_id = Instance.ensure_init_resource_id;
    same_time = Instance.ensure_init_time;
  }

  abbrev pub app_gw_source_record : SourceRecord AzureAppGwEventRecord
  app_gw_source_record = record {
    zone = zone;
    resource_id = λ r. r.resource_id;
    get_time = λ r. r.time;
    get_source_file_name = Access.get_source_file_name zone;
    get_log_source_name = Access.get_log_source_name;
    ready = Access.ensure_init;
    name_is = λ r. refl;
    same_id = AccessInstance.ensure_init_resource_id;
    same_time = AccessInstance.ensure_init_time;
  }

  abbrev pub app_gw_firewall_source_record : SourceRecord AzureAppGwFirewallEventRecord
  app_gw_firewall_source_record = record {
    zone = zone;
    resource_id = λ r. r.resource_id;
    get_time = λ r. r.time;
    get_source_file_name = Firewall.get_source_file_name zone;
    get_log_source_name = Firewall.get_log_source_name;
    ready = Firewall.ensure_init;
    name_is = λ r. refl;
    same_id = FirewallInstance.ensure_init_resource_id;
    same_time = FirewallInstance.ensure_init_time;
  }
