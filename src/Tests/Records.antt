-- ===== src/Tests/Records.antt =====
-- The conversion of records, at concrete ones.

use nsg_parser.Tests.Data.{minute, no_options, sample_flows, nsg_record, first_record}
use nsg_parser.Prelude.Int.{ℤ, pos}
use nsg_parser.AppGw.Access.{
  AzureAppGwEventRecord, convert_application_gateway_events_to_cef, get_cef_list_total_access,
  convert-Describes_access,
}
use nsg_parser.AppGw.Firewall.{
  AzureAppGwFirewallEventRecord, convert_app_gateway_firewall_events_to_cef,
  get_cef_list_total_firewall, Describes, convert-Describes_firewall,
}
use nsg_parser.Nsg.Flow.Expected.{flow_json, all_tuples, expected_events, expected_errors}
use nsg_parser.Nsg.Flow.Correct.{convert-expected}
use nsg_parser.Nsg.Events.{ensure_init, get_cef_list, get_cef_list_total, convert_bad_flow}
use nsg_parser.Nsg.Record.{AzureNsgEventRecord}
use nsg_parser.Nsg.Flow.{Conversion, nothing, convert_network_security_group_flow_events_to_cef}
use nsg_parser.Outcome.{returned}
use nsg_parser.Cef.{CefEvent}
use nsg_parser.Json.{Json, Fields, items, null, number, string, array, end, field}
use nsg_parser.Prelude.{ℕ, ◌≡◌, refl, true, [], ◌∷◌, ◌++◌, map, Text, codes}
use nsg_parser.Nsg.Events
use nsg_parser.AppGw.Access
use nsg_parser.AppGw.Firewall

convert-expected_example :
    convert_network_security_group_flow_events_to_cef first_record no_options
    ≡ returned (record {
      events = expected_events first_record (all_tuples sample_flows);
      errors = expected_errors (all_tuples sample_flows);
    })
convert-expected_example = convert-expected first_record no_options sample_flows refl refl

abbrev broken_record : AzureNsgEventRecord
broken_record =
    nsg_record (minute 1)
      (field (codes "flows") (array (items (map flow_json sample_flows ++ null ∷ []))) end)

convert_bad_flow_example :
    convert_network_security_group_flow_events_to_cef broken_record no_options ≡ returned nothing
convert_bad_flow_example = convert_bad_flow broken_record no_options sample_flows null [] refl refl

get_cef_list_total_example :
    (c : Conversion) × (Events.get_cef_list broken_record no_options
      ≡ returned (Events.ensure_init broken_record, c))
get_cef_list_total_example = Events.get_cef_list_total broken_record no_options

abbrev access_record : AzureAppGwEventRecord
access_record = record {
  resource_id = codes "/SUBSCRIPTIONS/S1/RESOURCEGROUPS/G1/PROVIDERS/X/APPLICATIONGATEWAYS/A1";
  operation_name = codes "ApplicationGatewayAccess";
  time = minute 3;
  category = codes "ApplicationGatewayAccessLog";
  subscription_id = codes "S1";
  resource_group = codes "G1";
  app_gw_name = codes "A1";
  initialized = true;
  properties = field (codes "clientIP") (string (codes "10.1.1.1")) (
      field (codes "clientPort") (number 4666723172467343360) (
        field (codes "requestUri") (string (codes "/index"))
          (field (codes "httpMethod") (string (codes "GET")) end)));
}

-- The two calls outside, for the records below.
abbrev sample_int : ℕ → ℤ
sample_int bits = pos bits

abbrev sample_marshal : Fields → Text
sample_marshal m = codes "{}"

abbrev sample_show : Json → Text
sample_show j = codes "10000"

convert-Describes_access_example :
    (event : CefEvent) × (convert_application_gateway_events_to_cef sample_int sample_marshal
        access_record no_options
      ≡ returned (record { events = event ∷ []; errors = [] }))
    × Access.Describes sample_int sample_marshal access_record
        (codes "10.1.1.1")
        (codes "/index")
        (codes "GET")
        4666723172467343360
        event
convert-Describes_access_example =
    Access.convert-Describes_access sample_int sample_marshal access_record no_options
      (codes "10.1.1.1") (codes "/index") (codes "GET") 4666723172467343360 refl refl refl refl refl

abbrev firewall_record : AzureAppGwFirewallEventRecord
firewall_record = record {
  resource_id = codes "/SUBSCRIPTIONS/S1/RESOURCEGROUPS/G1/PROVIDERS/X/APPLICATIONGATEWAYS/A1";
  operation_name = codes "ApplicationGatewayFirewall";
  time = minute 3;
  category = codes "ApplicationGatewayFirewallLog";
  subscription_id = codes "S1";
  resource_group = codes "G1";
  app_gw_name = codes "A1";
  initialized = true;
  properties = field (codes "clientIp") (string (codes "10.1.1.1")) (
      field (codes "requestUri") (string (codes "/index")) (
        field (codes "action") (string (codes "Blocked")) (
          field (codes "message") (string (codes "SQL"))
            (field (codes "instanceId") (string (codes "I0")) end))));
}

convert-Describes_firewall_example :
    (event : CefEvent) × (convert_app_gateway_firewall_events_to_cef sample_show sample_marshal
        firewall_record no_options
      ≡ returned (record { events = event ∷ []; errors = [] }))
    × Firewall.Describes sample_show sample_marshal firewall_record
        (codes "10.1.1.1")
        (codes "/index")
        (codes "Blocked")
        (codes "SQL")
        (codes "I0")
        event
convert-Describes_firewall_example =
    Firewall.convert-Describes_firewall sample_show sample_marshal firewall_record no_options
      (codes "10.1.1.1") (codes "/index") (codes "Blocked") (codes "SQL") (codes "I0") refl refl
      refl refl refl refl
