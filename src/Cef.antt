-- ===== src/Cef.antt =====
-- parser/cef.go: the CEF event and its constants.
pub mod Value
pub mod Extension
pub mod Syslog
pub mod Formatter
use nsg_parser.Prelude.{ℕ, [], Text, codes, if◌then◌else◌, text_eq}
use nsg_parser.Prelude.Int.{ℤ}
use nsg_parser.Time.{Time, zero_time}
use nsg_parser.Dict.{Dict}

-- The first four fields are pointers to package variables that nothing writes.
pub record CefEvent : Type 0 where
  pub cef_version : ℕ
  pub device_vendor : Text
  pub device_product : Text
  pub device_version : Text
  pub device_event_class_id : Text
  pub time : Time
  pub name : Text
  pub severity : ℕ
  pub extension : Dict Text

pub record GetCefEventListOptions : Type 0 where
  pub start_time : Time

abbrev pub nsg_device_vendor : Text
nsg_device_vendor = codes "Microsoft"

abbrev pub nsg_device_product : Text
nsg_device_product = codes "Azure NSG"

abbrev pub nsg_device_version : Text
nsg_device_version = codes "1"

-- A key that a Go map lacks gives the zero value of the values' type.
abbrev pub protocol_map : Text → Text
protocol_map p =
    if text_eq p (codes "T") then codes "TCP" else if text_eq p (codes "U") then codes "UDP" else []

abbrev pub cef_direction_map : Text → ℕ
cef_direction_map d = if text_eq d (codes "I") then 0 else if text_eq d (codes "O") then 1 else 0

abbrev pub cef_outcome_map : Text → Text
cef_outcome_map o =
    if text_eq o (codes "A")
    then codes "Allow"
    else if text_eq o (codes "D")
    then codes "Deny"
    else []

abbrev pub new_azure_cef_event_for_product : Text → CefEvent
new_azure_cef_event_for_product product = record {
  cef_version = 0;
  device_vendor = nsg_device_vendor;
  device_product = product;
  device_version = nsg_device_version;
  device_event_class_id = [];
  time = zero_time;
  name = [];
  severity = 0;
  extension = [];
}

abbrev pub new_azure_cef_event : CefEvent
new_azure_cef_event = record {
  cef_version = 0;
  device_vendor = nsg_device_vendor;
  device_product = nsg_device_product;
  device_version = nsg_device_version;
  device_event_class_id = [];
  time = zero_time;
  name = [];
  severity = 0;
  extension = [];
}
