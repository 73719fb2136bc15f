-- ===== src/Nsg/Flow/Expected.antt =====
-- Flow logs as typed data, their JSON, and the events and errors that each tuple stands for, with
-- no loop and no state.
use nsg_parser.Prelude.Int.{◌*ℤ◌, wrap64, format_ℤ, pos}
use nsg_parser.Cef.Value.{format_mac}
use nsg_parser.Nsg.Record.{AzureNsgEventRecord}
use nsg_parser.Time.{unix}
use nsg_parser.Cef.{CefEvent, protocol_map}
use nsg_parser.Strconv.{NumError, parse_int}
use nsg_parser.Json.{Json, items, string, array, object, end, field}
use nsg_parser.Prelude.{
  ℕ, Bool, not, ◌&&◌, Option, none, some, List, [], ◌∷◌, ◌++◌, map, ◌==◌, if◌then◌else◌, length,
  Text, codes, text_eq, split,
}
use nsg_parser.Nsg.Flow.{ConvertError, unexpected_tokens, bad_number, token}

pub record SubFlow : Type 0 where
  pub mac : Text
  pub flow_tuples : List Text

pub record Flow : Type 0 where
  pub rule : Text
  pub flows : List SubFlow

abbrev pub sub_flow_json : SubFlow → Json
sub_flow_json s = object (
    field (codes "mac") (string s.mac)
      (field (codes "flowTuples") (array (items (map string s.flow_tuples))) end))

abbrev pub flow_json : Flow → Json
flow_json f = object (
    field (codes "rule") (string f.rule)
      (field (codes "flows") (array (items (map sub_flow_json f.flows))) end))

-- `I` and all that is not `O` is inbound.
abbrev pub is_outbound : List Text → Bool
is_outbound tokens =
    not (text_eq (token tokens 6) (codes "I")) && text_eq (token tokens 6) (codes "O")

abbrev pub outcome_text : Text → Text
outcome_text o =
    if text_eq o (codes "A")
    then codes "Allow"
    else if text_eq o (codes "D")
    then codes "Deny"
    else codes "Unknown"

abbrev pub outcome_severity : Text → ℕ
outcome_severity o = if text_eq o (codes "A") then 0 else if text_eq o (codes "D") then 6 else 4

-- The whole event of a tuple, as a table.
unfoldable pub event_of : AzureNsgEventRecord → Text → Text → List Text → CefEvent
event_of r rule mac tokens = record {
  cef_version = 0;
  device_vendor = codes "Microsoft";
  device_product = codes "Azure NSG";
  device_version = codes "1";
  device_event_class_id = r.operation_name;
  time = unix (parse_int (token tokens 0)).0;
  name = r.category;
  severity = outcome_severity (token tokens 7);
  extension =
      (codes "deviceExternalId", r.system_id)
      ∷ (codes "cs2", r.nsg_name)
      ∷ (codes "cs2label", codes "Azure NSG")
      ∷ (codes "cs3", r.subscription_id)
      ∷ (codes "cs3label", codes "Subscription ID")
      ∷ (codes "cs4", r.resource_group)
      ∷ (codes "cs4label", codes "Resource Group")
      ∷ (codes "cs1", rule)
      ∷ (codes "cs1label", codes "Rule Name")
      ∷ (codes "start", format_ℤ (wrap64 (pos 1000 *ℤ (parse_int (token tokens 0)).0)))
      ∷ (codes "src", token tokens 1)
      ∷ (codes "dst", token tokens 2)
      ∷ (codes "spt", token tokens 3)
      ∷ (codes "dpt", token tokens 4)
      ∷ (codes "proto", protocol_map (token tokens 5))
      ∷ (codes "deviceDirection", if is_outbound tokens then codes "1" else codes "0")
      ∷ ((if is_outbound tokens then codes "smac" else codes "dmac"), format_mac mac)
      ∷ (codes "categoryOutcome", outcome_text (token tokens 7))
      ∷ [];
}

abbrev pub tokens_of : Text → List Text
tokens_of t = split t b','

abbrev pub is_complete : Text → Bool
is_complete t = length (tokens_of t) == 8

abbrev pub tuple_events : AzureNsgEventRecord → Text → Text → Text → List CefEvent
tuple_events r rule mac t = if is_complete t then event_of r rule mac (tokens_of t) ∷ [] else []

abbrev pub number_errors : Text → Option NumError → List ConvertError
number_errors s none = []
number_errors s (some e) = bad_number e s ∷ []

abbrev pub tuple_errors : Text → List ConvertError
tuple_errors t =
    if is_complete t
    then number_errors (token (tokens_of t) 0) (parse_int (token (tokens_of t) 0)).1
    else unexpected_tokens t ∷ []

-- All tuples of a record, in order, each with the rule and the MAC address that it belongs to.
abbrev pub sub_flow_tuples : Text → List SubFlow → List (Text × Text × Text)
sub_flow_tuples rule [] = []
sub_flow_tuples rule (s ∷ ss) = map (λ t. (rule, s.mac, t)) s.flow_tuples ++ sub_flow_tuples rule ss

abbrev pub all_tuples : List Flow → List (Text × Text × Text)
all_tuples [] = []
all_tuples (f ∷ fs) = sub_flow_tuples f.rule f.flows ++ all_tuples fs

abbrev pub expected_events : AzureNsgEventRecord → List (Text × Text × Text) → List CefEvent
expected_events r [] = []
expected_events r ((rule, mac, t) ∷ ts) = tuple_events r rule mac t ++ expected_events r ts

abbrev pub expected_errors : List (Text × Text × Text) → List ConvertError
expected_errors [] = []
expected_errors ((rule, mac, t) ∷ ts) = tuple_errors t ++ expected_errors ts
