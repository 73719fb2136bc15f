-- ===== src/Nsg/Flow.antt =====
-- `convertNetworkSecurityGroupFlowEventsToCEF` of parser/event_record.go, loop by loop.
pub mod Expected
pub mod Correct
use nsg_parser.Nsg.Record.{AzureNsgEventRecord, new_cef_event}
use nsg_parser.Cef.{
  CefEvent, GetCefEventListOptions, protocol_map, cef_direction_map, cef_outcome_map,
}
use Prim.Native.String.{String}
use nsg_parser.Prelude.Int.{ℤ, ◌*ℤ◌, wrap64, format_ℕ, format_ℤ, pos}
use nsg_parser.Cef.Value.{format_mac}
use nsg_parser.Outcome.{Outcome, recover_with, returned, ◌>>=◌}
use nsg_parser.Time.{unix, after}
use nsg_parser.Strconv.{NumError, parse_int}
use nsg_parser.Dict.{put}
use nsg_parser.Json.{Json, Fields, get, as_string, as_array, as_object, number}
use nsg_parser.Prelude.{
  ℕ, Option, none, some, List, [], ◌∷◌, ◌++◌, ◌==◌, if◌then◌else◌, length, get_or, Text, codes,
  text_eq, split,
}

pub data ConvertError : Type 0 where
  unexpected_tokens : Text → ConvertError
  bad_number : NumError → Text → ConvertError

pub record Conversion : Type 0 where
  pub events : List CefEvent
  pub errors : List ConvertError

abbrev pub nothing : Conversion
nothing = record { events = []; errors = [] }

abbrev pub add_error : ConvertError → Conversion → Conversion
add_error e out = record out { errors = out.errors ++ e ∷ [] }

abbrev pub add_event : CefEvent → Conversion → Conversion
add_event e out = record out { events = out.events ++ e ∷ [] }

-- `event.Extension[key] = value`.
abbrev pub set_extension : String → Text → CefEvent → CefEvent
set_extension key value e = record e { extension = put (codes key) value e.extension }

-- `tuples[i]`, where there are eight.
abbrev pub token : List Text → ℕ → Text
token tuples i = get_or tuples i []

-- The switch on the direction: it reads the MAC address only in its cases.
abbrev pub set_mac : ℕ → Fields → CefEvent → Outcome CefEvent
set_mac direction sub e =
    if direction == 0
    then (do
      mac ← as_string (get (codes "mac") sub)
      returned (set_extension "dmac" (format_mac mac) e))
    else if direction == 1
    then (do
      mac ← as_string (get (codes "mac") sub)
      returned (set_extension "smac" (format_mac mac) e))
    else returned e

-- The switch on the outcome.
abbrev pub set_outcome : Text → CefEvent → CefEvent
set_outcome outcome e =
    let e' = set_extension "categoryOutcome" outcome e in
    if text_eq outcome (codes "Allow")
    then record e' { severity = 0 }
    else if text_eq outcome (codes "Deny")
    then record e' { severity = 6 }
    else set_extension "categoryOutcome" (codes "Unknown") (record e' { severity = 4 })

abbrev pub add_number_error : Text → Option NumError → Conversion → Conversion
add_number_error s none out = out
add_number_error s (some e) out = add_error (bad_number e s) out

-- The properties that the first six tokens give.
abbrev pub set_addresses : ℤ → List Text → CefEvent → CefEvent
set_addresses epoch tuples e0 =
    let e1 = record e0 { time = unix epoch } in
    let e2 = set_extension "start" (format_ℤ (wrap64 (pos 1000 *ℤ epoch))) e1 in
    let e3 = set_extension "src" (token tuples 1) e2 in
    let e4 = set_extension "dst" (token tuples 2) e3 in
    let e5 = set_extension "spt" (token tuples 3) e4 in
    let e6 = set_extension "dpt" (token tuples 4) e5 in
    set_extension "proto" (protocol_map (token tuples 5)) e6

-- A tuple of eight tokens: a bad number is an error, and the event is made all the same.
unfoldable pub convert_tokens : CefEvent → Fields → List Text → Conversion → Outcome Conversion
convert_tokens event sub tuples out = do
  let number = parse_int (token tuples 0)
  let out' = add_number_error (token tuples 0) number.1 out
  let e1 = set_addresses number.0 tuples event
  let direction = cef_direction_map (token tuples 6)
  let e2 = set_extension "deviceDirection" (format_ℕ direction) e1
  e3 ← set_mac direction sub e2
  returned (add_event (set_outcome (cef_outcome_map (token tuples 7)) e3) out')

unfoldable pub convert_tuple :
    AzureNsgEventRecord → Text → Fields → Json → Conversion → Outcome Conversion
unfolding convert_tokens
convert_tuple r rule sub flow_tuple out = do
  tuple ← as_string flow_tuple
  let e0 = set_extension "cs1" rule (new_cef_event r)
  let e1 = set_extension "cs1label" (codes "Rule Name") e0
  let tuples = split tuple b','
  if length tuples == 8
      then convert_tokens e1 sub tuples out
      else returned (add_error (unexpected_tokens tuple) out)

unfoldable pub convert_tuples :
    AzureNsgEventRecord → Text → Fields → List Json → Conversion → Outcome Conversion
convert_tuples r rule sub [] out = returned out
convert_tuples r rule sub (t ∷ ts) out = do
  out' ← convert_tuple r rule sub t out
  convert_tuples r rule sub ts out'

unfoldable pub convert_sub_flows :
    AzureNsgEventRecord → Text → List Json → Conversion → Outcome Conversion
convert_sub_flows r rule [] out = returned out
convert_sub_flows r rule (s ∷ ss) out = do
  sub ← as_object s
  tuples ← as_array (get (codes "flowTuples") sub)
  out' ← convert_tuples r rule sub tuples out
  convert_sub_flows r rule ss out'

unfoldable pub convert_flows : AzureNsgEventRecord → List Json → Conversion → Outcome Conversion
convert_flows r [] out = returned out
convert_flows r (f ∷ fs) out = do
  flow ← as_object f
  rule ← as_string (get (codes "rule") flow)
  subs ← as_array (get (codes "flows") flow)
  out' ← convert_sub_flows r rule subs out
  convert_flows r fs out'

-- The body under the deferred `recover`.
unfoldable pub convert_body : AzureNsgEventRecord → GetCefEventListOptions → Outcome Conversion
convert_body r options =
    if after r.time options.start_time
    then (do flows ← as_array (get (codes "flows") r.properties); convert_flows r flows nothing)
    else returned nothing

-- The results have no names, so a recovered panic returns two nil slices.
unfoldable pub convert_network_security_group_flow_events_to_cef :
    AzureNsgEventRecord → GetCefEventListOptions → Outcome Conversion
convert_network_security_group_flow_events_to_cef r options =
    recover_with nothing (convert_body r options)
