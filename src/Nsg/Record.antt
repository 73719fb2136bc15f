-- ===== src/Nsg/Record.antt =====
-- `AzureNsgEventRecord` of parser/event_record.go: the fields, the names read out of the resource
-- id, the event skeleton.
use nsg_parser.SourceName.{source_file_name}
use nsg_parser.Prelude.Int.{ℤ}
use nsg_parser.Resource.{resource_regexp}
use nsg_parser.Outcome.{Outcome, returned, panicked}
use nsg_parser.Time.{Time, after, before}
use nsg_parser.Cef.{CefEvent, new_azure_cef_event}
use nsg_parser.Regex.{Regex, Captures, find_submatch}
use nsg_parser.Dict.{put}
use nsg_parser.Json.{Fields}
use nsg_parser.Prelude.{
  ℕ, Bool, true, Option, some, List, [], ◌∷◌, if◌then◌else◌, get_elem?, Text, codes, text_eq, ◌≡◌,
  refl,
}

pub record AzureNsgEventRecord : Type 0 where
  pub time : Time
  pub system_id : Text
  pub category : Text
  pub resource_id : Text
  pub operation_name : Text
  pub subscription_id : Text
  pub resource_group : Text
  pub nsg_name : Text
  pub initialized : Bool
  pub properties : Fields

abbrev pub record_regexp : Regex
record_regexp = resource_regexp (codes "NETWORKSECURITYGROUPS/")

-- Without four tokens (the match and three groups) the record is marked as initialized, and with
-- them it is not.
abbrev pub set_names : AzureNsgEventRecord → Option Captures → AzureNsgEventRecord
set_names r (some (subscription ∷ group_name ∷ name ∷ [])) = record r {
  subscription_id = subscription;
  resource_group = group_name;
  nsg_name = name;
}
set_names r _ = record r { initialized = true }

unfoldable pub init_record : AzureNsgEventRecord → AzureNsgEventRecord
init_record r = set_names r (find_submatch record_regexp r.resource_id)

-- The keys that the skeleton sets, in the order of the assignments.
unfoldable pub new_cef_event : AzureNsgEventRecord → CefEvent
new_cef_event r =
    let m0 = put (codes "deviceExternalId") r.system_id [] in
    let m1 = put (codes "cs2") r.nsg_name m0 in
    let m2 = put (codes "cs2label") (codes "Azure NSG") m1 in
    let m3 = put (codes "cs3") r.subscription_id m2 in
    let m4 = put (codes "cs3label") (codes "Subscription ID") m3 in
    let m5 = put (codes "cs4") r.resource_group m4 in
    let m6 = put (codes "cs4label") (codes "Resource Group") m5 in
    record new_azure_cef_event {
      name = r.category;
      device_event_class_id = r.operation_name;
      extension = m6;
    }

abbrev pub flow_events : Text
flow_events = codes "NetworkSecurityGroupFlowEvents"

abbrev pub group_events : Text
group_events = codes "NetworkSecurityGroupEvents"

abbrev pub get_source_file_name : (ℤ → ℤ) → AzureNsgEventRecord → Text
get_source_file_name zone r = source_file_name zone r.resource_id r.time

unfoldable pub get_source_container_name : AzureNsgEventRecord → Text
get_source_container_name r =
    if text_eq r.operation_name flow_events
    then codes "insights-logs-networksecuritygroupflowevent"
    else if text_eq r.operation_name group_events
    then codes "insights-logs-networksecuritygroupevent"
    else []

abbrev pub get_log_source_name : AzureNsgEventRecord → Text
get_log_source_name r = r.nsg_name

-- `Less` of `AzureNsgEventRecords`. An index out of range panics.
abbrev pub less_of : Option AzureNsgEventRecord → Option AzureNsgEventRecord → Outcome Bool
less_of (some a) (some b) = returned (before a.time b.time)
less_of _ _ = panicked

unfoldable pub less : List AzureNsgEventRecord → ℕ → ℕ → Outcome Bool
less rs i j = less_of (get_elem? rs i) (get_elem? rs j)

-- `After` keeps the records that are later than the given time.
unfoldable pub records_after : Time → List AzureNsgEventRecord → List AzureNsgEventRecord
records_after t [] = []
records_after t (r ∷ rs) = if after r.time t then r ∷ records_after t rs else records_after t rs

-- `Before` has the body of `After`.
unfoldable pub records_before : Time → List AzureNsgEventRecord → List AzureNsgEventRecord
records_before t [] = []
records_before t (r ∷ rs) = if after r.time t then r ∷ records_before t rs else records_before t rs

-- Before gives what After gives: the records of network security groups that are later than the
-- given time.
pub records_before_same :
    (t : Time) (rs : List AzureNsgEventRecord) → records_before t rs ≡ records_after t rs
unfolding records_before records_after
records_before_same t [] = refl
records_before_same t (r ∷ rs) = rw (records_before_same t rs) refl
