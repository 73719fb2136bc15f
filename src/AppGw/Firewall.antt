-- ===== src/AppGw/Firewall.antt =====
-- `AzureAppGwFirewallEventRecord` of parser/appgw_firewall_record.go.
pub mod Instance
pub mod LogFile
use nsg_parser.SourceName.{source_file_name}
use nsg_parser.Prelude.Int.{ℤ}
use nsg_parser.Dict.{lookup}
use nsg_parser.Nsg.Flow.{Conversion, nothing, add_event, set_extension}
use nsg_parser.Outcome.{Outcome, ◌>>=◌, recover_with, returned, panicked}
use nsg_parser.AppGw.{
  app_gw_record_regexp, Small, as_string-Small, if-Small, nothing-Small, recover_with-Small,
}
use nsg_parser.Time.{Time, after, before}
use nsg_parser.Cef.{CefEvent, GetCefEventListOptions, new_azure_cef_event_for_product}
use nsg_parser.Regex.{Captures, find_submatch}
use nsg_parser.Json.{Fields, get, as_string, string, Json}
use nsg_parser.Prelude.{
  ◌≤◌, ◌≡◌, refl, inl, inr, Bool, true, Option, some, [], ◌∷◌, if◌then◌else◌, Bool-cases, length,
  Text, codes, text_eq, arith, ℕ, List, get_elem?,
}

pub record AzureAppGwFirewallEventRecord : Type 0 where
  pub resource_id : Text
  pub operation_name : Text
  pub time : Time
  pub category : Text
  pub subscription_id : Text
  pub resource_group : Text
  pub app_gw_name : Text
  pub initialized : Bool
  pub properties : Fields

abbrev pub set_names :
    AzureAppGwFirewallEventRecord → Option Captures → AzureAppGwFirewallEventRecord
set_names r (some (subscription ∷ group_name ∷ name ∷ [])) = record r {
  subscription_id = subscription;
  resource_group = group_name;
  app_gw_name = name;
}
set_names r _ = record r { initialized = true }

unfoldable pub init_record : AzureAppGwFirewallEventRecord → AzureAppGwFirewallEventRecord
init_record r = set_names r (find_submatch app_gw_record_regexp r.resource_id)

-- The skeleton, in the order of the assignments.
unfoldable pub new_cef_event : AzureAppGwFirewallEventRecord → CefEvent
new_cef_event r = set_extension "cs4label" (codes "Resource Group") (
    set_extension "cs4" r.resource_group (
      set_extension "cs3label" (codes "Subscription ID") (
        set_extension "cs3" r.subscription_id (
          set_extension "cs2label" (codes "Azure Application Gateway") (
            set_extension "cs2" r.app_gw_name
              (record (new_azure_cef_event_for_product (codes "Azure Application Gateway")) {
                name = r.app_gw_name;
                device_event_class_id = r.category;
              }))))))

abbrev pub firewall_operation : Text
firewall_operation = codes "ApplicationGatewayFirewall"

abbrev pub ensure_init : AzureAppGwFirewallEventRecord → AzureAppGwFirewallEventRecord
ensure_init r = if r.initialized then r else init_record r

abbrev pub get_source_file_name : (ℤ → ℤ) → AzureAppGwFirewallEventRecord → Text
get_source_file_name zone r = source_file_name zone r.resource_id r.time

abbrev pub get_log_source_name : AzureAppGwFirewallEventRecord → Text
get_log_source_name r = r.app_gw_name

unfoldable pub get_source_container_name : AzureAppGwFirewallEventRecord → Text
get_source_container_name r =
    if text_eq r.operation_name firewall_operation
    then codes "insights-logs-applicationgatewayfirewalllog"
    else []

-- `Less` of the slice. An index out of range panics.
abbrev pub less_of :
    Option AzureAppGwFirewallEventRecord → Option AzureAppGwFirewallEventRecord → Outcome Bool
less_of (some a) (some b) = returned (before a.time b.time)
less_of _ _ = panicked

unfoldable pub less : List AzureAppGwFirewallEventRecord → ℕ → ℕ → Outcome Bool
less rs i j = less_of (get_elem? rs i) (get_elem? rs j)

unfoldable pub records_after :
    Time → List AzureAppGwFirewallEventRecord → List AzureAppGwFirewallEventRecord
records_after t [] = []
records_after t (r ∷ rs) = if after r.time t then r ∷ records_after t rs else records_after t rs

-- `Before` has the body of `After`.
unfoldable pub records_before :
    Time → List AzureAppGwFirewallEventRecord → List AzureAppGwFirewallEventRecord
records_before t [] = []
records_before t (r ∷ rs) = if after r.time t then r ∷ records_before t rs else records_before t rs

-- Outside: `fmt.Sprintf("%v", v)`, and `json.Marshal`, whose bytes are empty where it fails.
module _ (show_value : Json → Text) (marshal : Fields → Text) where
  -- The body behind the deferred `recover()`.
  unfoldable pub convert_body :
      AzureAppGwFirewallEventRecord → GetCefEventListOptions → Outcome Conversion
  convert_body r options =
      if after r.time options.start_time
      then (do
        let e0 = record (new_cef_event r) { time = r.time }
        ip ← as_string (get (codes "clientIp") r.properties)
        let e1 = set_extension "src" ip e0
        let e2 = set_extension "spt" (show_value (get (codes "clientPort") r.properties)) e1
        uri ← as_string (get (codes "requestUri") r.properties)
        let e3 = set_extension "cs1label" (codes "requestUri") (set_extension "cs1" uri e2)
        action ← as_string (get (codes "action") r.properties)
        let e4 = set_extension "act" action e3
        message ← as_string (get (codes "message") r.properties)
        let e5 = set_extension "cs5label" (codes "message") (set_extension "cs5" message e4)
        instance_id ← as_string (get (codes "instanceId") r.properties)
        let e6 = set_extension "cs6label" (codes "instanceId") (set_extension "cs6" instance_id e5)
        let e7 = set_extension "msg" (marshal r.properties) e6
        returned (add_event e7 nothing))
      else returned nothing

  unfoldable pub convert_app_gateway_firewall_events_to_cef :
      AzureAppGwFirewallEventRecord → GetCefEventListOptions → Outcome Conversion
  convert_app_gateway_firewall_events_to_cef r options =
      recover_with nothing (convert_body r options)

  unfoldable pub get_cef_list :
      AzureAppGwFirewallEventRecord
      → GetCefEventListOptions
      → Outcome (AzureAppGwFirewallEventRecord × Conversion)
  get_cef_list r options = do
    let r' = ensure_init r
    c ←
        (if text_eq r'.operation_name firewall_operation
          then convert_app_gateway_firewall_events_to_cef r' options
          else returned nothing)
    returned (r', c)

  convert_body-Small :
      (r : AzureAppGwFirewallEventRecord) (o : GetCefEventListOptions) → Small (convert_body r o)
  unfolding convert_body
  convert_body-Small r o =
      if-Small (after r.time o.start_time) _ _
        (as_string-Small (get (codes "clientIp") r.properties) _ (λ ip.
          as_string-Small (get (codes "requestUri") r.properties) _ (λ uri.
            as_string-Small (get (codes "action") r.properties) _ (λ action.
              as_string-Small (get (codes "message") r.properties) _ (λ message.
                as_string-Small (get (codes "instanceId") r.properties) _
                  (λ id. (refl, omega arith)))))))
        nothing-Small

  -- GetCEFList of a firewall record returns whatever the properties hold, with the record
  -- initialized, at most one event and no error.
  pub get_cef_list_total_firewall :
      (r : AzureAppGwFirewallEventRecord) (o : GetCefEventListOptions)
      → (c : Conversion) × (get_cef_list r o ≡ returned (ensure_init r, c))
        × (c.errors ≡ [])
        × (length c.events ≤ 1)
  unfolding get_cef_list convert_app_gateway_firewall_events_to_cef
  get_cef_list_total_firewall r o =
      let (c, e, s, t) =
        recover_with-Small (convert_body (ensure_init r) o)
          (convert_body-Small (ensure_init r) o) in
      elim (Bool-cases (text_eq (ensure_init r).operation_name firewall_operation)) [
        | inl h ↦ (c, rw h (rw e refl), s, t)
        | inr h ↦ (nothing, rw h refl, refl, omega arith)
      ]

  -- What the one event of a record says.
  pub record Describes (r : AzureAppGwFirewallEventRecord)
      (ip uri action message instance_id : Text) (event : CefEvent) : Type 0 where
    pub time_is : event.time ≡ r.time
    pub class_is : event.device_event_class_id ≡ r.category
    pub src_is : lookup (codes "src") event.extension ≡ some ip
    pub spt_is :
        lookup (codes "spt") event.extension
        ≡ some (show_value (get (codes "clientPort") r.properties))
    pub cs1_is : lookup (codes "cs1") event.extension ≡ some uri
    pub act_is : lookup (codes "act") event.extension ≡ some action
    pub cs5_is : lookup (codes "cs5") event.extension ≡ some message
    pub cs6_is : lookup (codes "cs6") event.extension ≡ some instance_id
    pub msg_is : lookup (codes "msg") event.extension ≡ some (marshal r.properties)
    pub cs2_is : lookup (codes "cs2") event.extension ≡ some r.app_gw_name
    pub cs3_is : lookup (codes "cs3") event.extension ≡ some r.subscription_id
    pub cs4_is : lookup (codes "cs4") event.extension ≡ some r.resource_group

  abbrev firewall_event :
      AzureAppGwFirewallEventRecord → Text → Text → Text → Text → Text → CefEvent
  firewall_event r ip uri action message instance_id = set_extension "msg" (marshal r.properties) (
      set_extension "cs6label" (codes "instanceId") (
        set_extension "cs6" instance_id (
          set_extension "cs5label" (codes "message") (
            set_extension "cs5" message (
              set_extension "act" action (
                set_extension "cs1label" (codes "requestUri") (
                  set_extension "cs1" uri (
                    set_extension "spt" (show_value (get (codes "clientPort") r.properties))
                      (set_extension "src" ip (record (new_cef_event r) { time = r.time }))))))))))

  -- A firewall record that is later than the start time and has its five texts gives one event and
  -- no error, whatever its port is; the event has the record's time and category, and its extension
  -- names the client's address and port, the URI, the action, the message, the instance, all the
  -- properties, the gateway, the subscription and the group.
  pub convert-Describes_firewall :
      (r : AzureAppGwFirewallEventRecord) (o : GetCefEventListOptions)
      (ip uri action message instance_id : Text)
      → after r.time o.start_time ≡ true
      → get (codes "clientIp") r.properties ≡ string ip
      → get (codes "requestUri") r.properties ≡ string uri
      → get (codes "action") r.properties ≡ string action
      → get (codes "message") r.properties ≡ string message
      → get (codes "instanceId") r.properties ≡ string instance_id
      → (event : CefEvent) × (convert_app_gateway_firewall_events_to_cef r o
          ≡ returned (record { events = event ∷ []; errors = [] }))
        × Describes r ip uri action message instance_id event
  unfolding convert_app_gateway_firewall_events_to_cef convert_body new_cef_event
  convert-Describes_firewall r o ip uri action message instance_id h e1 e2 e3 e4 e5 = (
    firewall_event r ip uri action message instance_id,
    rw h (rw (e1, e2, e3, e4, e5) refl),
    record {
      time_is = refl;
      class_is = refl;
      src_is = refl;
      spt_is = refl;
      cs1_is = refl;
      act_is = refl;
      cs5_is = refl;
      cs6_is = refl;
      msg_is = refl;
      cs2_is = refl;
      cs3_is = refl;
      cs4_is = refl;
    },
  )
