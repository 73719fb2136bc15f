-- ===== src/AppGw/Access.antt =====
-- `AzureAppGwEventRecord` of parser/appgw_access_record.go.
pub mod Instance
pub mod LogFile
use nsg_parser.SourceName.{source_file_name}
use nsg_parser.Dict.{lookup}
use nsg_parser.Prelude.Int.{ℤ, format_ℤ}
use nsg_parser.Nsg.Flow.{Conversion, nothing, add_event, set_extension}
use nsg_parser.Outcome.{Outcome, ◌>>=◌, recover_with, returned, panicked}
use nsg_parser.AppGw.{
  app_gw_record_regexp, as_number, Small, as_string-Small, as_number-Small, if-Small, nothing-Small,
  recover_with-Small,
}
use nsg_parser.Time.{Time, after, before}
use nsg_parser.Cef.{CefEvent, GetCefEventListOptions, new_azure_cef_event_for_product}
use nsg_parser.Regex.{Captures, find_submatch}
use nsg_parser.Json.{Fields, get, as_string, number, string}
use nsg_parser.Prelude.{
  ℕ, ◌≤◌, ◌≡◌, refl, inl, inr, Bool, true, Option, some, [], ◌∷◌, if◌then◌else◌, Bool-cases, length,
  Text, codes, text_eq, arith, List, get_elem?,
}

pub record AzureAppGwEventRecord : Type 0 where
  pub resource_id : Text
  pub operation_name : Text
  pub time : Time
  pub category : Text
  pub subscription_id : Text
  pub resource_group : Text
  pub app_gw_name : Text
  pub initialized : Bool
  pub properties : Fields

abbrev pub set_names : AzureAppGwEventRecord → Option Captures → AzureAppGwEventRecord
set_names r (some (subscription ∷ group_name ∷ name ∷ [])) = record r {
  subscription_id = subscription;
  resource_group = group_name;
  app_gw_name = name;
}
set_names r _ = record r { initialized = true }

unfoldable pub init_record : AzureAppGwEventRecord → AzureAppGwEventRecord
init_record r = set_names r (find_submatch app_gw_record_regexp r.resource_id)

-- The skeleton, in the order of the assignments.
unfoldable pub new_cef_event : AzureAppGwEventRecord → CefEvent
new_cef_event r = set_extension "cs4label" (codes "Resource Group") (
    set_extension "cs4" r.resource_group (
      set_extension "cs3label" (codes "Subscription ID") (
        set_extension "cs3" r.subscription_id (
          set_extension "cs2label" (codes "Azure Application Gateway") (
            set_extension "cs2" r.app_gw_name
              (record (new_azure_cef_event_for_product (codes "Azure Application Gateway")) {
                name = r.app_gw_name;
                device_event_class_id = r.category;
              }))))))

abbrev pub access_operation : Text
access_operation = codes "ApplicationGatewayAccess"

abbrev pub ensure_init : AzureAppGwEventRecord → AzureAppGwEventRecord
ensure_init r = if r.initialized then r else init_record r

abbrev pub get_source_file_name : (ℤ → ℤ) → AzureAppGwEventRecord → Text
get_source_file_name zone r = source_file_name zone r.resource_id r.time

abbrev pub get_log_source_name : AzureAppGwEventRecord → Text
get_log_source_name r = r.app_gw_name

unfoldable pub get_source_container_name : AzureAppGwEventRecord → Text
get_source_container_name r =
    if text_eq r.operation_name access_operation
    then codes "insights-logs-applicationgatewayaccesslog"
    else []

-- `Less` of the slice. An index out of range panics.
abbrev pub less_of : Option AzureAppGwEventRecord → Option AzureAppGwEventRecord → Outcome Bool
less_of (some a) (some b) = returned (before a.time b.time)
less_of _ _ = panicked

unfoldable pub less : List AzureAppGwEventRecord → ℕ → ℕ → Outcome Bool
less rs i j = less_of (get_elem? rs i) (get_elem? rs j)

unfoldable pub records_after : Time → List AzureAppGwEventRecord → List AzureAppGwEventRecord
records_after t [] = []
records_after t (r ∷ rs) = if after r.time t then r ∷ records_after t rs else records_after t rs

-- `Before` has the body of `After`.
unfoldable pub records_before : Time → List AzureAppGwEventRecord → List AzureAppGwEventRecord
records_before t [] = []
records_before t (r ∷ rs) = if after r.time t then r ∷ records_before t rs else records_before t rs

-- Outside: `int(f)` of a float64, given by its bits, and `json.Marshal`, whose bytes are empty
-- where it fails.
module _ (int_of : ℕ → ℤ) (marshal : Fields → Text) where
  -- The body behind the deferred `recover()`.
  unfoldable pub convert_body : AzureAppGwEventRecord → GetCefEventListOptions → Outcome Conversion
  convert_body r options =
      if after r.time options.start_time
      then (do
        let e0 = record (new_cef_event r) { time = r.time }
        ip ← as_string (get (codes "clientIP") r.properties)
        let e1 = set_extension "src" ip e0
        port ← as_number (get (codes "clientPort") r.properties)
        let e2 = set_extension "spt" (format_ℤ (int_of port)) e1
        uri ← as_string (get (codes "requestUri") r.properties)
        let e3 = set_extension "cs1" uri (set_extension "request" uri e2)
        let e4 = set_extension "cs1label" (codes "requestUri") e3
        method ← as_string (get (codes "httpMethod") r.properties)
        let e5 = set_extension "act" method (set_extension "requestMethod" method e4)
        let e6 = set_extension "msg" (marshal r.properties) e5
        returned (add_event e6 nothing))
      else returned nothing

  unfoldable pub convert_application_gateway_events_to_cef :
      AzureAppGwEventRecord → GetCefEventListOptions → Outcome Conversion
  convert_application_gateway_events_to_cef r options =
      recover_with nothing (convert_body r options)

  unfoldable pub get_cef_list :
      AzureAppGwEventRecord → GetCefEventListOptions → Outcome (AzureAppGwEventRecord × Conversion)
  get_cef_list r options = do
    let r' = ensure_init r
    c ←
        (if text_eq r'.operation_name access_operation
          then convert_application_gateway_events_to_cef r' options
          else returned nothing)
    returned (r', c)

  convert_body-Small :
      (r : AzureAppGwEventRecord) (o : GetCefEventListOptions) → Small (convert_body r o)
  unfolding convert_body
  convert_body-Small r o =
      if-Small (after r.time o.start_time) _ _
        (as_string-Small (get (codes "clientIP") r.properties) _ (λ ip.
          as_number-Small (get (codes "clientPort") r.properties) _ (λ port.
            as_string-Small (get (codes "requestUri") r.properties) _ (λ uri.
              as_string-Small (get (codes "httpMethod") r.properties) _
                (λ method. (refl, omega arith))))))
        nothing-Small

  -- GetCEFList of an access record returns whatever the properties hold, with the record
  -- initialized, at most one event and no error.
  pub get_cef_list_total_access :
      (r : AzureAppGwEventRecord) (o : GetCefEventListOptions)
      → (c : Conversion) × (get_cef_list r o ≡ returned (ensure_init r, c))
        × (c.errors ≡ [])
        × (length c.events ≤ 1)
  unfolding get_cef_list convert_application_gateway_events_to_cef
  get_cef_list_total_access r o =
      let (c, e, s, t) =
        recover_with-Small (convert_body (ensure_init r) o)
          (convert_body-Small (ensure_init r) o) in
      elim (Bool-cases (text_eq (ensure_init r).operation_name access_operation)) [
        | inl h ↦ (c, rw h (rw e refl), s, t)
        | inr h ↦ (nothing, rw h refl, refl, omega arith)
      ]

  -- What the one event of a record says.
  pub record Describes (r : AzureAppGwEventRecord) (ip uri method : Text) (port : ℕ)
      (event : CefEvent) : Type 0 where
    pub time_is : event.time ≡ r.time
    pub class_is : event.device_event_class_id ≡ r.category
    pub src_is : lookup (codes "src") event.extension ≡ some ip
    pub spt_is : lookup (codes "spt") event.extension ≡ some (format_ℤ (int_of port))
    pub request_is : lookup (codes "request") event.extension ≡ some uri
    pub cs1_is : lookup (codes "cs1") event.extension ≡ some uri
    pub method_is : lookup (codes "requestMethod") event.extension ≡ some method
    pub act_is : lookup (codes "act") event.extension ≡ some method
    pub msg_is : lookup (codes "msg") event.extension ≡ some (marshal r.properties)
    pub cs2_is : lookup (codes "cs2") event.extension ≡ some r.app_gw_name
    pub cs3_is : lookup (codes "cs3") event.extension ≡ some r.subscription_id
    pub cs4_is : lookup (codes "cs4") event.extension ≡ some r.resource_group

  abbrev access_event : AzureAppGwEventRecord → Text → ℕ → Text → Text → CefEvent
  access_event r ip port uri method = set_extension "msg" (marshal r.properties) (
      set_extension "act" method (
        set_extension "requestMethod" method (
          set_extension "cs1label" (codes "requestUri") (
            set_extension "cs1" uri (
              set_extension "request" uri (
                set_extension "spt" (format_ℤ (int_of port))
                  (set_extension "src" ip (record (new_cef_event r) { time = r.time }))))))))

  -- An access record that is later than the start time and has its four properties with their types
  -- gives one event and no error; the event has the record's time and category, and its extension
  -- names the client's address and port, the URI, the method, all the properties, the gateway, the
  -- subscription and the group.
  pub convert-Describes_access :
      (r : AzureAppGwEventRecord) (o : GetCefEventListOptions) (ip uri method : Text) (port : ℕ)
      → after r.time o.start_time ≡ true
      → get (codes "clientIP") r.properties ≡ string ip
      → get (codes "clientPort") r.properties ≡ number port
      → get (codes "requestUri") r.properties ≡ string uri
      → get (codes "httpMethod") r.properties ≡ string method
      → (event : CefEvent) × (convert_application_gateway_events_to_cef r o
          ≡ returned (record { events = event ∷ []; errors = [] }))
        × Describes r ip uri method port event
  unfolding convert_application_gateway_events_to_cef convert_body new_cef_event
  convert-Describes_access r o ip uri method port h e1 e2 e3 e4 = (
    access_event r ip port uri method,
    rw h (rw (e1, e2, e3, e4) refl),
    record {
      time_is = refl;
      class_is = refl;
      src_is = refl;
      spt_is = refl;
      request_is = refl;
      cs1_is = refl;
      method_is = refl;
      act_is = refl;
      msg_is = refl;
      cs2_is = refl;
      cs3_is = refl;
      cs4_is = refl;
    },
  )
