-- ===== src/AppGw/Firewall/Instance.antt =====
-- The firewall records are what a log file asks of `AzureEventRecord`.
use nsg_parser.Nsg.Flow.{nothing}
use nsg_parser.Outcome.{returned}
use nsg_parser.AppGw.{app_gw_record_regexp}
use nsg_parser.Time.{after}
use nsg_parser.LogFile.{EventRecord}
use nsg_parser.Cef.{GetCefEventListOptions}
use nsg_parser.Regex.{Captures, find_submatch}
use nsg_parser.Json.{Json, Fields}
use nsg_parser.Prelude.{
  ◌≡◌, refl, ap, ◌∙◌, inl, inr, Bool, true, false, Option, none, some, [], ◌∷◌, arith,
  if◌then◌else◌, Bool-cases, Text, text_eq,
}
use nsg_parser.AppGw.Firewall.{
  set_names, init_record, ensure_init, get_cef_list, convert_body, AzureAppGwFirewallEventRecord,
  firewall_operation, convert_app_gateway_firewall_events_to_cef, get_cef_list_total_firewall,
}

set_names_idem :
    (r : AzureAppGwFirewallEventRecord) (o : Option Captures)
    → set_names (set_names r o) o ≡ set_names r o
set_names_idem r none = refl
set_names_idem r (some []) = refl
set_names_idem r (some (a ∷ [])) = refl
set_names_idem r (some (a ∷ b ∷ [])) = refl
set_names_idem r (some (a ∷ b ∷ c ∷ [])) = refl
set_names_idem r (some (a ∷ b ∷ c ∷ d ∷ l)) = refl

-- `InitRecord` touches neither the resource id nor the time.
abbrev SameSource : AzureAppGwFirewallEventRecord → AzureAppGwFirewallEventRecord → Type 0
SameSource s r = (s.resource_id ≡ r.resource_id) × (s.time ≡ r.time)

set_names-SameSource :
    (r : AzureAppGwFirewallEventRecord) (o : Option Captures) → SameSource (set_names r o) r
set_names-SameSource r none = (refl, refl)
set_names-SameSource r (some []) = (refl, refl)
set_names-SameSource r (some (a ∷ [])) = (refl, refl)
set_names-SameSource r (some (a ∷ b ∷ [])) = (refl, refl)
set_names-SameSource r (some (a ∷ b ∷ c ∷ [])) = (refl, refl)
set_names-SameSource r (some (a ∷ b ∷ c ∷ d ∷ l)) = (refl, refl)

init_record-init_record :
    (r : AzureAppGwFirewallEventRecord) → init_record (init_record r) ≡ init_record r
unfolding init_record
init_record-init_record r =
    ap
      (λ id.
        set_names (set_names r (find_submatch app_gw_record_regexp r.resource_id))
          (find_submatch app_gw_record_regexp id))
      (set_names-SameSource r (find_submatch app_gw_record_regexp r.resource_id)).0
    ∙ set_names_idem r (find_submatch app_gw_record_regexp r.resource_id)

ensure_init-ensure_init :
    (r : AzureAppGwFirewallEventRecord) → ensure_init (ensure_init r) ≡ ensure_init r
ensure_init-ensure_init r = elim (Bool-cases r.initialized) [
  | inl h ↦ ground arith
  | inr h ↦ ground (arith, init_record-init_record r)
]

ensured-SameSource :
    (r : AzureAppGwFirewallEventRecord) (b : Bool) → SameSource (if b then r else init_record r) r
unfolding init_record
ensured-SameSource r true = (refl, refl)
ensured-SameSource r false =
    set_names-SameSource r (find_submatch app_gw_record_regexp r.resource_id)

pub ensure_init_resource_id :
    (r : AzureAppGwFirewallEventRecord) → (ensure_init r).resource_id ≡ r.resource_id
ensure_init_resource_id r = (ensured-SameSource r r.initialized).0

pub ensure_init_time : (r : AzureAppGwFirewallEventRecord) → (ensure_init r).time ≡ r.time
ensure_init_time r = (ensured-SameSource r r.initialized).1

module _ (show_value : Json → Text) (marshal : Fields → Text) where
  pub get_cef_list-ready :
      (r : AzureAppGwFirewallEventRecord) (o : GetCefEventListOptions)
      → get_cef_list show_value marshal (ensure_init r) o ≡ get_cef_list show_value marshal r o
  unfolding get_cef_list
  get_cef_list-ready r o = rw (ensure_init-ensure_init r)

  convert_early_firewall :
      (r : AzureAppGwFirewallEventRecord) (o : GetCefEventListOptions)
      → after r.time o.start_time ≡ false
      → convert_app_gateway_firewall_events_to_cef show_value marshal r o ≡ returned nothing
  unfolding convert_app_gateway_firewall_events_to_cef convert_body
  convert_early_firewall r o h = rw h

  pub get_cef_list_early_firewall :
      (r : AzureAppGwFirewallEventRecord) (o : GetCefEventListOptions)
      → after r.time o.start_time ≡ false
      → get_cef_list show_value marshal r o ≡ returned (ensure_init r, nothing)
  unfolding get_cef_list
  get_cef_list_early_firewall r o h =
      let early = convert_early_firewall (ensure_init r) o (rw (ensure_init_time r) h) in
      elim (Bool-cases (text_eq (ensure_init r).operation_name firewall_operation)) [
        | inl e ↦ rw e (rw early)
        | inr e ↦ rw e
      ]

  abbrev pub firewall_event_record : EventRecord AzureAppGwFirewallEventRecord
  firewall_event_record = record {
    get_time = λ r. r.time;
    ready = ensure_init;
    cef_list = get_cef_list show_value marshal;
    cef_list_total =
        λ r o. let (c, e, _, _) = get_cef_list_total_firewall show_value marshal r o in (c, e);
    cef_list_early = get_cef_list_early_firewall;
    cef_list-ready = get_cef_list-ready;
    time_ready = ensure_init_time;
  }
