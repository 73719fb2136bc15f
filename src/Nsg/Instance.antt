-- ===== src/Nsg/Instance.antt =====
-- The records of a network security group are what a log file asks of `AzureEventRecord`.
use nsg_parser.Nsg.Flow.Correct.{convert_early}
use nsg_parser.Nsg.Events.{ensure_init, get_cef_list, get_cef_list_total}
use nsg_parser.Nsg.Record.{
  AzureNsgEventRecord, record_regexp, set_names, init_record, flow_events, group_events,
}
use nsg_parser.Nsg.Flow.{nothing}
use nsg_parser.Outcome.{returned}
use nsg_parser.Time.{after}
use nsg_parser.LogFile.{EventRecord}
use nsg_parser.Cef.{GetCefEventListOptions}
use nsg_parser.Regex.{Captures, find_submatch}
use nsg_parser.Prelude.{
  ◌≡◌, refl, ap, ◌∙◌, inl, inr, false, Option, none, some, [], ◌∷◌, arith, Bool-cases, text_eq,
  Bool, true, if◌then◌else◌,
}

set_names_idem :
    (r : AzureNsgEventRecord) (o : Option Captures) → set_names (set_names r o) o ≡ set_names r o
set_names_idem r none = refl
set_names_idem r (some []) = refl
set_names_idem r (some (a ∷ [])) = refl
set_names_idem r (some (a ∷ b ∷ [])) = refl
set_names_idem r (some (a ∷ b ∷ c ∷ [])) = refl
set_names_idem r (some (a ∷ b ∷ c ∷ d ∷ l)) = refl

-- `InitRecord` touches neither the resource id nor the time.
abbrev SameSource : AzureNsgEventRecord → AzureNsgEventRecord → Type 0
SameSource s r = (s.resource_id ≡ r.resource_id) × (s.time ≡ r.time)

set_names-SameSource :
    (r : AzureNsgEventRecord) (o : Option Captures) → SameSource (set_names r o) r
set_names-SameSource r none = (refl, refl)
set_names-SameSource r (some []) = (refl, refl)
set_names-SameSource r (some (a ∷ [])) = (refl, refl)
set_names-SameSource r (some (a ∷ b ∷ [])) = (refl, refl)
set_names-SameSource r (some (a ∷ b ∷ c ∷ [])) = (refl, refl)
set_names-SameSource r (some (a ∷ b ∷ c ∷ d ∷ l)) = (refl, refl)

init_record-init_record : (r : AzureNsgEventRecord) → init_record (init_record r) ≡ init_record r
unfolding init_record
init_record-init_record r =
    ap
      (λ id.
        set_names (set_names r (find_submatch record_regexp r.resource_id))
          (find_submatch record_regexp id))
      (set_names-SameSource r (find_submatch record_regexp r.resource_id)).0
    ∙ set_names_idem r (find_submatch record_regexp r.resource_id)

ensure_init-ensure_init : (r : AzureNsgEventRecord) → ensure_init (ensure_init r) ≡ ensure_init r
ensure_init-ensure_init r = elim (Bool-cases r.initialized) [
  | inl h ↦ ground arith
  | inr h ↦ ground (arith, init_record-init_record r)
]

ensured-SameSource :
    (r : AzureNsgEventRecord) (b : Bool) → SameSource (if b then r else init_record r) r
unfolding init_record
ensured-SameSource r true = (refl, refl)
ensured-SameSource r false = set_names-SameSource r (find_submatch record_regexp r.resource_id)

pub ensure_init_resource_id :
    (r : AzureNsgEventRecord) → (ensure_init r).resource_id ≡ r.resource_id
ensure_init_resource_id r = (ensured-SameSource r r.initialized).0

pub ensure_init_time : (r : AzureNsgEventRecord) → (ensure_init r).time ≡ r.time
ensure_init_time r = (ensured-SameSource r r.initialized).1

pub get_cef_list-ready :
    (r : AzureNsgEventRecord) (o : GetCefEventListOptions)
    → get_cef_list (ensure_init r) o ≡ get_cef_list r o
unfolding get_cef_list
get_cef_list-ready r o = rw (ensure_init-ensure_init r)

-- A record that is not later than the start time gives no event and no error, whatever its
-- operation is.
pub get_cef_list_early :
    (r : AzureNsgEventRecord) (o : GetCefEventListOptions)
    → after r.time o.start_time ≡ false
    → get_cef_list r o ≡ returned (ensure_init r, nothing)
unfolding get_cef_list
get_cef_list_early r o h =
    let early = convert_early (ensure_init r) o (rw (ensure_init_time r) h) in
    elim (Bool-cases (text_eq (ensure_init r).operation_name flow_events)) [
      | inl e ↦ rw e (rw early)
      | inr e ↦ elim (Bool-cases (text_eq (ensure_init r).operation_name group_events)) [
        | inl f ↦ rw (e, f)
        | inr f ↦ rw (e, f)
      ]
    ]

instance abbrev pub nsg_event_record : EventRecord AzureNsgEventRecord
nsg_event_record = record {
  get_time = λ r. r.time;
  ready = ensure_init;
  cef_list = get_cef_list;
  cef_list_total = get_cef_list_total;
  cef_list_early = get_cef_list_early;
  cef_list-ready = get_cef_list-ready;
  time_ready = ensure_init_time;
}
