-- ===== src/Nsg/Events.antt =====
-- `GetCEFList` of parser/event_record.go.
use nsg_parser.Prelude.Int.{format_ℕ}
use nsg_parser.Strconv.{parse_int}
use nsg_parser.Nsg.Flow.Expected.{Flow, flow_json}
use nsg_parser.Nsg.Flow.Correct.{convert_sub_flows_lem}
use nsg_parser.Nsg.Record.{
  AzureNsgEventRecord, init_record, flow_events, group_events, new_cef_event,
}
use nsg_parser.Nsg.Flow.{
  Conversion, nothing, set_mac, convert_tuple, convert_tuples, convert_sub_flows, convert_flows,
  convert_body, convert_network_security_group_flow_events_to_cef, add_event, set_extension, token,
  set_outcome, add_number_error, set_addresses, convert_tokens,
}
use nsg_parser.Outcome.{Outcome, ◌>>=◌, recover_with, returned, panicked, exited}
use nsg_parser.Time.{after}
use nsg_parser.Cef.{CefEvent, GetCefEventListOptions, cef_direction_map, cef_outcome_map}
use nsg_parser.Json.{
  Json, Fields, get, items, as_string, as_array, as_object, elements-items, string, array, object,
}
use nsg_parser.Prelude.{
  ℕ, ◌≡◌, refl, inl, inr, Bool, true, false, List, [], ◌∷◌, ◌++◌, map, ◌==◌, if◌then◌else◌,
  Bool-cases, length, Text, codes, text_eq, split,
}

-- Network security group events are not mapped yet.
abbrev pub convert_network_security_group_events_to_cef :
    AzureNsgEventRecord → GetCefEventListOptions → Outcome Conversion
convert_network_security_group_events_to_cef r options = returned nothing

abbrev pub ensure_init : AzureNsgEventRecord → AzureNsgEventRecord
ensure_init r = if r.initialized then r else init_record r

abbrev pub convert : AzureNsgEventRecord → GetCefEventListOptions → Outcome Conversion
convert r options =
    if text_eq r.operation_name flow_events
    then convert_network_security_group_flow_events_to_cef r options
    else if text_eq r.operation_name group_events
    then convert_network_security_group_events_to_cef r options
    else returned nothing

-- The record as the call leaves it, and the two results.
unfoldable pub get_cef_list :
    AzureNsgEventRecord → GetCefEventListOptions → Outcome (AzureNsgEventRecord × Conversion)
get_cef_list r options = do let r' = ensure_init r; c ← convert r' options; returned (r', c)

-- A loop that ends without exiting the process.
abbrev Stays {ℓ} : {A : Type ℓ} → Outcome A → Type 0
Stays (returned a) = Unit
Stays panicked = Unit
Stays exited = ⊥

as_string-Stays : (j : Json) → Stays (as_string j)
as_string-Stays (string s) = tt
as_string-Stays _ = tt

as_array-Stays : (j : Json) → Stays (as_array j)
as_array-Stays (array s) = tt
as_array-Stays _ = tt

as_object-Stays : (j : Json) → Stays (as_object j)
as_object-Stays (object s) = tt
as_object-Stays _ = tt

>>=-Stays {ℓ κ} :
    {A : Type ℓ} {B : Type κ} (m : Outcome A) (f : A → Outcome B)
    → Stays m
    → ((a : A) → Stays (f a))
    → Stays (m >>= f)
>>=-Stays (returned a) f h k = k a
>>=-Stays panicked f h k = tt
>>=-Stays exited f h k = h

if-Stays {ℓ} :
    {A : Type ℓ} (b : Bool) (x y : Outcome A) → Stays x → Stays y → Stays (if b then x else y)
if-Stays true x y h k = h
if-Stays false x y h k = k

set_mac-Stays : (d : ℕ) (sub : Fields) (e : CefEvent) → Stays (set_mac d sub e)
set_mac-Stays d sub e =
    if-Stays (d == 0) _ _ (>>=-Stays _ _ (as_string-Stays (get (codes "mac") sub)) (λ _. tt))
      (if-Stays (d == 1) _ _ (>>=-Stays _ _ (as_string-Stays (get (codes "mac") sub)) (λ _. tt)) tt)

-- The part of a tuple of eight tokens behind the reading of its address.
finish-Stays :
    {A B : Type 0} (m : Outcome A) (f : A → B) → Stays m → Stays (m >>= λ a. returned (f a))
finish-Stays (returned a) f h = tt
finish-Stays panicked f h = tt
finish-Stays exited f h = h

convert_tokens-Stays :
    (event : CefEvent) (sub : Fields) (tuples : List Text) (out : Conversion)
    → Stays (convert_tokens event sub tuples out)
unfolding convert_tokens
convert_tokens-Stays event sub tuples out =
    let number = parse_int (token tuples 0) in
    let direction = cef_direction_map (token tuples 6) in
    let e2 =
      set_extension "deviceDirection" (format_ℕ direction) (set_addresses number.0 tuples event) in
    let out' = add_number_error (token tuples 0) number.1 out in
    finish-Stays (set_mac direction sub e2)
      (λ e3. add_event (set_outcome (cef_outcome_map (token tuples 7)) e3) out')
      (set_mac-Stays direction sub e2)

abbrev rule_event : AzureNsgEventRecord → Text → CefEvent
rule_event r rule =
    set_extension "cs1label" (codes "Rule Name") (set_extension "cs1" rule (new_cef_event r))

convert_tuple-Stays :
    (r : AzureNsgEventRecord) (rule : Text) (sub : Fields) (j : Json) (out : Conversion)
    → Stays (convert_tuple r rule sub j out)
unfolding convert_tuple
convert_tuple-Stays r rule sub (string t) out = elim (Bool-cases (length (split t b',') == 8)) [
  | inl e ↦ rw e (convert_tokens-Stays (rule_event r rule) sub (split t b',') out)
  | inr e ↦ rw e tt
]
convert_tuple-Stays r rule sub _ out = tt

convert_tuples-Stays :
    (r : AzureNsgEventRecord) (rule : Text) (sub : Fields) (ts : List Json) (out : Conversion)
    → Stays (convert_tuples r rule sub ts out)
unfolding convert_tuples
convert_tuples-Stays r rule sub [] out = tt
convert_tuples-Stays r rule sub (t ∷ ts) out =
    >>=-Stays (convert_tuple r rule sub t out) _ (convert_tuple-Stays r rule sub t out)
      (convert_tuples-Stays r rule sub ts)

convert_sub_flows-Stays :
    (r : AzureNsgEventRecord) (rule : Text) (ss : List Json) (out : Conversion)
    → Stays (convert_sub_flows r rule ss out)
unfolding convert_sub_flows
convert_sub_flows-Stays r rule [] out = tt
convert_sub_flows-Stays r rule (s ∷ ss) out = >>=-Stays (as_object s) _ (as_object-Stays s) (λ sub.
    >>=-Stays (as_array (get (codes "flowTuples") sub)) _
      (as_array-Stays (get (codes "flowTuples") sub))
      (λ ts.
        >>=-Stays (convert_tuples r rule sub ts out) _ (convert_tuples-Stays r rule sub ts out)
          (convert_sub_flows-Stays r rule ss)))

convert_flows-Stays :
    (r : AzureNsgEventRecord) (fs : List Json) (out : Conversion) → Stays (convert_flows r fs out)
unfolding convert_flows
convert_flows-Stays r [] out = tt
convert_flows-Stays r (f ∷ fs) out = >>=-Stays (as_object f) _ (as_object-Stays f) (λ flow.
    >>=-Stays (as_string (get (codes "rule") flow)) _ (as_string-Stays (get (codes "rule") flow))
      (λ rule.
        >>=-Stays (as_array (get (codes "flows") flow)) _
          (as_array-Stays (get (codes "flows") flow))
          (λ subs.
            >>=-Stays (convert_sub_flows r rule subs out) _
              (convert_sub_flows-Stays r rule subs out) (convert_flows-Stays r fs))))

convert_body-Stays :
    (r : AzureNsgEventRecord) (options : GetCefEventListOptions) → Stays (convert_body r options)
unfolding convert_body
convert_body-Stays r options = elim (Bool-cases (after r.time options.start_time)) [
  | inl e ↦ rw e (
      >>=-Stays (as_array (get (codes "flows") r.properties)) _
        (as_array-Stays (get (codes "flows") r.properties))
        (λ fs. convert_flows-Stays r fs nothing))
  | inr e ↦ rw e tt
]

recover_with_total {ℓ} :
    {A : Type ℓ} (z : A) (m : Outcome A) → Stays m → (a : A) × (recover_with z m ≡ returned a)
recover_with_total z (returned a) h = (a, refl)
recover_with_total z panicked h = (z, refl)
recover_with_total z exited h = absurd h

convert_total :
    (r : AzureNsgEventRecord) (options : GetCefEventListOptions)
    → (c : Conversion) × (convert r options ≡ returned c)
unfolding convert_network_security_group_flow_events_to_cef
convert_total r options = elim (Bool-cases (text_eq r.operation_name flow_events)) [
  | inl e ↦
      let (c, h) =
        recover_with_total nothing (convert_body r options) (convert_body-Stays r options) in
      (c, rw e h)
  | inr e ↦ elim (Bool-cases (text_eq r.operation_name group_events)) [
    | inl f ↦ (nothing, rw (e, f))
    | inr f ↦ (nothing, rw (e, f))
  ]
]

-- GetCEFList returns for every record of a network security group, whatever its JSON holds, and
-- leaves the record as the initialization does.
pub get_cef_list_total :
    (r : AzureNsgEventRecord) (options : GetCefEventListOptions)
    → (c : Conversion) × (get_cef_list r options ≡ returned (ensure_init r, c))
unfolding get_cef_list
get_cef_list_total r options = let (c, h) = convert_total (ensure_init r) options in (c, rw h)

convert_flows_bad :
    (r : AzureNsgEventRecord) (fs : List Flow) (bad : Json) (rest : List Json) (out : Conversion)
    → as_object bad ≡ panicked
    → convert_flows r (map flow_json fs ++ bad ∷ rest) out ≡ panicked
unfolding convert_flows
convert_flows_bad r [] bad rest out h = rw h
convert_flows_bad r (f ∷ fs) bad rest out h =
    rw (elements-items, convert_sub_flows_lem r f.rule f.flows out)
      (convert_flows_bad r fs bad rest _ h)

-- One flow that is no JSON object, behind well-formed ones, makes the whole record give no event
-- and no error.
pub convert_bad_flow :
    (r : AzureNsgEventRecord) (options : GetCefEventListOptions) (fs : List Flow) (bad : Json)
    (rest : List Json)
    → get (codes "flows") r.properties ≡ array (items (map flow_json fs ++ bad ∷ rest))
    → as_object bad ≡ panicked
    → convert_network_security_group_flow_events_to_cef r options ≡ returned nothing
unfolding convert_network_security_group_flow_events_to_cef convert_body
convert_bad_flow r options fs bad rest hf hb = elim (Bool-cases (after r.time options.start_time)) [
  | inl e ↦ rw (e, hf) (rw (elements-items, convert_flows_bad r fs bad rest nothing hb) refl)
  | inr e ↦ rw e
]
