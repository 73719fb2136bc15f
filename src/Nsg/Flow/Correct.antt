-- ===== src/Nsg/Flow/Correct.antt =====
-- The nested loops make exactly the expected events and errors.
use nsg_parser.Prelude.Int.{format_ℕ}
use nsg_parser.Time.{after}
use nsg_parser.Nsg.Flow.Expected.{
  event_of, tokens_of, is_complete, number_errors, SubFlow, Flow, sub_flow_json, flow_json,
  tuple_events, tuple_errors, sub_flow_tuples, all_tuples, expected_events, expected_errors,
}
use nsg_parser.Nsg.Record.{AzureNsgEventRecord, new_cef_event}
use nsg_parser.Outcome.{returned}
use nsg_parser.Cef.{CefEvent, GetCefEventListOptions}
use nsg_parser.Strconv.{NumError, parse_int}
use nsg_parser.Json.{Fields, get, string, items, elements-items, array}
use nsg_parser.Prelude.{
  ◌≡◌, refl, true, Option, none, some, List, [], ◌∷◌, ◌++◌, append-nil, Text, codes, ap, ◌∙◌, ◌⊎◌,
  inl, inr, false, map, append_assoc, Bool-cases, text_eq,
}
use nsg_parser.Nsg.Flow.{
  Conversion, convert_tuple, convert_tuples, convert_sub_flows, convert_flows, convert_body,
  ConvertError, add_event, token, add_number_error, nothing, set_extension, convert_tokens,
  convert_network_security_group_flow_events_to_cef,
}

-- What a loop adds to the results so far.
abbrev pub extended : Conversion → List CefEvent → List ConvertError → Conversion
extended out es xs = record { events = out.events ++ es; errors = out.errors ++ xs }

add_number_error-extended :
    (s : Text) (e : Option NumError) (out : Conversion) (c : CefEvent)
    → add_event c (add_number_error s e out) ≡ extended out (c ∷ []) (number_errors s e)
add_number_error-extended s none out c = rw append-nil
add_number_error-extended s (some e) out c = refl

-- The two switches on the last two tokens, on each of their values.
abbrev DirectionCases : Text → Type 0
DirectionCases d =
    (text_eq d (codes "I") ≡ true)
    ⊎ ((text_eq d (codes "I") ≡ false) × (text_eq d (codes "O") ≡ true))
    ⊎ ((text_eq d (codes "I") ≡ false) × (text_eq d (codes "O") ≡ false))

split_direction : (d : Text) → DirectionCases d
split_direction d = elim (Bool-cases (text_eq d (codes "I"))) [
  | inl e ↦ inl e
  | inr e ↦ elim (Bool-cases (text_eq d (codes "O"))) [
    | inl f ↦ inr (inl (e, f))
    | inr f ↦ inr (inr (e, f))
  ]
]

abbrev OutcomeCases : Text → Type 0
OutcomeCases o =
    (text_eq o (codes "A") ≡ true)
    ⊎ ((text_eq o (codes "A") ≡ false) × (text_eq o (codes "D") ≡ true))
    ⊎ ((text_eq o (codes "A") ≡ false) × (text_eq o (codes "D") ≡ false))

split_outcome : (o : Text) → OutcomeCases o
split_outcome o = elim (Bool-cases (text_eq o (codes "A"))) [
  | inl e ↦ inl e
  | inr e ↦ elim (Bool-cases (text_eq o (codes "D"))) [
    | inl f ↦ inr (inl (e, f))
    | inr f ↦ inr (inr (e, f))
  ]
]

convert_tokens_lem :
    (r : AzureNsgEventRecord) (rule mac : Text) (sub : Fields) (tokens : List Text)
    (out : Conversion)
    → get (codes "mac") sub ≡ string mac
    → DirectionCases (token tokens 6)
    → OutcomeCases (token tokens 7)
    → convert_tokens
        (set_extension "cs1label" (codes "Rule Name") (set_extension "cs1" rule (new_cef_event r)))
        sub
        tokens
        out
      ≡ returned (
          add_event
            (event_of r rule mac tokens)
            (add_number_error (token tokens 0) (parse_int (token tokens 0)).1 out))
unfolding convert_tokens event_of new_cef_event format_ℕ
convert_tokens_lem r rule mac sub tokens out hm (inl i) (inl a) = rw (hm, i, a)
convert_tokens_lem r rule mac sub tokens out hm (inl i) (inr (inl (a, d))) = rw (hm, i, a, d)
convert_tokens_lem r rule mac sub tokens out hm (inl i) (inr (inr (a, d))) = rw (hm, i, a, d)
convert_tokens_lem r rule mac sub tokens out hm (inr (inl (i, o))) (inl a) = rw (hm, i, o, a)
convert_tokens_lem r rule mac sub tokens out hm (inr (inl (i, o))) (inr (inl (a, d))) =
    rw (hm, i, o, a, d)
convert_tokens_lem r rule mac sub tokens out hm (inr (inl (i, o))) (inr (inr (a, d))) =
    rw (hm, i, o, a, d)
convert_tokens_lem r rule mac sub tokens out hm (inr (inr (i, o))) (inl a) = rw (hm, i, o, a)
convert_tokens_lem r rule mac sub tokens out hm (inr (inr (i, o))) (inr (inl (a, d))) =
    rw (hm, i, o, a, d)
convert_tokens_lem r rule mac sub tokens out hm (inr (inr (i, o))) (inr (inr (a, d))) =
    rw (hm, i, o, a, d)

convert_tuple_lem :
    (r : AzureNsgEventRecord) (rule mac : Text) (sub : Fields) (t : Text) (out : Conversion)
    → get (codes "mac") sub ≡ string mac
    → convert_tuple r rule sub (string t) out
      ≡ returned (extended out (tuple_events r rule mac t) (tuple_errors t))
unfolding convert_tuple
convert_tuple_lem r rule mac sub t out hm = elim (Bool-cases (is_complete t)) [
  | inl e ↦ rw e (
      convert_tokens_lem r rule mac sub (tokens_of t) out hm
        (split_direction (token (tokens_of t) 6)) (split_outcome (token (tokens_of t) 7))
      ∙ ap returned (add_number_error-extended _ _ out _))
  | inr e ↦ rw (e, append-nil)
]

extended-extended :
    (out : Conversion) (es fs : List CefEvent) (xs ys : List ConvertError)
    → extended (extended out es xs) fs ys ≡ extended out (es ++ fs) (xs ++ ys)
extended-extended out es fs xs ys = rw (append_assoc, append_assoc)

expected_events-append :
    (r : AzureNsgEventRecord) (ts us : List (Text × Text × Text))
    → expected_events r (ts ++ us) ≡ expected_events r ts ++ expected_events r us
expected_events-append r [] us = refl
expected_events-append r ((rule, mac, t) ∷ ts) us =
    simp (expected_events-append r ts us, append_assoc)

expected_errors-append :
    (ts us : List (Text × Text × Text))
    → expected_errors (ts ++ us) ≡ expected_errors ts ++ expected_errors us
expected_errors-append [] us = refl
expected_errors-append ((rule, mac, t) ∷ ts) us = simp (expected_errors-append ts us, append_assoc)

-- The results of a loop over the given tuples.
abbrev pub made : AzureNsgEventRecord → List (Text × Text × Text) → Conversion → Conversion
made r ts out = extended out (expected_events r ts) (expected_errors ts)

made-nil : (r : AzureNsgEventRecord) (out : Conversion) → out ≡ made r [] out
made-nil r out = rw (append-nil, append-nil)

made-append :
    (r : AzureNsgEventRecord) (ts us : List (Text × Text × Text)) (out : Conversion)
    → made r us (made r ts out) ≡ made r (ts ++ us) out
made-append r ts us out =
    rw (expected_events-append, expected_errors-append) (extended-extended out _ _ _ _)

convert_tuples_lem :
    (r : AzureNsgEventRecord) (rule mac : Text) (sub : Fields) (ts : List Text) (out : Conversion)
    → get (codes "mac") sub ≡ string mac
    → convert_tuples r rule sub (map string ts) out
      ≡ returned (made r (map (λ t. (rule, mac, t)) ts) out)
unfolding convert_tuples
convert_tuples_lem r rule mac sub [] out hm = ap returned (made-nil r out)
convert_tuples_lem r rule mac sub (t ∷ ts) out hm =
    rw (convert_tuple_lem r rule mac sub t out hm)
      (convert_tuples_lem r rule mac sub ts _ hm ∙ ap returned (extended-extended out _ _ _ _))

pub convert_sub_flows_lem :
    (r : AzureNsgEventRecord) (rule : Text) (ss : List SubFlow) (out : Conversion)
    → convert_sub_flows r rule (map sub_flow_json ss) out
      ≡ returned (made r (sub_flow_tuples rule ss) out)
unfolding convert_sub_flows
convert_sub_flows_lem r rule [] out = ap returned (made-nil r out)
convert_sub_flows_lem r rule (s ∷ ss) out =
    rw (elements-items, convert_tuples_lem r rule s.mac _ s.flow_tuples out refl)
      (convert_sub_flows_lem r rule ss _ ∙ ap returned (made-append r _ _ out))

convert_flows_lem :
    (r : AzureNsgEventRecord) (fs : List Flow) (out : Conversion)
    → convert_flows r (map flow_json fs) out ≡ returned (made r (all_tuples fs) out)
unfolding convert_flows
convert_flows_lem r [] out = ap returned (made-nil r out)
convert_flows_lem r (f ∷ fs) out =
    rw (elements-items, convert_sub_flows_lem r f.rule f.flows out)
      (convert_flows_lem r fs _ ∙ ap returned (made-append r _ _ out))

-- A record of flow logs that is later than the start time and is well formed converts without a
-- panic to exactly one event for each tuple of eight tokens, in order and with the fields of an
-- independent table, and one error for each tuple of another number of tokens or whose first token
-- is no number.
pub convert-expected :
    (r : AzureNsgEventRecord) (options : GetCefEventListOptions) (fs : List Flow)
    → get (codes "flows") r.properties ≡ array (items (map flow_json fs))
    → after r.time options.start_time ≡ true
    → convert_network_security_group_flow_events_to_cef r options
      ≡ returned (record {
        events = expected_events r (all_tuples fs);
        errors = expected_errors (all_tuples fs);
      })
unfolding convert_network_security_group_flow_events_to_cef convert_body
convert-expected r options fs hf ht =
    rw (ht, hf) (rw (elements-items, convert_flows_lem r fs nothing) refl)

-- A record that is not later than the start time gives nothing, whatever its properties are.
pub convert_early :
    (r : AzureNsgEventRecord) (options : GetCefEventListOptions)
    → after r.time options.start_time ≡ false
    → convert_network_security_group_flow_events_to_cef r options ≡ returned nothing
unfolding convert_network_security_group_flow_events_to_cef convert_body
convert_early r options h = rw h
