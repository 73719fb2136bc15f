-- ===== src/Process/TestSend.antt =====
-- The command test_send (cmd/test_commands.go): one sample event, decoded from JSON, to syslog. Its
-- events are `CEFEvent`s whose pointers may be nil, which no event of a record is.
use nsg_parser.Cef.{CefEvent}
use nsg_parser.Cef.Extension.{extension_text}
use nsg_parser.Cef.Syslog.{bar, cef_template_text, syslog_text}
use nsg_parser.Client.Syslog.{CefSyslogClient, send_event, send_all}
use nsg_parser.Dict.{Dict}
use nsg_parser.FileName.{Error, uninitialized_client}
use nsg_parser.Outcome.{Outcome, ◌>>=◌, exited, returned}
use nsg_parser.Process.Setup.{Command, Emulator, Settings, init_client, init_syslog, syslog_address}
use nsg_parser.Time.{Time, zero_time, time_eq}
use nsg_parser.Prelude.Int.{ℤ, pos, negsuc, format_ℤ, wrap64, ◌+ℤ◌}
use nsg_parser.Prelude.{
  ℕ, suc, Bool, ◌≡◌, refl, ap, not, Option, none, some, List, [], ◌∷◌, ◌++◌, if◌then◌else◌, map,
  Text, codes, true,
}

-- `CEFEvent` as it is declared.
pub record DecodedEvent : Type 0 where
  pub cef_version : Option ℤ
  pub device_vendor : Option Text
  pub device_product : Option Text
  pub device_version : Option Text
  pub device_event_class_id : Text
  pub time : Time
  pub name : Text
  pub severity : ℤ
  pub extension : Dict Text

-- An event of a record, whose four pointers are set.
abbrev with_pointers : CefEvent → DecodedEvent
with_pointers event = record {
  cef_version = some (pos event.cef_version);
  device_vendor = some event.device_vendor;
  device_product = some event.device_product;
  device_version = some event.device_version;
  device_event_class_id = event.device_event_class_id;
  time = event.time;
  name = event.name;
  severity = pos event.severity;
  extension = event.extension;
}

-- A template prints what a pointer points to, and a nil pointer as `<nil>`.
abbrev printed : {A : Type 0} → (A → Text) → Option A → Text
printed format none = codes "<nil>"
printed format (some a) = format a

abbrev plain : Text → Text
plain t = t

-- The fields of `cefTemplateText` up to the extension, with a bar behind each but the last.
abbrev barred : List Text → Text → Text
barred [] rest = rest
barred (t ∷ ts) rest = t ++ (bar ∷ barred ts rest)

unfoldable pub decoded_template_text : DecodedEvent → Text
decoded_template_text event =
    let fields =
      printed format_ℤ event.cef_version
      ∷ printed plain event.device_vendor
      ∷ printed plain event.device_product
      ∷ printed plain event.device_version
      ∷ event.device_event_class_id
      ∷ event.name
      ∷ [] in
    codes "CEF:" ++ barred fields (format_ℤ event.severity ++ extension_text event.extension)

-- `SyslogText`.
unfoldable pub decoded_syslog_text : (Time → Text) → DecodedEvent → Text
decoded_syslog_text format_time event =
    if not (time_eq event.time zero_time)
    then format_time event.time ++ (bar ∷ decoded_template_text event)
    else decoded_template_text event

-- `SendEvent`.
abbrev send_decoded : CefSyslogClient → (Time → Text) → DecodedEvent → Option Error × List Text
send_decoded client format_time event =
    if not client.initialized
    then (some uninitialized_client, [])
    else (none, decoded_syslog_text format_time event ∷ [])

-- `t.Add(-15 * time.Minute)`.
abbrev before_15_minutes : Time → Time
before_15_minutes t = record t { sec = wrap64 (t.sec +ℤ negsuc 899) }

-- The loop over the events, from the `i`-th reading of the clock on.
abbrev send_samples :
    CefSyslogClient → (Time → Text) → (ℕ → Time) → ℕ → List DecodedEvent → List Text
send_samples client format_time now i [] = []
send_samples client format_time now i (event ∷ events) =
    (send_decoded client format_time (record event { time = before_15_minutes (now i) })).1
    ++ send_samples client format_time now (suc i) events

-- The array in the source.
abbrev sample_logs : Text
sample_logs =
    codes "[{\n    \"CEFVersion\": 0,\n    \"DeviceVendor\": \"Microsoft\",\n"
    ++ codes "    \"DeviceProduct\": \"Azure NSG\",\n    \"DeviceVersion\": \"1\",\n"
    ++ codes "    \"DeviceEventClassId\": \"nsg-flow\",\n"
    ++ codes "    \"Time\": \"2017-06-22T05:58:09.8052328-04:00\",\n"
    ++ codes "    \"Name\": \"nsg-flow\",\n    \"Severity\": 0,\n    \"Extension\": {\n"
    ++ codes "        \"cs1\": \"UserRule_HTTP\",\n        \"deviceDirection\": \"0\",\n"
    ++ codes "        \"dmac\": \"00:0D:3A:F3:38:54\",\n        \"dpt\": \"80\",\n"
    ++ codes "        \"dst\": \"10.44.160.4\",\n        \"outcome\": \"Allow\",\n"
    ++ codes "        \"proto\": \"TCP\",\n        \"spt\": \"15425\",\n"
    ++ codes "        \"src\": \"10.22.1.8\",\n        \"start\": \"1498075171000\"\n    }}]"

-- Where the JSON is refused, `log.Fatal` ends the process.
abbrev send_unmarshalled :
    CefSyslogClient → (Time → Text) → (ℕ → Time) → Option (List DecodedEvent) → Outcome (List Text)
send_unmarshalled client format_time now none = exited
send_unmarshalled client format_time now (some events) =
    returned (send_samples client format_time now 0 events)

-- The run of the command: what goes to the connection. Outside: `json.Unmarshal` into a slice of
-- events, and the readings of the clock.
unfoldable pub test_send :
    {R : Type 0}
    → (Text → Text → Bool)
    → (Text → Text → Bool)
    → Emulator
    → Settings
    → (Text → Option (List DecodedEvent))
    → (Time → Text)
    → (ℕ → Time)
    → Command R
    → Outcome (List Text)
test_send new_basic_client dial emulator settings unmarshal format_time now command = do
  c ← init_syslog dial settings (init_client new_basic_client emulator settings command)
  send_unmarshalled c.syslog_client format_time now (unmarshal sample_logs)

-- The events with the times at which they are sent.
abbrev timed : (ℕ → Time) → ℕ → List CefEvent → List CefEvent
timed now i [] = []
timed now i (event ∷ events) =
    record event { time = before_15_minutes (now i) } ∷ timed now (suc i) events

-- An event whose pointers are set has the same text as the event of a record.
decoded_syslog_text-with_pointers :
    (format_time : Time → Text) (event : CefEvent)
    → decoded_syslog_text format_time (with_pointers event) ≡ syslog_text format_time event
unfolding decoded_syslog_text decoded_template_text syslog_text cef_template_text format_ℤ
decoded_syslog_text-with_pointers format_time event = refl

-- Such events are sent as the client sends the events of records.
send_samples-with_pointers :
    (client : CefSyslogClient) (format_time : Time → Text) (now : ℕ → Time) (i : ℕ)
    (events : List CefEvent)
    → send_samples client format_time now i (map with_pointers events)
      ≡ send_all client format_time (timed now i events)
unfolding decoded_syslog_text decoded_template_text syslog_text cef_template_text format_ℤ
send_samples-with_pointers client format_time now i [] = refl
send_samples-with_pointers client format_time now i (event ∷ events) =
    ap
      (λ t.
        (send_event client format_time (record event { time = before_15_minutes (now i) })).1 ++ t)
      (send_samples-with_pointers client format_time now (suc i) events)

-- Where the connection opens and the events that are decoded have their pointers, the command sends
-- the texts of these events, each a quarter of an hour before its reading of the clock.
test_send-with_pointers :
    {R : Type 0} (new_basic_client dial : Text → Text → Bool) (emulator : Emulator)
    (settings : Settings) (unmarshal : Text → Option (List DecodedEvent))
    (format_time : Time → Text) (now : ℕ → Time) (command : Command R) (events : List CefEvent)
    → dial (settings.get_string (codes "syslog_protocol")) (syslog_address settings) ≡ true
    → unmarshal sample_logs ≡ some (map with_pointers events)
    → test_send new_basic_client dial emulator settings unmarshal format_time now command
      ≡ returned (send_all (record { initialized = true }) format_time (timed now 0 events))
unfolding test_send init_syslog init_client
test_send-with_pointers _ _ _ _ _ format_time now command events opens decodes =
    rw (opens, decodes)
      (ap returned
        (send_samples-with_pointers (record { initialized = true }) format_time now 0 events))
