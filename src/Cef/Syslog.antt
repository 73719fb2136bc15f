-- ===== src/Cef/Syslog.antt =====
-- `SyslogText` of parser/cef.go: the header by the template, the extension, and the time in front.
use nsg_parser.Prelude.Int.{format_ℕ}
use nsg_parser.Cef.Extension.{extension_text}
use nsg_parser.Time.{Time, zero_time, time_eq}
use nsg_parser.Cef.{CefEvent}
use nsg_parser.Prelude.{ℕ, not, ◌∷◌, ◌++◌, if◌then◌else◌, Text, codes}

abbrev pub bar : ℕ
bar = b'|'

-- `cefTemplateText`, whose fields are printed as they are.
unfoldable pub cef_template_text : CefEvent → Text
cef_template_text event =
    codes "CEF:"
    ++ (format_ℕ event.cef_version
        ++ (bar
            ∷ (event.device_vendor
                ++ (bar
                    ∷ (event.device_product
                        ++ (bar
                            ∷ (event.device_version
                                ++ (bar
                                    ∷ (event.device_event_class_id
                                        ++ (bar
                                            ∷ (event.name
                                                ++ (bar
                                                    ∷ (format_ℕ event.severity
                                                        ++ extension_text
                                                            event.extension)))))))))))))

-- Outside: `t.Format("Jan 02 15:04:05")`. The template is executed into a buffer, and
-- `ExtensionText` returns no error, so there is always a text.
unfoldable pub syslog_text : (Time → Text) → CefEvent → Text
syslog_text format_time event =
    if not (time_eq event.time zero_time)
    then format_time event.time ++ (bar ∷ cef_template_text event)
    else cef_template_text event
