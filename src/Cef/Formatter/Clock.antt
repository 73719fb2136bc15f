-- ===== src/Cef/Formatter/Clock.antt =====
-- The events with the times that parser/cef.go puts in front of them.
use nsg_parser.Prelude.Int.{ℤ}
use nsg_parser.Cef.Syslog.{cef_template_text, syslog_text}
use nsg_parser.Cef.Formatter.{message, cef_syslog_formatter}
use nsg_parser.Calendar.Format.{
  clock_seconds, day_and_second, two_digits, fields_of, month_names, month_name, format_cef_time,
}
use nsg_parser.Time.{Time, zero_time, time_eq}
use nsg_parser.Cef.{CefEvent}
use nsg_parser.Regex.{dot}
use nsg_parser.Prelude.{
  ℕ, zero, suc, ◌/◌, ◌%◌, ◌≡◌, refl, ap, ◌∙◌, true, not, List, [], ◌∷◌, ◌++◌, arith, if◌then◌else◌,
  get_or, All, All-append, Text, codes, Bool, false,
}
use nsg_parser.Cef.Formatter.Sent.{Unmarked, cef_syslog_formatter-syslog_text}
use nsg_parser.SourceName.Split.{dot-count, count}

-- A text on one line.
abbrev IsLine : Text → Type 0
IsLine s = All (λ c. dot c ≡ true) s

two_digits-IsLine : (n : ℕ) → IsLine (two_digits n)
unfolding two_digits
two_digits-IsLine n = (ground arith, (ground arith, tt))

get_or-IsLine : (ts : List Text) (i : ℕ) → All IsLine ts → IsLine (get_or ts i [])
get_or-IsLine [] i a = tt
get_or-IsLine (t ∷ ts) zero a = a.0
get_or-IsLine (t ∷ ts) (suc i) a = get_or-IsLine ts i a.1

month_names-IsLine : All IsLine month_names
unfolding count
month_names-IsLine = (
  tt,
  (
    dot-count (codes "Jan") refl,
    (
      dot-count (codes "Feb") refl,
      (
        dot-count (codes "Mar") refl,
        (
          dot-count (codes "Apr") refl,
          (
            dot-count (codes "May") refl,
            (
              dot-count (codes "Jun") refl,
              (
                dot-count (codes "Jul") refl,
                (
                  dot-count (codes "Aug") refl,
                  (
                    dot-count (codes "Sep") refl,
                    (
                      dot-count (codes "Oct") refl,
                      (dot-count (codes "Nov") refl, (dot-count (codes "Dec") refl, tt)),
                    ),
                  ),
                ),
              ),
            ),
          ),
        ),
      ),
    ),
  ),
)

IsLine-append : (u v : Text) → IsLine u → IsLine v → IsLine (u ++ v)
IsLine-append u v = All-append (λ c. dot c ≡ true) u v

format_cef_time-IsLine : (zone : ℤ → ℤ) (t : Time) → IsLine (format_cef_time zone t)
unfolding format_cef_time
format_cef_time-IsLine zone t =
    let (y, m, d, h) = fields_of zone t in
    let second = (day_and_second (clock_seconds zone t)).1 in
    IsLine-append (month_name m) _ (get_or-IsLine month_names m month_names-IsLine) (
      refl,
      IsLine-append (two_digits d) _ (two_digits-IsLine d) (
        refl,
        IsLine-append (two_digits h) _ (two_digits-IsLine h) (
          refl,
          IsLine-append (two_digits (second / 60 % 60)) _ (two_digits-IsLine (second / 60 % 60))
              (refl, two_digits-IsLine (second % 60)),
        ),
      ),
    )

-- The time that is printed, whichever it is.
either_time :
    (zone : ℤ → ℤ) (t now : Time) (b : Bool)
    → (if b then format_cef_time zone t else format_cef_time zone now)
      ≡ format_cef_time zone (if b then t else now)
either_time zone t now true = refl
either_time zone t now false = refl

-- The formatter sends the text of an event with the event's own time and the name of the host in
-- front, or with the time that it is if the event has none, and the event's template whole and
-- once, if the template has no newline and no bar of it stands in front of CEF.
pub cef_syslog_formatter-format_cef_time :
    (zone : ℤ → ℤ) (now : Time) (hostname : Text) (event : CefEvent)
    → All (λ c. dot c ≡ true) (cef_template_text event)
    → Unmarked (cef_template_text event)
    → cef_syslog_formatter
        (format_cef_time zone now)
        hostname
        (syslog_text (format_cef_time zone) event)
      ≡ message
          (format_cef_time zone (if not (time_eq event.time zero_time) then event.time else now))
          hostname
          (cef_template_text event)
cef_syslog_formatter-format_cef_time zone now hostname event a u =
    cef_syslog_formatter-syslog_text (format_cef_time zone) (format_cef_time zone now) hostname
      event (format_cef_time-IsLine zone event.time) a u
    ∙ ap (λ t. message t hostname (cef_template_text event))
        (either_time zone event.time now (not (time_eq event.time zero_time)))
