-- ===== src/Cef/Formatter/Sent.antt =====
-- What the formatter makes of the text of an event.

use nsg_parser.LogFile.{has_prefix, from_index}
use nsg_parser.Time.{Time, zero_time, time_eq}
use nsg_parser.Cef.{CefEvent}
use nsg_parser.Regex.Matches.{literal_inv}
use mathlib.Core.List.{reverse}
use nsg_parser.Prelude.{
  ◌≡◌, ◌≢◌, inl, inr, true, none, some, ◌∷◌, ◌++◌, Option-cases, All, Text, codes, refl, ap, ◌∙◌,
  subst, [], append-nil, not, if◌then◌else◌, sym, Bool, false, Bool-cases,
}
use nsg_parser.Cef.Formatter.{message, formatted, cef_syslog_formatter}
use nsg_parser.Regex.Greedy.{star_stops, star_whole, star_fails, star_until}
use nsg_parser.Regex.Sound.{match_at_sound, consumed-append}
use nsg_parser.Regex.{
  Regex, Captures, match_at, accept, consumed, find_at_start, star, dot, group, seq, literal,
}
use nsg_parser.Cef.Syslog.{bar, cef_template_text, syslog_text}

-- No bar of the text stands in front of "CEF".
abbrev pub Unmarked : Text → Type 0
Unmarked t = (u v : Text) → t ≢ u ++ (codes "|CEF" ++ v)

-- What follows the first group.
abbrev marked_text : Regex
marked_text = seq (literal (codes "CEF")) (star dot)

abbrev marked : Regex
marked = seq (literal (codes "|")) (group marked_text)

marked_shown :
    (v : Text) (caps x : Captures)
    → match_at marked accept v caps ≡ some x
    → (w : Text) × (v ≡ codes "|CEF" ++ w)
marked_shown v caps x h =
    let (t, rest, c, es, m, _) = match_at_sound marked accept v caps x h in
    let (v1, e1, m1) = literal_inv (group marked_text) (codes "|") m in
    let (inner, m2, _) = m1 in
    let (v2, e2, _) = literal_inv (star dot) (codes "CEF") m2 in (v2 ++ rest, es ∙ rw (e1, e2) refl)

marked_fails :
    (v : Text) (caps : Captures)
    → ((w : Text) → v ≢ codes "|CEF" ++ w)
    → match_at marked accept v caps ≡ none
marked_fails v caps h = elim (Option-cases (match_at marked accept v caps)) [
  | inl e ↦ e
  | inr (x, e) ↦ absurd (let (w, ew) = marked_shown v caps x e in h w ew)
]

-- The two groups at the mark.
marked_found :
    (rest : Text) (caps : Captures)
    → All (λ c. dot c ≡ true) rest
    → match_at marked accept (codes "|CEF" ++ rest) caps
      ≡ some (reverse ((codes "CEF" ++ rest) ∷ caps))
unfolding match_at
marked_found rest caps a =
    let whole = codes "CEF" ++ rest in
    star_whole dot (λ r caps'. accept r (consumed whole r ∷ caps')) caps rest
      (reverse (whole ∷ caps)) a
      (ap (λ t. some (reverse (t ∷ caps)))
        (subst (λ t. consumed t [] ≡ whole) (append-nil whole) (consumed-append whole [])))

-- The same up to a newline.
marked_cut :
    (rest more : Text) (caps : Captures)
    → All (λ c. dot c ≡ true) rest
    → match_at marked accept (codes "|CEF" ++ (rest ++ b'\n' ∷ more)) caps
      ≡ some (reverse ((codes "CEF" ++ rest) ∷ caps))
unfolding match_at
marked_cut rest more caps a =
    let text = codes "CEF" ++ rest in
    let whole = codes "CEF" ++ (rest ++ b'\n' ∷ more) in
    star_until dot (λ r caps'. accept r (consumed whole r ∷ caps')) caps rest more b'\n'
      (reverse (text ∷ caps)) a refl
      (ap (λ t. some (reverse (t ∷ caps))) (consumed-append text (b'\n' ∷ more)))

-- The places of an unmarked text are none for the mark.
module _ (text : Text) (unmarked : Unmarked text) where
  no_mark : (u v : Text) → text ≡ u ++ v → (caps : Captures) → match_at marked accept v caps ≡ none
  no_mark u v e caps = marked_fails v caps (λ w ew. unmarked u w (e ∙ ap (λ t. u ++ t) ew))

  pub formatter_unmarked :
      (current hostname : Text)
      → cef_syslog_formatter current hostname text ≡ message current hostname text
  unfolding cef_syslog_formatter find_at_start match_at
  formatter_unmarked current hostname = ap (formatted current hostname text) (
      star_fails dot (λ r caps. match_at marked accept r (consumed text r ∷ caps)) [] text
        (λ u v e. no_mark u v e _))

-- At the first mark, whatever its second group is.
formatter_at_mark :
    (current hostname timestamp text group_text : Text)
    → All (λ c. dot c ≡ true) timestamp
    → Unmarked text
    → ((caps : Captures)
        → match_at marked accept (bar ∷ text) caps ≡ some (reverse (group_text ∷ caps)))
    → cef_syslog_formatter current hostname (timestamp ++ (bar ∷ text))
      ≡ message timestamp hostname group_text
unfolding cef_syslog_formatter find_at_start match_at
formatter_at_mark current hostname timestamp text group_text at unmarked found =
    let content = timestamp ++ (bar ∷ text) in
    ap (formatted current hostname content) (
      star_stops dot (λ r caps. match_at marked accept r (consumed content r ∷ caps)) [] timestamp
        text bar (timestamp ∷ group_text ∷ []) at (λ w w' e. no_mark text unmarked w w' e _)
        (found (consumed content (bar ∷ text) ∷ [])
          ∙ ap (λ t. some (t ∷ group_text ∷ [])) (consumed-append timestamp (bar ∷ text))))

pub formatter_marked :
    (current hostname timestamp rest : Text)
    → All (λ c. dot c ≡ true) timestamp
    → All (λ c. dot c ≡ true) rest
    → Unmarked (codes "CEF" ++ rest)
    → cef_syslog_formatter current hostname (timestamp ++ (bar ∷ (codes "CEF" ++ rest)))
      ≡ message timestamp hostname (codes "CEF" ++ rest)
formatter_marked current hostname timestamp rest at ar unmarked =
    let text = codes "CEF" ++ rest in
    formatter_at_mark current hostname timestamp text text at unmarked
      (λ caps. marked_found rest caps ar)

-- Of a text with a time, a bar, and a CEF part that has a newline, the formatter sends what of the
-- CEF part stands in front of the first newline and drops the rest, if the time's text has no
-- newline and no bar of the CEF part stands in front of CEF.
pub formatter_cut :
    (current hostname timestamp rest more : Text)
    → All (λ c. dot c ≡ true) timestamp
    → All (λ c. dot c ≡ true) rest
    → Unmarked (codes "CEF" ++ (rest ++ b'\n' ∷ more))
    → cef_syslog_formatter current hostname
        (timestamp ++ (bar ∷ (codes "CEF" ++ (rest ++ b'\n' ∷ more))))
      ≡ message timestamp hostname (codes "CEF" ++ rest)
formatter_cut current hostname timestamp rest more at ar unmarked =
    let text = codes "CEF" ++ (rest ++ b'\n' ∷ more) in
    formatter_at_mark current hostname timestamp text (codes "CEF" ++ rest) at unmarked
      (λ caps. marked_cut rest more caps ar)

-- The time in front of what is sent: that of the event, or that it is where the event has none.
abbrev pub sent_time : (Time → Text) → Text → CefEvent → Text
sent_time format_time current event =
    if not (time_eq event.time zero_time) then format_time event.time else current

-- The template begins with the mark.
after_mark : (event : CefEvent) → (rest : Text) × (cef_template_text event ≡ codes "CEF" ++ rest)
unfolding cef_template_text
after_mark event = (_, refl)

-- A text with the mark in front and none behind.
formatter_text :
    (current hostname timestamp text rest : Text)
    → text ≡ codes "CEF" ++ rest
    → All (λ c. dot c ≡ true) timestamp
    → All (λ c. dot c ≡ true) text
    → Unmarked text
    → cef_syslog_formatter current hostname (timestamp ++ (bar ∷ text))
      ≡ message timestamp hostname text
formatter_text current hostname timestamp text rest e at =
    subst
      (λ t.
        All (λ c. dot c ≡ true) t
        → Unmarked t
        → cef_syslog_formatter current hostname (timestamp ++ (bar ∷ t))
          ≡ message timestamp hostname t)
      (sym e) (λ a u. formatter_marked current hostname timestamp rest at a.1.1.1 u)

formatter_by_time :
    (current hostname timestamp text rest : Text) (b : Bool)
    → text ≡ codes "CEF" ++ rest
    → All (λ c. dot c ≡ true) timestamp
    → All (λ c. dot c ≡ true) text
    → Unmarked text
    → cef_syslog_formatter current hostname (if b then timestamp ++ (bar ∷ text) else text)
      ≡ message (if b then timestamp else current) hostname text
formatter_by_time current hostname timestamp text rest true e at ar u =
    formatter_text current hostname timestamp text rest e at ar u
formatter_by_time current hostname timestamp text rest false e at ar u =
    formatter_unmarked text u current hostname

-- The formatter sends the text of an event with the event's own time and the name of the host in
-- front, or with the time that it is if the event has none, and the event's template whole and
-- once, if neither the time's text nor the template has a newline and no bar of the template stands
-- in front of CEF.
pub cef_syslog_formatter-syslog_text :
    (format_time : Time → Text) (current hostname : Text) (event : CefEvent)
    → All (λ c. dot c ≡ true) (format_time event.time)
    → All (λ c. dot c ≡ true) (cef_template_text event)
    → Unmarked (cef_template_text event)
    → cef_syslog_formatter current hostname (syslog_text format_time event)
      ≡ message (sent_time format_time current event) hostname (cef_template_text event)
unfolding syslog_text
cef_syslog_formatter-syslog_text format_time current hostname event at ar unmarked =
    let (rest, e) = after_mark event in
    formatter_by_time current hostname (format_time event.time) (cef_template_text event) rest
      (not (time_eq event.time zero_time)) e at ar unmarked

-- `bytes.Index` decides whether a text is unmarked.
found_mark : (u v : Text) → from_index (codes "|CEF") (u ++ (codes "|CEF" ++ v)) ≢ none
unfolding from_index
found_mark [] v h = cc
found_mark (c ∷ u) v h =
    elim (Bool-cases (has_prefix (c ∷ (u ++ (codes "|CEF" ++ v))) (codes "|CEF"))) [
      | inl e ↦ cc (rw e at h)
      | inr e ↦ found_mark u v (rw e at h)
    ]

pub from_index-Unmarked : (t : Text) → from_index (codes "|CEF") t ≡ none → Unmarked t
from_index-Unmarked t h u v e = found_mark u v (subst (λ s. from_index (codes "|CEF") s ≡ none) e h)
