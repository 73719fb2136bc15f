-- ===== src/AppGw.antt =====
-- parser/appgw_access_record.go and parser/appgw_firewall_record.go: the two kinds of record that
-- an application gateway writes, and what their conversions share.
pub mod Access
pub mod Firewall
use nsg_parser.Nsg.Flow.{Conversion, nothing, add_event}
use nsg_parser.Resource.{resource_regexp}
use nsg_parser.Outcome.{Outcome, ◌>>=◌, recover_with, returned, panicked, exited}
use nsg_parser.Cef.{CefEvent}
use nsg_parser.Regex.{Regex}
use nsg_parser.Json.{Json, as_string, null, boolean, number, string, array, object}
use nsg_parser.Prelude.{
  ℕ, ◌≤◌, ◌≡◌, refl, Bool, true, false, [], arith, if◌then◌else◌, length, Text, codes,
}

abbrev pub app_gw_record_regexp : Regex
app_gw_record_regexp = resource_regexp (codes "APPLICATIONGATEWAYS/")

-- `v.(float64)`.
abbrev pub as_number : Json → Outcome ℕ
as_number (number bits) = returned bits
as_number _ = panicked

-- A conversion that does not end the process, and has at most one event and no error.
abbrev pub Small : Outcome Conversion → Type 0
Small (returned c) = (c.errors ≡ []) × (length c.events ≤ 1)
Small panicked = Unit
Small exited = ⊥

pub as_string-Small :
    (j : Json) (k : Text → Outcome Conversion)
    → ((s : Text) → Small (k s))
    → Small (as_string j >>= k)
as_string-Small (string s) k h = h s
as_string-Small null k h = tt
as_string-Small (boolean b) k h = tt
as_string-Small (number n) k h = tt
as_string-Small (array a) k h = tt
as_string-Small (object o) k h = tt

pub as_number-Small :
    (j : Json) (k : ℕ → Outcome Conversion) → ((n : ℕ) → Small (k n)) → Small (as_number j >>= k)
as_number-Small (number n) k h = h n
as_number-Small null k h = tt
as_number-Small (boolean b) k h = tt
as_number-Small (string s) k h = tt
as_number-Small (array a) k h = tt
as_number-Small (object o) k h = tt

pub if-Small :
    (b : Bool) (x y : Outcome Conversion) → Small x → Small y → Small (if b then x else y)
if-Small true x y h k = h
if-Small false x y h k = k

pub nothing-Small : Small (returned nothing)
nothing-Small = (refl, omega arith)

-- Behind the deferred `recover()` it always returns.
pub recover_with-Small :
    (m : Outcome Conversion)
    → Small m
    → (c : Conversion) × (recover_with nothing m ≡ returned c)
      × (c.errors ≡ [])
      × (length c.events ≤ 1)
recover_with-Small (returned c) h = (c, refl, h.0, h.1)
recover_with-Small panicked h = (nothing, refl, refl, omega arith)
recover_with-Small exited h = absurd h
