-- ===== src/Process/BeginTime.antt =====
-- `time.Parse` for the layout "2006-01-02-15-04-05-GMT" of cmd/process_commands.go.
pub mod Hours
use nsg_parser.Prelude.Int.{◌+ℤ◌, pos}
use nsg_parser.Time.{Time, zero_time}
use nsg_parser.Regex.{digit}
use nsg_parser.Calendar.{number_of, parse_date}
use nsg_parser.Prelude.{
  ℕ, zero, suc, Option, [], ◌∷◌, ◌++◌, ltb, ◌==◌, if◌then◌else◌, Text, codes, some, none,
}

infixl 5 ◌>>=◌
abbrev pub ◌>>=◌ {ℓ κ} : {A : Type ℓ} {B : Type κ} → Option A → (A → Option B) → Option B
none >>= k = none
some a >>= k = k a

-- Exactly `n` digits, and the rest.
unfoldable pub digits : ℕ → Text → Option (Text × Text)
digits zero s = some ([], s)
digits (suc n) [] = none
digits (suc n) (c ∷ s) =
    let rest = digits n s in if digit c then rest >>= (λ r. some (c ∷ r.0, r.1)) else none

-- One digit, or two where the second is one.
abbrev pub one_or_two : Option (Text × Text) → Option (Text × Text) → Option (Text × Text)
one_or_two (some two) o = some two
one_or_two none o = o

unfoldable pub hour_digits : Text → Option (Text × Text)
hour_digits s = one_or_two (digits 2 s) (digits 1 s)

-- A text of the layout that is no field.
unfoldable pub after_literal : Text → Text → Option Text
after_literal [] s = some s
after_literal (p ∷ ps) [] = none
after_literal (p ∷ ps) (c ∷ s) = let rest = after_literal ps s in if c == p then rest else none

abbrev pub at_end : {A : Type 0} → A → Text → Option A
at_end a [] = some a
at_end a (c ∷ s) = none

abbrev pub add_seconds : ℕ → Time → Time
add_seconds n t = record t { sec = t.sec +ℤ pos n }

-- A fraction of a second cannot stand in front of "-GMT" in a text that ends in "-00-00-GMT".
unfoldable pub parse_layout : Text → Option Time
parse_layout value = do
  year ← digits 4 value
  s1 ← after_literal (codes "-") year.1
  month ← digits 2 s1
  s2 ← after_literal (codes "-") month.1
  day ← digits 2 s2
  s3 ← after_literal (codes "-") day.1
  hour ← hour_digits s3
  s4 ← after_literal (codes "-") hour.1
  minute ← digits 2 s4
  s5 ← after_literal (codes "-") minute.1
  second ← digits 2 s5
  s6 ← after_literal (codes "-GMT") second.1
  checked ← at_end second.0 s6
  time ←
      parse_date (number_of year.0) (number_of month.0) (number_of day.0) (number_of hour.0)
        (number_of minute.0)
  if ltb (number_of checked) 60 then some (add_seconds (number_of checked) time) else none

abbrev pub or_zero : Option Time → Time
or_zero none = zero_time
or_zero (some t) = t

-- An error leaves the zero time.
unfoldable pub begin_time_of : Text → Time
begin_time_of begin_time = or_zero (parse_layout (begin_time ++ codes "-00-00-GMT"))
