-- ===== src/Calendar.antt =====
-- `time.Parse` of Go's standard library for the layout "01/02 15:04:05 GMT 2006": `GMT` is a plain
-- word of it, so the result is in UTC.
pub mod Civil
pub mod Format
use mathlib.Core.List.{foldl}
use nsg_parser.Time.{Time, to_unix, utc}
use nsg_parser.Prelude.{
  ℕ, ◌+◌, ◌-◌, ◌*◌, ◌/◌, ◌%◌, ◌≡◌, refl, Bool, not, ◌&&◌, ◌||◌, Option, none, some, [], ◌∷◌, ltb,
  leb, ◌==◌, if◌then◌else◌, get_or, Text,
}
use mathlib.Core.Option
use nsg_parser.Prelude.Int.{ℤ, pos, ◌-ℤ◌, ◌+ℤ◌, ◌*ℤ◌, wrap64}

abbrev pub is_leap : ℕ → Bool
is_leap y = y % 4 == 0 && (not (y % 100 == 0) || y % 400 == 0)

-- The days of the year before a month.
abbrev pub days_before : ℕ → ℕ
days_before m =
    get_or (0 ∷ 0 ∷ 31 ∷ 59 ∷ 90 ∷ 120 ∷ 151 ∷ 181 ∷ 212 ∷ 243 ∷ 273 ∷ 304 ∷ 334 ∷ 365 ∷ []) m 0

abbrev pub days_in : ℕ → ℕ → ℕ
days_in m y = if m == 2 && is_leap y then 29 else days_before (m + 1) - days_before m

-- The days from the first of January of the year 1; the sum begins 400 years earlier.
unfoldable pub days_since_year_1 : ℕ → ℕ → ℕ → ℤ
days_since_year_1 y m d =
    let n = y + 399 in
    let leap_day = if is_leap y && ltb 2 m then 1 else 0 in
    pos (365 * n + n / 4 - n / 100 + n / 400 + days_before m + leap_day + (d - 1)) -ℤ pos 146097

-- The number that decimal digits spell.
unfoldable pub number_of : Text → ℕ
number_of = foldl (λ n c. n * 10 + (c - b'0')) 0

abbrev pub in_range : ℕ → ℕ → ℕ → ℕ → ℕ → Bool
in_range y m d h mi = leb 1 m && leb m 12 && leb 1 d && leb d (days_in m y) && ltb h 24 && ltb mi 60

-- A field out of its range is an error, and the result is then the zero time.
unfoldable pub parse_date : ℕ → ℕ → ℕ → ℕ → ℕ → Option Time
parse_date y m d h mi =
    if in_range y m d h mi
    then some (record {
      sec = (pos 86400 *ℤ days_since_year_1 y m d) +ℤ pos (3600 * h + 60 * mi);
      nsec = 0;
      loc = utc;
    })
    else none

-- 2017-06-09 21:00:00 UTC is 1497042000.
parse_date_runs : Option.map (λ t. to_unix t) (parse_date 2017 6 9 21 0) ≡ some (pos 1497042000)
unfolding parse_date days_since_year_1 to_unix ◌+ℤ◌ ◌-ℤ◌ ◌*ℤ◌ wrap64
parse_date_runs = refl
