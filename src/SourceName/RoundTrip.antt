-- ===== src/SourceName/RoundTrip.antt =====
-- The time in the name that a record gives to its blob is the record's, to the hour.
use nsg_parser.SourceName.Tokens.{Numbers}
use nsg_parser.FileName.{name_tokens, log_time_of, get_log_time_from_name}
use nsg_parser.SourceName.Unique.{stamped_name, IsResourceId, name_tokens-stamped}
use nsg_parser.Calendar.Civil.{years_and_day, years_and_day_lem, month_and_day-Dated}
use nsg_parser.SourceName.{source_file_name}
use nsg_parser.Calendar.{is_leap, number_of}
use nsg_parser.Prelude.Int.{pos, ℤ}
use nsg_parser.Time.{Time, utc}
use nsg_parser.Regex.{digit}
use nsg_parser.Prelude.{
  ℕ, ◌<◌, ◌≡◌, true, arith, All, ◌+◌, ◌/◌, ◌%◌, append_assoc, ltb, Text, refl, ap, ◌∙◌, none, some,
  [], ◌∷◌, codes,
}
use nsg_parser.Calendar.Format.{
  two_digits, four_digits, dated, civil, format_file_time, number_of-two_digits,
  number_of-four_digits, hour_start, parse_date-dated,
}

pub two_digits-digit : (n : ℕ) → n < 100 → All (λ c. digit c ≡ true) (two_digits n)
unfolding two_digits
two_digits-digit n h = (ground arith, (ground arith, tt))

pub four_digits-digit : (n : ℕ) → n < 10000 → All (λ c. digit c ≡ true) (four_digits n)
unfolding four_digits
four_digits-digit n h = (ground arith, (ground arith, (ground arith, (ground arith, tt))))

-- The end of the year 9999.
abbrev pub year_10000 : ℕ
year_10000 = 315537897600

-- A time in UTC of the years 1 to 9999.
pub record IsUtc (t : Time) (s : ℕ) : Type 0 where
  pub in_utc : t.loc ≡ utc
  pub sec_is : t.sec ≡ pos s
  pub in_range : s < year_10000

-- The four texts of the numbers of a time.
module _ (s : ℕ) where
  abbrev pub day_number : ℕ
  day_number = s / 86400

  abbrev pub date_of : ℕ × ℕ × ℕ
  date_of = dated (years_and_day day_number)

  abbrev pub hour_of : ℕ
  hour_of = s % 86400 / 3600

  pub record Small : Type 0 where
    pub year_small : date_of.0 < 10000
    pub month_small : date_of.1 < 100
    pub day_small : date_of.2 < 100

  pub small : s < year_10000 → Small
  small lt =
      let (total, in_year, leap) = years_and_day_lem day_number in
      let t = month_and_day-Dated (is_leap ((years_and_day day_number).0 + 1)) _ in_year leap in
      record {
        year_small = omega (arith, total);
        month_small = ground (arith, t.month_to);
        day_small = ground (arith, t.day_small);
      }

  -- The name that is made for a time, by its parts.
  source_file_name-stamped :
      (zone : ℤ → ℤ) (id : Text) (t : Time)
      → IsUtc t s
      → source_file_name zone id t
        ≡ stamped_name id
            (four_digits date_of.0)
            (two_digits date_of.1)
            (two_digits date_of.2)
            (two_digits hour_of)
  unfolding source_file_name format_file_time civil
  source_file_name-stamped zone id t u =
      let year : ltb date_of.0 10000 ≡ true = ground (arith, (small u.in_range).year_small) in
      rw (u.in_utc, u.sec_is, year) (simp append_assoc)

  abbrev texts-Numbers :
      Numbers
        (four_digits date_of.0)
        (two_digits date_of.1)
        (two_digits date_of.2)
        (two_digits hour_of)
        (codes "00")
  unfolding four_digits two_digits
  texts-Numbers = record {
    year_length = refl;
    month_length = refl;
    day_length = refl;
    hour_length = refl;
    minute_length = refl;
  }

  log_time_of-texts :
      (n : Text)
      → log_time_of (
          some (
            n
            ∷ four_digits date_of.0
            ∷ two_digits date_of.1
            ∷ two_digits date_of.2
            ∷ two_digits hour_of
            ∷ codes "00"
            ∷ []))
        ≡ (hour_start s, none)
  unfolding number_of
  log_time_of-texts n =
      rw
        (
          number_of-four_digits date_of.0,
          number_of-two_digits date_of.1,
          number_of-two_digits date_of.2,
          number_of-two_digits hour_of,
          parse_date-dated s,
        )
        refl

-- The time in the name that a record gives to its blob, read back from the name, is the start of
-- the hour of the record's time, without an error, for a time in UTC of the years 1 to 9999 and a
-- resource id without a newline and without an equals sign that has a slash.
pub get_log_time_from_name-source_file_name :
    (zone : ℤ → ℤ) (id : Text) (t : Time) (s : ℕ)
    → IsResourceId id
    → IsUtc t s
    → get_log_time_from_name (source_file_name zone id t) ≡ (hour_start s, none)
unfolding get_log_time_from_name
get_log_time_from_name-source_file_name zone id t s i u =
    let k = small s u.in_range in
    let (n, e) =
      name_tokens-stamped id (four_digits (date_of s).0) (two_digits (date_of s).1)
        (two_digits (date_of s).2) (two_digits (hour_of s)) i
        (
          four_digits-digit _ k.year_small,
          two_digits-digit _ k.month_small,
          two_digits-digit _ k.day_small,
          two_digits-digit _ (omega arith),
        )
        (texts-Numbers s) in
    ap (λ name. log_time_of (name_tokens name)) (source_file_name-stamped s zone id t u)
    ∙ (ap log_time_of e ∙ log_time_of-texts s n)
