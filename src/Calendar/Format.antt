-- ===== src/Calendar/Format.antt =====
-- `time.Time.Format` for the layouts "y=2006/m=01/d=02/h=15" and "2006-01-02-15" of parser/, and
-- that the calendar reads the fields back.
use nsg_parser.Prelude.Int.{ℤ, ◌+ℤ◌, ◌-ℤ◌, format_ℕ, pos, negsuc, ◌*ℤ◌}
use nsg_parser.Time.{Time, utc, local}
use nsg_parser.Calendar.{is_leap, number_of, days_since_year_1, in_range, parse_date}
use nsg_parser.Prelude.{
  ℕ, suc, ◌+◌, ◌-◌, ◌*◌, ◌/◌, ◌%◌, ◌≡◌, [], ◌∷◌, ◌++◌, arith, ltb, if◌then◌else◌, Text, codes, ◌<◌,
  true, refl, some, get_or, List,
}
use nsg_parser.Calendar.Civil.{
  years_and_day, month_and_day, days_of_years, Dated, years_and_day_lem, month_and_day-Dated,
}

-- `zone` is the offset of the local time zone at an instant, in seconds.
abbrev pub clock_seconds : (ℤ → ℤ) → Time → ℤ
clock_seconds zone t = elim (t.loc) [ utc ↦ t.sec | local ↦ t.sec +ℤ zone t.sec ]

-- The day from the first of January of the year 1, rounded down, and the second of the day.
abbrev pub day_and_second : ℤ → ℤ × ℕ
day_and_second (pos s) = (pos (s / 86400), s % 86400)
day_and_second (negsuc s) = (negsuc (s / 86400), 86399 - s % 86400)

abbrev pub dated : ℕ × ℕ → ℕ × ℕ × ℕ
dated (y, r) = let (m, d) = month_and_day (is_leap (y + 1)) r in (y + 1, m, d)

-- The year, the month, and the day. A day before the year 1 is moved by whole cycles.
unfoldable pub civil : ℤ → ℤ × ℕ × ℕ
civil (pos n) = let (y, m, d) = dated (years_and_day n) in (pos y, m, d)
civil (negsuc n) =
    let cycles = n / 146097 + 1 in
    let (y, m, d) = dated (years_and_day (146097 * cycles - 1 - n)) in
    (pos y -ℤ pos (400 * cycles), m, d)

unfoldable pub two_digits : ℕ → Text
two_digits n = (b'0' + n / 10) ∷ (b'0' + n % 10) ∷ []

unfoldable pub four_digits : ℕ → Text
four_digits n =
    (b'0' + n / 1000) ∷ (b'0' + n / 100 % 10) ∷ (b'0' + n / 10 % 10) ∷ (b'0' + n % 10) ∷ []

abbrev pub at_least_four : ℕ → Text
at_least_four n = if ltb n 10000 then four_digits n else format_ℕ n

abbrev pub year_text : ℤ → Text
year_text (pos y) = at_least_four y
year_text (negsuc y) = b'-' ∷ at_least_four (suc y)

-- The fields of a time: the year, the month, the day, and the hour.
abbrev pub fields_of : (ℤ → ℤ) → Time → ℤ × ℕ × ℕ × ℕ
fields_of zone t =
    let (day, second) = day_and_second (clock_seconds zone t) in
    let (y, m, d) = civil day in (y, m, d, second / 3600)

unfoldable pub format_file_time : (ℤ → ℤ) → Time → Text
format_file_time zone t =
    let (y, m, d, h) = fields_of zone t in
    codes "y="
    ++ (year_text y
        ++ (codes "/m="
            ++ (two_digits m ++ (codes "/d=" ++ (two_digits d ++ (codes "/h=" ++ two_digits h))))))

unfoldable pub format_short : (ℤ → ℤ) → Time → Text
format_short zone t =
    let (y, m, d, h) = fields_of zone t in
    year_text y
    ++ (codes "-" ++ (two_digits m ++ (codes "-" ++ (two_digits d ++ (codes "-" ++ two_digits h)))))

abbrev pub month_names : List Text
month_names =
    []
    ∷ codes "Jan"
    ∷ codes "Feb"
    ∷ codes "Mar"
    ∷ codes "Apr"
    ∷ codes "May"
    ∷ codes "Jun"
    ∷ codes "Jul"
    ∷ codes "Aug"
    ∷ codes "Sep"
    ∷ codes "Oct"
    ∷ codes "Nov"
    ∷ codes "Dec"
    ∷ []

abbrev pub month_name : ℕ → Text
month_name m = get_or month_names m []

-- The layout "Jan 02 15:04:05" of parser/cef.go.
unfoldable pub format_cef_time : (ℤ → ℤ) → Time → Text
format_cef_time zone t =
    let (y, m, d, h) = fields_of zone t in
    let second = (day_and_second (clock_seconds zone t)).1 in
    month_name m
    ++ (codes " "
        ++ (two_digits d
            ++ (codes " "
                ++ (two_digits h
                    ++ (codes ":"
                        ++ (two_digits (second / 60 % 60)
                            ++ (codes ":" ++ two_digits (second % 60))))))))

pub number_of-two_digits : (n : ℕ) → number_of (two_digits n) ≡ n
unfolding number_of two_digits
number_of-two_digits n = omega arith

pub number_of-four_digits : (n : ℕ) → number_of (four_digits n) ≡ n
unfolding number_of four_digits
number_of-four_digits n = omega arith

cycle_on : (y : ℕ) → days_of_years (y + 400) ≡ days_of_years y + 146097
cycle_on y = omega arith

less_cycle : (a n : ℕ) → a ≡ n + 146097 → pos a -ℤ pos 146097 ≡ pos n
unfolding ◌-ℤ◌
less_cycle a n h = ground arith

days_since_year_1-Dated :
    (n y r m d : ℕ)
    → days_of_years y + r ≡ n
    → Dated (is_leap (y + 1)) r m d
    → days_since_year_1 (y + 1) m d ≡ pos n
unfolding days_since_year_1
days_since_year_1-Dated n y r m d h t = less_cycle _ n (omega (arith, cycle_on y, t.day_is, h))

in_range-Dated :
    (y r m d h : ℕ) → h < 24 → Dated (is_leap (y + 1)) r m d → in_range (y + 1) m d h 0 ≡ true
in_range-Dated y r m d h lt t =
    let hour : ltb h 24 ≡ true = ground arith in
    rw (t.month_from, t.month_to, t.day_from, t.day_to, hour) refl

seconds_lem :
    (n h : ℕ) → (pos 86400 *ℤ pos n) +ℤ pos (3600 * h + 60 * 0) ≡ pos (86400 * n + 3600 * h)
unfolding ◌*ℤ◌ ◌+ℤ◌
seconds_lem n h = ground arith

-- The start of the hour.
abbrev pub hour_start : ℕ → Time
hour_start s = record { sec = pos (s / 3600 * 3600); nsec = 0; loc = utc }

pub parse_date-dated :
    (s : ℕ)
    → let (y, m, d) = dated (years_and_day (s / 86400)) in
      parse_date y m d (s % 86400 / 3600) 0 ≡ some (hour_start s)
unfolding parse_date
parse_date-dated s =
    let n = s / 86400 in
    let (total, in_year, leap) = years_and_day_lem n in
    let y = (years_and_day n).0 in
    let r = (years_and_day n).1 in
    let h = s % 86400 / 3600 in
    let t = month_and_day-Dated (is_leap (y + 1)) r in_year leap in
    let e : 86400 * n + 3600 * h ≡ s / 3600 * 3600 = omega arith in
    rw
      (
        in_range-Dated y r _ _ h (omega arith) t,
        days_since_year_1-Dated n y r _ _ total t,
        seconds_lem n h,
        e,
      )
      refl
