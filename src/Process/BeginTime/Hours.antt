-- ===== src/Process/BeginTime/Hours.antt =====
-- A begin_time that is written as an hour is read as that hour.

use nsg_parser.Prelude.Int.{ℤ, ◌+ℤ◌}
use nsg_parser.Time.{Time}
use nsg_parser.Regex.{digit}
use nsg_parser.Calendar.{number_of, parse_date}
use nsg_parser.Prelude.{
  ℕ, zero, suc, ◌<◌, ◌≡◌, refl, true, some, [], ◌∷◌, ◌++◌, arith, length, All, Text, codes, ap, ◌∙◌,
  Option, none, ltb, if◌then◌else◌, append_assoc,
}
use nsg_parser.Process.BeginTime.{
  ◌>>=◌, digits, hour_digits, after_literal, parse_layout, add_seconds, begin_time_of, or_zero,
}
use nsg_parser.SourceName.RoundTrip.{
  two_digits-digit, four_digits-digit, IsUtc, date_of, hour_of, small,
}
use nsg_parser.Calendar.Format.{
  two_digits, four_digits, number_of-two_digits, number_of-four_digits, civil, format_short,
  hour_start, parse_date-dated,
}

digits-append :
    (n : ℕ) (u rest : Text)
    → length u ≡ n
    → All (λ c. digit c ≡ true) u
    → digits n (u ++ rest) ≡ some (u, rest)
unfolding digits
digits-append zero [] rest l a = refl
digits-append zero (c ∷ u) rest l a = absurd (omega (arith, l))
digits-append (suc n) [] rest l a = absurd (omega (arith, l))
digits-append (suc n) (c ∷ u) rest l a =
    rw (a.0, digits-append n u rest (omega (arith, l)) a.1) refl

four_read :
    (y : ℕ) (rest : Text)
    → y < 10000
    → digits 4 (four_digits y ++ rest) ≡ some (four_digits y, rest)
unfolding four_digits
four_read y rest h = digits-append 4 (four_digits y) rest refl (four_digits-digit y h)

two_read :
    (n : ℕ) (rest : Text) → n < 100 → digits 2 (two_digits n ++ rest) ≡ some (two_digits n, rest)
unfolding two_digits
two_read n rest h = digits-append 2 (two_digits n) rest refl (two_digits-digit n h)

hour_read :
    (h : ℕ) (rest : Text) → h < 100 → hour_digits (two_digits h ++ rest) ≡ some (two_digits h, rest)
unfolding hour_digits
hour_read h rest lt = rw (two_read h rest lt) refl

zeros : (rest : Text) → digits 2 (b'0' ∷ b'0' ∷ rest) ≡ some (codes "00", rest)
unfolding digits
zeros rest = refl

minus : (rest : Text) → after_literal (codes "-") (codes "-" ++ rest) ≡ some rest
unfolding after_literal
minus rest = refl

ending : after_literal (codes "-GMT") (codes "-GMT") ≡ some []
unfolding after_literal
ending = refl

number_of_zeros : number_of (codes "00") ≡ 0
unfolding number_of
number_of_zeros = refl

-- The text of a date and an hour.
abbrev hour_text : ℕ → ℕ → ℕ → ℕ → Text
hour_text y m d h =
    four_digits y
    ++ (codes "-" ++ (two_digits m ++ (codes "-" ++ (two_digits d ++ (codes "-" ++ two_digits h)))))

-- A step of the parse that succeeds.
step :
    {A B : Type 0} {m : Option A} {a : A} {r : Option B} (k : A → Option B)
    → m ≡ some a
    → k a ≡ r
    → (m >>= k) ≡ r
step k e h = ap (λ m. m >>= k) e ∙ h

parse_layout-hour_text :
    (y m d h : ℕ) (t : Time)
    → y < 10000
    → m < 100
    → d < 100
    → h < 100
    → parse_date y m d h 0 ≡ some t
    → parse_layout (
        four_digits y
        ++ (codes "-"
            ++ (two_digits m
                ++ (codes "-"
                    ++ (two_digits d ++ (codes "-" ++ (two_digits h ++ codes "-00-00-GMT")))))))
      ≡ some (add_seconds 0 t)
unfolding parse_layout
parse_layout-hour_text y m d h t hy hm hd hh e =
    let timed : parse_date (number_of (four_digits y)) (number_of (two_digits m))
          (number_of (two_digits d)) (number_of (two_digits h)) (number_of (codes "00"))
        ≡ some t =
      rw
        (
          number_of-four_digits y,
          number_of-two_digits m,
          number_of-two_digits d,
          number_of-two_digits h,
          number_of_zeros,
        )
        e in
    let finish : Time → Option Time = λ time.
      if ltb (number_of (codes "00")) 60
      then some (add_seconds (number_of (codes "00")) time)
      else none in
    step _ (four_read y _ hy) (
      step _ (minus _) (
        step _ (two_read m _ hm) (
          step _ (minus _) (
            step _ (two_read d _ hd) (
              step _ (minus _) (
                step _ (hour_read h _ hh) (
                  step _ (minus _) (
                    step _ (zeros _) (
                      step _ (minus _) (
                        step _ (zeros _)
                          (step _ ending (step finish timed (rw number_of_zeros refl)))))))))))))

-- Adding no seconds.
no_seconds : (s : ℕ) → add_seconds 0 (hour_start s) ≡ hour_start s
unfolding ◌+ℤ◌
no_seconds s = ground arith

module _ (zone : ℤ → ℤ) (t : Time) (s : ℕ) (u : IsUtc t s) where
  -- The text that is parsed, by its parts.
  parsed_text :
      format_short zone t ++ codes "-00-00-GMT"
      ≡ four_digits (date_of s).0
        ++ (codes "-"
            ++ (two_digits (date_of s).1
                ++ (codes "-"
                    ++ (two_digits (date_of s).2
                        ++ (codes "-" ++ (two_digits (hour_of s) ++ codes "-00-00-GMT"))))))
  unfolding format_short civil
  parsed_text =
      let year : ltb (date_of s).0 10000 ≡ true = ground (arith, (small s u.in_range).year_small) in
      rw (u.in_utc, u.sec_is, year) (simp append_assoc)

  -- A begin_time that is written as the short name of a log file writes its time is read as the
  -- start of that hour, for a time in UTC of the years 1 to 9999.
  pub begin_time_of-format_short : begin_time_of (format_short zone t) ≡ hour_start s
  unfolding begin_time_of
  begin_time_of-format_short =
      let k = small s u.in_range in
      ap (λ text. or_zero (parse_layout text)) parsed_text
      ∙ (ap or_zero (
            parse_layout-hour_text (date_of s).0 (date_of s).1 (date_of s).2 (hour_of s)
              (hour_start s) k.year_small k.month_small k.day_small (omega arith)
              (parse_date-dated s))
          ∙ no_seconds s)
