-- ===== src/Calendar/Civil.antt =====
-- `Date` and `Clock` of Go's `time.Time` (`absDate`, in its cycles of 400, 100, 4 and 1 years), and
-- that they undo what the calendar counts.

use nsg_parser.Prelude.{
  ℕ, ◌+◌, ◌-◌, ◌*◌, ◌/◌, ◌%◌, ◌≤◌, ◌<◌, ◌≡◌, true, arith, zero, suc, refl, inl, inr, Bool, false,
  ◌&&◌, ltb, leb, ◌==◌, if◌then◌else◌, Bool-cases, ==_iff,
}
use nsg_parser.Calendar.{is_leap, days_before}

-- A day from the first of January of the year 1: the years before it, and the day of its year.
abbrev pub centuries : ℕ → ℕ
centuries d = d / 36524 - d / 36524 / 4

abbrev pub years_of : ℕ → ℕ
years_of d = d / 365 - d / 365 / 4

unfoldable pub years_and_day : ℕ → ℕ × ℕ
years_and_day n =
    let d1 = n % 146097 in
    let b = centuries d1 in
    let d2 = d1 - 36524 * b in
    let c = d2 / 1461 in
    let d3 = d2 - 1461 * c in
    let e = years_of d3 in (400 * (n / 146097) + 100 * b + 4 * c + e, d3 - 365 * e)

centuries_lem :
    (d : ℕ)
    → d < 146097
    → (centuries d ≤ 3)
      × (36524 * centuries d ≤ d)
      × (d ≤ 36524 * centuries d + 36524)
      × (centuries d < 3 → d < 36524 * centuries d + 36524)
centuries_lem d h = omega arith

fours_lem :
    (d : ℕ)
    → d ≤ 36524
    → (d / 1461 ≤ 24)
      × (1461 * (d / 1461) ≤ d)
      × (d < 1461 * (d / 1461) + 1461)
      × (d < 36524 → d / 1461 ≡ 24 → d < 1461 * (d / 1461) + 1460)
fours_lem d h = omega arith

years_of_lem :
    (d : ℕ)
    → d < 1461
    → (years_of d ≤ 3)
      × (365 * years_of d ≤ d)
      × (d ≤ 365 * years_of d + 365)
      × (d ≡ 365 * years_of d + 365 → (years_of d ≡ 3) × (d ≡ 1460))
years_of_lem d h = omega arith

-- How far the closed sum of `days_since_year_1` has come at the end of `y` years.
abbrev pub days_of_years : ℕ → ℕ
days_of_years y = 365 * y + y / 4 - y / 100 + y / 400

days_of_years_lem :
    (a b c e : ℕ)
    → b ≤ 3
    → c ≤ 24
    → e ≤ 3
    → days_of_years (400 * a + 100 * b + 4 * c + e) ≡ 146097 * a + 36524 * b + 1461 * c + 365 * e
days_of_years_lem a b c e hb hc he = omega arith

is_leap_lem :
    (a b c : ℕ)
    → b ≤ 3
    → c ≤ 24
    → (c ≡ 24 → b ≡ 3)
    → is_leap (400 * a + 100 * b + 4 * c + 3 + 1) ≡ true
is_leap_lem a b c hb hc h = ground arith

total_lem :
    (n a d b c e : ℕ)
    → n ≡ 146097 * a + d
    → 36524 * b ≤ d
    → 1461 * c ≤ d - 36524 * b
    → 365 * e ≤ d - 36524 * b - 1461 * c
    → 146097 * a + 36524 * b + 1461 * c + 365 * e + (d - 36524 * b - 1461 * c - 365 * e) ≡ n
total_lem n a d b c e hn hb hc he = omega arith

leap_day_lem :
    (d b c e : ℕ)
    → b ≤ 3
    → 36524 * b ≤ d
    → (b < 3 → d < 36524 * b + 36524)
    → (d - 36524 * b < 36524 → c ≡ 24 → d - 36524 * b < 1461 * c + 1460)
    → (d - 36524 * b - 1461 * c ≡ 365 * e + 365 → (e ≡ 3) × (d - 36524 * b - 1461 * c ≡ 1460))
    → d - 36524 * b - 1461 * c - 365 * e ≡ 365
    → (e ≡ 3) × (c ≡ 24 → b ≡ 3)
leap_day_lem d b c e h1 h2 h3 h4 h5 h =
    let (he, hd) = h5 (omega arith) in
    (
      he,
      λ hc. elim (Bool-cases (ltb b 3)) [
        | inl lt ↦
            let below : b < 3 = ground arith in
            let small : d - 36524 * b < 36524 = omega (arith, h3 below) in
            absurd (omega (arith, h4 small hc))
        | inr ge ↦ ground arith
      ],
    )

-- The parts of a day: so many cycles of each length.
record Parts (n a b c e r : ℕ) : Type 0 where
  total : 146097 * a + 36524 * b + 1461 * c + 365 * e + r ≡ n
  few_b : b ≤ 3
  few_c : c ≤ 24
  few_e : e ≤ 3
  in_year : r ≤ 365
  leap_day : r ≡ 365 → (e ≡ 3) × (c ≡ 24 → b ≡ 3)

years_and_day-Parts :
    (n : ℕ)
    → let d1 = n % 146097 in
      let b = centuries d1 in
      let d2 = d1 - 36524 * b in
      let c = d2 / 1461 in
      let d3 = d2 - 1461 * c in let e = years_of d3 in Parts n (n / 146097) b c e (d3 - 365 * e)
years_and_day-Parts n =
    let d1 = n % 146097 in
    let b = centuries d1 in
    let d2 = d1 - 36524 * b in
    let c = d2 / 1461 in
    let d3 = d2 - 1461 * c in
    let e = years_of d3 in
    let (b1, b2, b3, b4) = centuries_lem d1 (omega arith) in
    let (c1, c2, c3, c4) = fours_lem d2 (omega (arith, b2, b3)) in
    let (e1, e2, e3, e4) = years_of_lem d3 (omega (arith, c2, c3)) in
    record {
      total = total_lem n (n / 146097) d1 b c e (omega arith) b2 c2 e2;
      few_b = b1;
      few_c = c1;
      few_e = e1;
      in_year = omega (arith, e2, e3);
      leap_day = leap_day_lem d1 b c e b1 b2 b4 c4 e4;
    }

pub years_and_day_lem :
    (n : ℕ)
    → let (y, r) = years_and_day n in
      (days_of_years y + r ≡ n) × (r ≤ 365) × (r ≡ 365 → is_leap (y + 1) ≡ true)
unfolding years_and_day
years_and_day_lem n =
    let p = years_and_day-Parts n in
    (
      rw (days_of_years_lem _ _ _ _ p.few_b p.few_c p.few_e) p.total,
      p.in_year,
      λ h. let (e3, cb) = p.leap_day h in rw e3 (is_leap_lem _ _ _ p.few_b p.few_c cb),
    )

-- The month and the day of the month of a day of the year, without the leap day.
abbrev pub plain_month_day : ℕ → ℕ × ℕ
plain_month_day d =
    if leb (days_before (d / 31 + 2)) d
    then (d / 31 + 2, d - days_before (d / 31 + 2) + 1)
    else (d / 31 + 1, d - days_before (d / 31 + 1) + 1)

unfoldable pub month_and_day : Bool → ℕ → ℕ × ℕ
month_and_day leap d =
    if leap && ltb 59 d
    then plain_month_day (d - 1)
    else if leap && d == 59
    then (2, 29)
    else plain_month_day d

-- What the month and the day have to do with the day of the year.
abbrev right_month_day : Bool → ℕ → Bool
right_month_day leap r =
    let (m, d) = month_and_day leap r in
    leb 1 m
    && (leb m 12
        && (leb 1 d
            && leb d 31
            && (leb d (if m == 2 && leap then 29 else days_before (m + 1) - days_before m)
                && days_before m + (if leap && ltb 2 m then 1 else 0) + (d - 1) == r)))

-- A test on each number below `n`.
all_below : ℕ → (ℕ → Bool) → Bool
all_below zero p = true
all_below (suc n) p = p n && all_below n p

and_elim : (a b : Bool) → a && b ≡ true → (a ≡ true) × (b ≡ true)
and_elim true b h = (refl, h)
and_elim false b h = absurd cc

all_below-elim : (n : ℕ) (p : ℕ → Bool) (i : ℕ) → all_below n p ≡ true → i < n → p i ≡ true
unfolding all_below
all_below-elim zero p i h lt = absurd (omega arith)
all_below-elim (suc n) p i h lt =
    let (holds, later) = and_elim (p n) (all_below n p) h in
    elim (Bool-cases (i == n)) [
      | inl e ↦ rw ((==_iff i n).0 e) holds
      | inr e ↦ all_below-elim n p i later (ground arith)
    ]

checked_leap : all_below 366 (right_month_day true) ≡ true
unfolding all_below month_and_day
checked_leap = refl

checked_plain : all_below 365 (right_month_day false) ≡ true
unfolding all_below month_and_day
checked_plain = refl

-- What a day of a year has for its month and day.
pub record Dated (leap : Bool) (r m d : ℕ) : Type 0 where
  pub month_from : leb 1 m ≡ true
  pub month_to : leb m 12 ≡ true
  pub day_from : leb 1 d ≡ true
  pub day_small : leb d 31 ≡ true
  pub day_to : leb d (if m == 2 && leap then 29 else days_before (m + 1) - days_before m) ≡ true
  pub day_is : days_before m + (if leap && ltb 2 m then 1 else 0) + (d - 1) ≡ r

dated_of : (leap : Bool) (r : ℕ) → r ≤ 365 → (r ≡ 365 → leap ≡ true) → right_month_day leap r ≡ true
dated_of true r h k = all_below-elim 366 (right_month_day true) r checked_leap (omega arith)
dated_of false r h k =
    all_below-elim 365 (right_month_day false) r checked_plain (elim (Bool-cases (r == 365)) [
      | inl e ↦ let clash : false ≡ true = k ((==_iff r 365).0 e) in absurd cc
      | inr e ↦ ground arith
    ])

pub month_and_day-Dated :
    (leap : Bool) (r : ℕ)
    → r ≤ 365
    → (r ≡ 365 → leap ≡ true)
    → let (m, d) = month_and_day leap r in Dated leap r m d
month_and_day-Dated leap r h k =
    let (m, d) = month_and_day leap r in
    let (a, t1) = and_elim (leb 1 m) _ (dated_of leap r h k) in
    let (b, t2) = and_elim (leb m 12) _ t1 in
    let (c', t3) = and_elim (leb 1 d && leb d 31) _ t2 in
    let (c, l) = and_elim (leb 1 d) (leb d 31) c' in
    let (e, f) = and_elim _ _ t3 in
    record {
      month_from = a;
      month_to = b;
      day_from = c;
      day_small = l;
      day_to = e;
      day_is = (==_iff _ r).0 f;
    }
