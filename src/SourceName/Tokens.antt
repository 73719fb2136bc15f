-- ===== src/SourceName/Tokens.antt =====
-- The pattern of a blob's name (parser/event_log_file.go) against texts of its form.
use nsg_parser.SourceName.Split.{append-injective}
use nsg_parser.Regex.Matches.{Matches, skip_inv, literal_inv, group_inv, skip, literally, grouped}
use nsg_parser.FileName.{
  digits_group, logged_resource_file_regexp, minute_on, hour_on, day_on, month_on,
}
use nsg_parser.Regex.{Regex, digit, times, Captures, seq, dot, literal, star, group}
use nsg_parser.Prelude.{
  ℕ, zero, suc, ◌≡◌, refl, ap, ◌∙◌, true, [], ◌∷◌, ◌++◌, length, All, Text, codes, sym, subst,
}

-- What stands behind "/y=": the year, the month, the day, the hour, the minute, and the rest.
abbrev pub stamp : Text → Text → Text → Text → Text → Text → Text
stamp y m d h mi rest =
    y
    ++ (codes "/m="
        ++ (m ++ (codes "/d=" ++ (d ++ (codes "/h=" ++ (h ++ (codes "/m=" ++ (mi ++ rest))))))))

-- The lengths of the five numbers.
pub record Numbers (y m d h mi : Text) : Type 0 where
  pub year_length : length y ≡ 4
  pub month_length : length m ≡ 2
  pub day_length : length d ≡ 2
  pub hour_length : length h ≡ 2
  pub minute_length : length mi ≡ 2

Matches-times_inv :
    (n : ℕ) (t : Text) (caps : Captures)
    → Matches (times n digit) t caps
    → (length t ≡ n) × (caps ≡ [])
Matches-times_inv zero t caps (e, ec) = (ap length e, ec)
Matches-times_inv (suc n) t caps (u, v, c, d, (x, _, eu, ec), m, et, e) =
    let (l, ed) = Matches-times_inv n v d m in (rw (et, eu) (ap suc l), e ∙ rw (ed, ec))

Matches-times : (t : Text) → All (λ c. digit c ≡ true) t → Matches (times (length t) digit) t []
Matches-times [] a = (refl, refl)
Matches-times (c ∷ t) a = (c ∷ [], t, [], [], (c, a.0, refl, refl), Matches-times t a.1, refl, refl)

module _ (r : Regex) where
  digits_inv :
      (n : ℕ) {t : Text} {caps : Captures}
      → Matches (seq (digits_group n) r) t caps
      → (u : Text) × (v : Text) × (d : Captures) × (t ≡ u ++ v)
        × (length u ≡ n)
        × Matches r v d
        × (caps ≡ d ++ u ∷ [])
  digits_inv n (u, v, c, d, (inner, m, ec), m', et, e) =
      let (l, ei) = Matches-times_inv n u inner m in (u, v, d, et, l, m', e ∙ rw (ec, ei))

  digits_grouped :
      (n : ℕ) (u v : Text) (caps : Captures)
      → length u ≡ n
      → All (λ c. digit c ≡ true) u
      → Matches r v caps
      → Matches (seq (digits_group n) r) (u ++ v) (caps ++ u ∷ [])
  digits_grouped n u v caps l a m = (
    u,
    v,
    u ∷ [],
    caps,
    ([], subst (λ k. Matches (times k digit) u []) l (Matches-times u a), refl),
    m,
    refl,
    refl,
  )

-- A match shows its parts.
pub record Shown (t : Text) (caps : Captures) : Type 0 where
  pub front : Text
  pub resource : Text
  pub year : Text
  pub month : Text
  pub day : Text
  pub hour : Text
  pub minute : Text
  pub rest : Text
  pub numbers : Numbers year month day hour minute
  pub text_is :
      t
      ≡ front ++ (codes "/" ++ (resource ++ (codes "/y=" ++ stamp year month day hour minute rest)))
  pub groups : caps ≡ minute ∷ hour ∷ day ∷ month ∷ year ∷ resource ∷ []

abbrev behind_year : Regex
behind_year = seq (digits_group 4) month_on

abbrev named : Regex
named = seq (group (star dot)) (seq (literal (codes "/y=")) behind_year)

-- Two digits, and what follows them.
abbrev number_then : Regex → Regex
number_then r = seq (digits_group 2) r

pub Matches-Shown :
    (t : Text) (caps : Captures) → Matches logged_resource_file_regexp t caps → Shown t caps
Matches-Shown t caps m =
    let (p, t1, e1, m1) = skip_inv (seq (literal (codes "/")) named) m in
    let (t2, e2, m2) = literal_inv named (codes "/") m1 in
    let (n, t3, c3, e3, _, m3, g3) = group_inv (seq (literal (codes "/y=")) behind_year) m2 in
    let (t4, e4, m4) = literal_inv behind_year (codes "/y=") m3 in
    let (y, t5, c5, e5, l5, m5, g5) = digits_inv month_on 4 m4 in
    let (t6, e6, m6) = literal_inv (number_then day_on) (codes "/m=") m5 in
    let (mo, t7, c7, e7, l7, m7, g7) = digits_inv day_on 2 m6 in
    let (t8, e8, m8) = literal_inv (number_then hour_on) (codes "/d=") m7 in
    let (d, t9, c9, e9, l9, m9, g9) = digits_inv hour_on 2 m8 in
    let (t10, e10, m10) = literal_inv (number_then minute_on) (codes "/h=") m9 in
    let (h, t11, c11, e11, l11, m11, g11) = digits_inv minute_on 2 m10 in
    let (t12, e12, m12) = literal_inv (number_then (star dot)) (codes "/m=") m11 in
    let (mi, t13, c13, e13, l13, m13, g13) = digits_inv (star dot) 2 m12 in
    record {
      front = p;
      resource = n;
      year = y;
      month = mo;
      day = d;
      hour = h;
      minute = mi;
      rest = t13;
      numbers = record {
        year_length = l5;
        month_length = l7;
        day_length = l9;
        hour_length = l11;
        minute_length = l13;
      };
      text_is =
          e1
          ∙ ap (λ x. p ++ x)
              (e2
                ∙ ap (λ x. (codes "/") ++ x)
                    (e3
                      ∙ ap (λ x. n ++ x)
                          (e4
                            ∙ ap (λ x. (codes "/y=") ++ x)
                                (e5
                                  ∙ ap (λ x. y ++ x)
                                      (e6
                                        ∙ ap (λ x. (codes "/m=") ++ x)
                                            (e7
                                              ∙ ap (λ x. mo ++ x)
                                                  (e8
                                                    ∙ ap (λ x. (codes "/d=") ++ x)
                                                        (e9
                                                          ∙ ap (λ x. d ++ x)
                                                            (e10
                                                            ∙ ap (λ x. (codes "/h=") ++ x)
                                                            (e11
                                                            ∙ ap (λ x. h ++ x)
                                                            (e12
                                                            ∙ ap (λ x. (codes "/m=") ++ x)
                                                            (e13))))))))))));
      groups =
          g3
          ∙ ap (λ c. c ++ n ∷ [])
              (g5
                ∙ ap (λ c. c ++ y ∷ [])
                    (g7
                      ∙ ap (λ c. c ++ mo ∷ [])
                          (g9
                            ∙ ap (λ c. c ++ d ∷ [])
                                (g11
                                  ∙ ap (λ c. c ++ h ∷ [])
                                      (g13 ∙ ap (λ c. c ++ mi ∷ []) (m13.1))))));
    }

-- The same number of characters, in front of the same literal.
same_number :
    (s u u' v v' : Text) (n : ℕ)
    → length u ≡ n
    → length u' ≡ n
    → u ++ (s ++ v) ≡ u' ++ (s ++ v')
    → (u ≡ u') × (v ≡ v')
same_number s u u' v v' n l l' e =
    let (eu, ev) = append-injective u u' (s ++ v) (s ++ v') (l ∙ sym l') e in
    (eu, (append-injective s s v v' refl ev).1)

-- A stamp has one reading.
pub stamp-injective :
    {y m d h mi y' m' d' h' mi' : Text} (rest rest' : Text)
    → Numbers y m d h mi
    → Numbers y' m' d' h' mi'
    → stamp y m d h mi rest ≡ stamp y' m' d' h' mi' rest'
    → (y ≡ y') × (m ≡ m') × (d ≡ d') × (h ≡ h') × (mi ≡ mi')
stamp-injective {y} {m} {d} {h} {mi} {y'} {m'} {d'} {h'} {mi'} rest rest' n n' e =
    let (ey, e1) = same_number (codes "/m=") y y' _ _ 4 n.year_length n'.year_length e in
    let (em, e2) = same_number (codes "/d=") m m' _ _ 2 n.month_length n'.month_length e1 in
    let (ed, e3) = same_number (codes "/h=") d d' _ _ 2 n.day_length n'.day_length e2 in
    let (eh, e4) = same_number (codes "/m=") h h' _ _ 2 n.hour_length n'.hour_length e3 in
    (
      ey,
      em,
      ed,
      eh,
      (append-injective mi mi' rest rest' (n.minute_length ∙ sym n'.minute_length) e4).0,
    )

-- The parts, put together, match.
pub Matches-parts :
    (front n y m d h mi rest : Text)
    → All (λ c. dot c ≡ true) front
    → All (λ c. dot c ≡ true) n
    → Numbers y m d h mi
    → All (λ c. digit c ≡ true) y
      × All (λ c. digit c ≡ true) m
      × All (λ c. digit c ≡ true) d
      × All (λ c. digit c ≡ true) h
      × All (λ c. digit c ≡ true) mi
    → All (λ c. dot c ≡ true) rest
    → Matches logged_resource_file_regexp
        (front ++ (codes "/" ++ (n ++ (codes "/y=" ++ stamp y m d h mi rest))))
        (mi ∷ h ∷ d ∷ m ∷ y ∷ n ∷ [])
Matches-parts front n y m d h mi rest af an l a ar =
    let t1 = mi ++ rest in
    let t2 = h ++ (codes "/m=" ++ t1) in
    let t3 = d ++ (codes "/h=" ++ t2) in
    let t4 = m ++ (codes "/d=" ++ t3) in
    let t5 = y ++ (codes "/m=" ++ t4) in
    let t6 = n ++ (codes "/y=" ++ t5) in
    let m1 = digits_grouped (star dot) 2 mi rest [] l.minute_length a.4 (ar, refl) in
    let m2 =
      digits_grouped minute_on 2 h (codes "/m=" ++ t1) (mi ∷ []) l.hour_length a.3
        (literally (number_then (star dot)) (codes "/m=") t1 m1) in
    let m3 =
      digits_grouped hour_on 2 d (codes "/h=" ++ t2) (mi ∷ h ∷ []) l.day_length a.2
        (literally (number_then minute_on) (codes "/h=") t2 m2) in
    let m4 =
      digits_grouped day_on 2 m (codes "/d=" ++ t3) (mi ∷ h ∷ d ∷ []) l.month_length a.1
        (literally (number_then hour_on) (codes "/d=") t3 m3) in
    let m5 =
      digits_grouped month_on 4 y (codes "/m=" ++ t4) (mi ∷ h ∷ d ∷ m ∷ []) l.year_length a.0
        (literally (number_then day_on) (codes "/m=") t4 m4) in
    let m6 =
      grouped (seq (literal (codes "/y=")) behind_year) dot n (codes "/y=" ++ t5)
        (mi ∷ h ∷ d ∷ m ∷ y ∷ []) an (literally behind_year (codes "/y=") t5 m5) in
    skip (seq (literal (codes "/")) named) dot front (codes "/" ++ t6) af
      (literally named (codes "/") t6 m6)
