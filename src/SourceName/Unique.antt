-- ===== src/SourceName/Unique.antt =====
-- The pattern of a blob's name reads the year, the month, the day, the hour, and the minute out of
-- the name that is made for a record.
use mathlib.Core.List.{reverse}
use nsg_parser.Regex.Matches.{MatchesIn}
use nsg_parser.Regex.Sound.{find_submatch_sound}
use nsg_parser.Regex.Complete.{find_submatch_complete}
use nsg_parser.FileName.{logged_resource_file_regexp, name_tokens}
use nsg_parser.Resource.{slash}
use nsg_parser.SourceName.Split.{
  count, count-append, first_separator, Lacks-split, Lacks-count, dot-count,
}
use nsg_parser.Regex.{digit, dot, Captures}
use nsg_parser.Prelude.{
  ℕ, ◌+◌, ◌≡◌, refl, ◌≢◌, true, [], ◌∷◌, ◌++◌, arith, All, Text, codes, ◌≤◌, sym, ap, ◌∙◌, inl, inr,
  false, append_assoc, ◌==◌, Lacks, All-append, some, append-nil,
}
use nsg_parser.SourceName.Tokens.{stamp, Numbers, Matches-Shown, Matches-parts, stamp-injective}

-- The name, for the texts of its numbers.
abbrev pub stamped_name : Text → Text → Text → Text → Text → Text
stamped_name id y m d h =
    codes "resourceId=" ++ (id ++ (codes "/y=" ++ stamp y m d h (codes "00") (codes "/PT1H.json")))

-- Digits only.
abbrev pub AllDigits : Text → Text → Text → Text → Type 0
AllDigits y m d h =
    All (λ c. digit c ≡ true) y
    × All (λ c. digit c ≡ true) m
    × All (λ c. digit c ≡ true) d
    × All (λ c. digit c ≡ true) h

digits-Lacks : (s : Text) → All (λ c. digit c ≡ true) s → count b'=' s ≡ 0
unfolding count
digits-Lacks [] a = refl
digits-Lacks (c ∷ s) a = ground (arith, digits-Lacks s a.1, a.0)

count_literal :
    (c d : ℕ) (s : Text)
    → c == b'=' ≡ false
    → d == b'=' ≡ false
    → count b'=' (c ∷ d ∷ b'=' ∷ s) ≡ 1 + count b'=' s
unfolding count
count_literal c d s hc hd = ground arith

count-stamp :
    (y m d h mi rest : Text)
    → count b'=' (stamp y m d h mi rest)
      ≡ count b'=' y
        + count b'=' m
        + count b'=' d
        + count b'=' h
        + count b'=' mi
        + count b'=' rest
        + 4
count-stamp y m d h mi rest =
    let later1 : Text = mi ++ rest in
    let later2 : Text = h ++ (codes "/m=" ++ later1) in
    let later3 : Text = d ++ (codes "/h=" ++ later2) in
    let later4 : Text = m ++ (codes "/d=" ++ later3) in
    omega (
      arith,
      count-append b'=' y (codes "/m=" ++ later4),
      count-append b'=' m (codes "/d=" ++ later3),
      count-append b'=' d (codes "/h=" ++ later2),
      count-append b'=' h (codes "/m=" ++ later1),
      count-append b'=' mi rest,
      count_literal b'/' b'm' later4 refl refl,
      count_literal b'/' b'd' later3 refl refl,
      count_literal b'/' b'h' later2 refl refl,
      count_literal b'/' b'm' later1 refl refl,
    )

module _ (id y m d h : Text) (lacks : Lacks b'=' id) (all_digits : AllDigits y m d h)
    (numbers : Numbers y m d h (codes "00")) where
  abbrev tail : Text
  tail = stamp y m d h (codes "00") (codes "/PT1H.json")

  count-tail : count b'=' tail ≡ 4
  unfolding count
  count-tail = omega (
    arith,
    count-stamp y m d h (codes "00") (codes "/PT1H.json"),
    digits-Lacks y all_digits.0,
    digits-Lacks m all_digits.1,
    digits-Lacks d all_digits.2,
    digits-Lacks h all_digits.3,
  )

  -- Of the six equals signs of the name, the second is the one behind the year's letter.
  tail_of_match :
      (x w u v : Text)
      → stamped_name id y m d h ≡ x ++ b'=' ∷ w
      → x ≡ u ++ b'/' ∷ v
      → 4 ≤ count b'=' w
      → w ≡ tail
  unfolding count
  tail_of_match x w u v e slash many =
      elim (first_separator b'=' (codes "resourceId") (id ++ (codes "/y=" ++ tail)) x w
        (Lacks-count b'=' (codes "resourceId") refl) e) [
          | inl (ex, ew) ↦ absurd (
              Lacks-split b'/' (codes "resourceId") u v (Lacks-count b'/' (codes "resourceId") refl)
                (sym ex ∙ slash))
          | inr (x', ex, eb) ↦
              elim (first_separator b'=' (id ++ codes "/y") tail x' w
                (All-append (λ c. c ≢ b'=') id (codes "/y") lacks
                  (Lacks-count b'=' (codes "/y") refl))
                (append_assoc id (codes "/y") (b'=' ∷ tail) ∙ eb)) [
                  | inl (_, ew) ↦ ew
                  | inr (x'', _, et) ↦ absurd (
                      ground
                        (arith, count-tail, ap (count b'=') et, count-append b'=' x'' (b'=' ∷ w)))
                ]
        ]

-- The parts of a match, with what follows it, at the equals sign of the year.
regroup :
    (bf front n y m d h mi rest behind : Text)
    → bf ++ ((front ++ (codes "/" ++ (n ++ (codes "/y=" ++ stamp y m d h mi rest)))) ++ behind)
      ≡ (bf ++ (front ++ (codes "/" ++ (n ++ codes "/y"))))
        ++ b'=' ∷ stamp y m d h mi (rest ++ behind)
regroup bf front n y m d h mi rest behind = simp append_assoc

-- A resource id on one line, with a slash and without an equals sign.
pub record IsResourceId (id : Text) : Type 0 where
  pub front : Text
  pub last : Text
  pub id_is : id ≡ front ++ (codes "/" ++ last)
  pub front_line : All (λ c. dot c ≡ true) front
  pub last_line : All (λ c. dot c ≡ true) last
  pub no_equals : Lacks b'=' id

module _ (id y m d h : Text) (i : IsResourceId id) (all_digits : AllDigits y m d h)
    (numbers : Numbers y m d h (codes "00")) where
  abbrev name : Text
  name = stamped_name id y m d h

  abbrev stamped_tail : Text
  stamped_tail = stamp y m d h (codes "00") (codes "/PT1H.json")

  name-MatchesIn :
      MatchesIn logged_resource_file_regexp name (i.last ∷ y ∷ m ∷ d ∷ h ∷ codes "00" ∷ [])
  unfolding count
  name-MatchesIn = (
    [],
    _,
    [],
    _,
    ap (λ x. codes "resourceId=" ++ (x ++ (codes "/y=" ++ stamped_tail))) i.id_is
        ∙ (ap (λ x. codes "resourceId=" ++ x)
              (append_assoc i.front (codes "/" ++ i.last) (codes "/y=" ++ stamped_tail))
            ∙ sym (append-nil _)),
    Matches-parts (codes "resourceId=" ++ i.front) i.last y m d h (codes "00") (codes "/PT1H.json")
        (All-append (λ c. dot c ≡ true) (codes "resourceId=") i.front
          (dot-count (codes "resourceId=") refl) i.front_line)
        i.last_line numbers
        (all_digits.0, all_digits.1, all_digits.2, all_digits.3, (refl, (refl, tt)))
        (dot-count (codes "/PT1H.json") refl),
    refl,
  )

  found_stamp :
      (caps : Captures)
      → MatchesIn logged_resource_file_regexp name caps
      → (n : Text) × (caps ≡ n ∷ y ∷ m ∷ d ∷ h ∷ codes "00" ∷ [])
  found_stamp caps (bf, t, behind, c, e, mt, ec) =
      let k = Matches-Shown t c mt in
      let e' : name
          ≡ bf
            ++ ((k.front
                  ++ (codes "/"
                      ++ (k.resource
                          ++ (codes "/y=" ++ stamp k.year k.month k.day k.hour k.minute k.rest))))
                ++ behind) =
        e ∙ ap (λ s. bf ++ (s ++ behind)) k.text_is in
      let w = stamp k.year k.month k.day k.hour k.minute (k.rest ++ behind) in
      let same =
        tail_of_match id y m d h i.no_equals all_digits numbers _ w (bf ++ k.front)
          (k.resource ++ codes "/y")
          (e' ∙ regroup bf k.front k.resource k.year k.month k.day k.hour k.minute k.rest behind)
          (sym (append_assoc bf k.front _))
          (omega (arith, count-stamp k.year k.month k.day k.hour k.minute (k.rest ++ behind))) in
      let (ey, em, ed, eh, ei) =
        stamp-injective (k.rest ++ behind) (codes "/PT1H.json") k.numbers numbers same in
      (k.resource, ec ∙ (ap reverse k.groups ∙ rw (ey, em, ed, eh, ei) refl))

  pub name_tokens-stamped :
      (n : Text) × (name_tokens name ≡ some (n ∷ y ∷ m ∷ d ∷ h ∷ codes "00" ∷ []))
  unfolding name_tokens
  name_tokens-stamped =
      let (caps, found) =
        find_submatch_complete logged_resource_file_regexp name _ name-MatchesIn in
      let (n, e) =
        found_stamp caps (find_submatch_sound logged_resource_file_regexp name caps found) in
      (n, found ∙ ap some e)
