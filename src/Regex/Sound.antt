-- ===== src/Regex/Sound.antt =====
-- A match that is found is one.
use nsg_parser.Regex.Matches.{Matches, MatchesIn}
use nsg_parser.Time.{before}
use nsg_parser.Prelude.{
  ℕ, ◌-◌, ◌≡◌, refl, ap, ◌∙◌, inl, inr, Bool, some, [], ◌∷◌, ◌++◌, append-nil, append_assoc, arith,
  Bool-cases, Option-cases, length, take, length-append, Text,
}
use nsg_parser.Regex.{
  Regex, match_at, one, many, find_from, find_submatch, accept, Captures, Next, consumed, class,
  star, optional, group, empty, seq,
}

length-append_sub : (t rest : Text) → length (t ++ rest) - length rest ≡ length t
length-append_sub t rest = omega (arith, length-append {0} t rest)

take-length : (t rest : Text) → take (length t) (t ++ rest) ≡ t
take-length [] rest = refl
take-length (c ∷ t) rest = rw (take-length t rest)

pub consumed-append : (t rest : Text) → consumed (t ++ rest) rest ≡ t
consumed-append t rest = rw (length-append_sub t rest) (take-length t rest)

-- The result came from a text `t` that the pattern matches, and from what comes after it.
abbrev pub Came : Regex → Next → Text → Captures → Captures → Type 0
Came r next s acc x =
    (t : Text) × (rest : Text) × (caps : Captures) × (s ≡ t ++ rest)
    × Matches r t caps
    × (next rest (caps ++ acc) ≡ some x)

one_sound :
    (p : ℕ → Bool) (next : Next) (s : Text) (acc x : Captures)
    → one p next s acc ≡ some x
    → Came (class p) next s acc x
unfolding one
one_sound p next [] acc x h = cc
one_sound p next (c ∷ s) acc x h = elim (Bool-cases (p c)) [
  | inl e ↦ (c ∷ [], s, [], refl, (c, e, refl, refl), rw e at h)
  | inr e ↦ cc (rw e at h)
]

many_sound :
    (p : ℕ → Bool) (next : Next) (s : Text) (acc x : Captures)
    → many p next s acc ≡ some x
    → Came (star p) next s acc x
unfolding many
many_sound p next [] acc x h = ([], [], [], refl, (tt, refl), h)
many_sound p next (c ∷ s) acc x h = elim (Bool-cases (p c)) [
  | inr e ↦ ([], c ∷ s, [], refl, (tt, refl), ground arith)
  | inl e ↦ elim (Option-cases (many p next s acc)) [
    | inl n ↦ ([], c ∷ s, [], refl, (tt, refl), ground arith)
    | inr (y, f) ↦
        let (t, rest, caps, es, (m, ec), k) = many_sound p next s acc x (ground arith) in
        (c ∷ t, rest, caps, rw es, ((e, m), ec), k)
  ]
]

pub match_at_sound :
    (r : Regex) (next : Next) (s : Text) (acc x : Captures)
    → match_at r next s acc ≡ some x
    → Came r next s acc x
unfolding match_at
match_at_sound (class p) next s acc x h = one_sound p next s acc x h
match_at_sound (star p) next s acc x h = many_sound p next s acc x h
match_at_sound (optional p) next s acc x h = elim (Option-cases (one p next s acc)) [
  | inl n ↦ ([], s, [], refl, (inl refl, refl), ground arith)
  | inr (y, f) ↦
      let (t, rest, caps, es, (c, e, et, ec), k) = one_sound p next s acc x (ground arith) in
      (t, rest, caps, es, (inr (c, e, et), ec), k)
]
match_at_sound (group r) next s acc x h =
    let (t, rest, caps, es, m, k) = match_at_sound r _ s acc x h in
    (t, rest, t ∷ caps, es, (caps, m, refl), rw (es, consumed-append t rest) at k)
match_at_sound empty next s acc x h = ([], s, [], refl, (refl, refl), h)
match_at_sound (seq a b) next s acc x h =
    let (t, rest, caps, es, m, k) = match_at_sound a (match_at b next) s acc x h in
    let (u, rest', caps', es', m', k') = match_at_sound b next rest (caps ++ acc) x k in
    (
      t ++ u,
      rest',
      caps' ++ caps,
      es ∙ rw (es', append_assoc),
      (t, u, caps, caps', m, m', refl, refl),
      rw append_assoc k',
    )

find_from_sound : (r : Regex) (s : Text) (x : Captures) → find_from r s ≡ some x → MatchesIn r s x
unfolding find_from
find_from_sound r [] x h =
    let (t, rest, caps, es, m, k) = match_at_sound r accept [] [] x h in
    ([], t, rest, caps, es, m, ground (arith, append-nil caps))
find_from_sound r (c ∷ s) x h = elim (Option-cases (match_at r accept (c ∷ s) [])) [
  | inl n ↦
      let (before, t, behind, caps, es, m, k) = find_from_sound r s x (ground arith) in
      (c ∷ before, t, behind, caps, ap (◌∷◌ c) es, m, k)
  | inr (y, f) ↦
      let (t, rest, caps, es, m, k) = match_at_sound r accept (c ∷ s) [] x (ground arith) in
      ([], t, rest, caps, es, m, ground (arith, append-nil caps))
]

-- What `FindStringSubmatch` returns are the groups of a match that lies in the text.
pub find_submatch_sound :
    (r : Regex) (s : Text) (x : Captures) → find_submatch r s ≡ some x → MatchesIn r s x
unfolding find_submatch
find_submatch_sound = find_from_sound
