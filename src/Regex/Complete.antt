-- ===== src/Regex/Complete.antt =====
-- A match that lies in the text is not missed.
use mathlib.Core.List.{reverse}
use nsg_parser.Regex.Matches.{Matches, MatchesIn}
use nsg_parser.Prelude.{
  ℕ, ◌≡◌, refl, inl, inr, Bool, true, Option, some, [], ◌∷◌, ◌++◌, append_assoc, arith, Bool-cases,
  Option-cases, All, Text,
}
use nsg_parser.Regex.{
  Regex, match_at, one, many, find_from, find_submatch, accept, Captures, Next, class, star,
  optional, group, empty, seq,
}
use nsg_parser.Regex.Sound.{consumed-append}

abbrev Found : Option Captures → Type 0
Found o = (y : Captures) × (o ≡ some y)

one_complete :
    (p : ℕ → Bool) (next : Next) (c : ℕ) (rest : Text) (acc : Captures)
    → p c ≡ true
    → Found (next rest acc)
    → Found (one p next (c ∷ rest) acc)
unfolding one
one_complete p next c rest acc e (y, h) = (y, rw e h)

many_complete :
    (p : ℕ → Bool) (next : Next) (t rest : Text) (acc : Captures)
    → All (λ c. p c ≡ true) t
    → Found (next rest acc)
    → Found (many p next (t ++ rest) acc)
unfolding many
many_complete p next [] [] acc m h = h
many_complete p next [] (c ∷ rest) acc m (y, h) = elim (Bool-cases (p c)) [
  | inr e ↦ (y, rw e h)
  | inl e ↦ elim (Option-cases (many p next rest acc)) [
    | inl n ↦ (y, ground arith)
    | inr (z, f) ↦ (z, ground arith)
  ]
]
many_complete p next (c ∷ t) rest acc (e, m) h =
    let (y, f) = many_complete p next t rest acc m h in (y, ground arith)

match_at_complete :
    (r : Regex) (next : Next) (t rest : Text) (caps acc : Captures)
    → Matches r t caps
    → Found (next rest (caps ++ acc))
    → Found (match_at r next (t ++ rest) acc)
unfolding match_at
match_at_complete (class p) next t rest caps acc (c, e, et, ec) h =
    rw et (one_complete p next c rest acc e (rw ec at h))
match_at_complete (star p) next t rest caps acc (m, ec) h =
    many_complete p next t rest acc m (rw ec at h)
match_at_complete (optional p) next t rest caps acc (inl et, ec) h =
    elim (Option-cases (one p next rest acc)) [
      | inl n ↦ (h.0, rw et (rw (n, match_at) (rw ec at h.1)))
      | inr (y, f) ↦ (y, rw et (rw (f, match_at)))
    ]
match_at_complete (optional p) next t rest caps acc (inr (c, e, et), ec) h =
    let (y, f) = one_complete p next c rest acc e (rw ec at h) in (y, rw et (rw (f, match_at)))
match_at_complete (group r) next t rest caps acc (inner, m, ec) h =
    match_at_complete r _ t rest inner acc m (rw consumed-append (rw ec at h))
match_at_complete empty next t rest caps acc (et, ec) h = rw et (rw ec at h)
match_at_complete (seq a b) next t rest caps acc (u, v, c, d, ma, mb, et, ec) h =
    rw (et, append_assoc)
      (match_at_complete a (match_at b next) u (v ++ rest) c acc ma
        (match_at_complete b next v rest d (c ++ acc) mb (rw (ec, append_assoc) at h)))

find_from_complete :
    (r : Regex) (front t behind : Text) (caps : Captures)
    → Matches r t caps
    → Found (find_from r (front ++ (t ++ behind)))
unfolding find_from
find_from_complete r [] [] [] caps m =
    match_at_complete r accept [] [] caps [] m (reverse (caps ++ []), refl)
find_from_complete r [] [] (c ∷ behind) caps m =
    let (y, f) =
      match_at_complete r accept [] (c ∷ behind) caps [] m (reverse (caps ++ []), refl) in
    (y, rw (f, find_from))
find_from_complete r [] (c ∷ t) behind caps m =
    let (y, f) = match_at_complete r accept (c ∷ t) behind caps [] m (reverse (caps ++ []), refl) in
    (y, rw (f, find_from))
find_from_complete r (c ∷ front) t behind caps m =
    let (y, f) = find_from_complete r front t behind caps m in
    elim (Option-cases (match_at r accept (c ∷ (front ++ (t ++ behind))) [])) [
      | inl n ↦ (y, rw (n, find_from) f)
      | inr (z, g) ↦ (z, rw (g, find_from))
    ]

-- If the pattern matches a piece of the text, `FindStringSubmatch` finds a match.
pub find_submatch_complete :
    (r : Regex) (s : Text) (caps : Captures)
    → MatchesIn r s caps
    → (found : Captures) × (find_submatch r s ≡ some found)
unfolding find_submatch
find_submatch_complete r s caps (front, t, behind, c, es, m, _) =
    rw es (find_from_complete r front t behind c m)
