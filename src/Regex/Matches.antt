-- ===== src/Regex/Matches.antt =====
-- What it means that a pattern matches a text, with no order of preference.

use mathlib.Core.List.{reverse}
use nsg_parser.Prelude.{
  ℕ, ◌≡◌, refl, ◌∙◌, ◌⊎◌, true, [], ◌∷◌, ◌++◌, ==_iff, All, Text, sym, subst, Bool, append-nil,
}
use nsg_parser.Regex.{Regex, literal, Captures, class, star, optional, group, empty, seq}

-- The text matches, and its groups are `caps`, from the last to the first.
abbrev pub Matches : Regex → Text → Captures → Type 0
Matches (class p) t caps = (c : ℕ) × (p c ≡ true) × (t ≡ c ∷ []) × (caps ≡ [])
Matches (star p) t caps = All (λ c. p c ≡ true) t × (caps ≡ [])
Matches (optional p) t caps = ((t ≡ []) ⊎ ((c : ℕ) × (p c ≡ true) × (t ≡ c ∷ []))) × (caps ≡ [])
Matches (group r) t caps = (inner : Captures) × Matches r t inner × (caps ≡ t ∷ inner)
Matches empty t caps = (t ≡ []) × (caps ≡ [])
Matches (seq a b) t caps =
    (u : Text) × (v : Text) × (c : Captures) × (d : Captures) × Matches a u c
    × Matches b v d
    × (t ≡ u ++ v)
    × (caps ≡ d ++ c)

-- The pattern matches a piece of the text, with the groups `caps` from the first on.
abbrev pub MatchesIn : Regex → Text → Captures → Type 0
MatchesIn r s caps =
    (before : Text) × (t : Text) × (behind : Text) × (c : Captures) × (s ≡ before ++ (t ++ behind))
    × Matches r t c
    × (caps ≡ reverse c)

pub Matches-literal : (s : Text) → Matches (literal s) s []
Matches-literal [] = (refl, refl)
Matches-literal (c ∷ s) =
    (c ∷ [], s, [], [], (c, (==_iff c c).1 refl, refl, refl), Matches-literal s, refl, refl)

pub Matches-literal_inv :
    (s t : Text) (caps : Captures) → Matches (literal s) t caps → (t ≡ s) × (caps ≡ [])
Matches-literal_inv [] t caps m = m
Matches-literal_inv (c ∷ s) t caps (u, v, x, y, (d, e, eu, ex), m, et, ec) =
    let (ev, ey) = Matches-literal_inv s v y m in
    (et ∙ rw (eu, ev, (==_iff d c).0 e), ec ∙ rw (ex, ey))

-- Taking a pattern apart, and putting one together, a piece at a time.
module _ (r : Regex) where
  pub skip_inv :
      {p : ℕ → Bool} {t : Text} {caps : Captures}
      → Matches (seq (star p) r) t caps
      → (u : Text) × (v : Text) × (t ≡ u ++ v) × Matches r v caps
  skip_inv (u, v, c, d, (_, ec), m, et, e) =
      (u, v, et, subst (Matches r v) (sym (e ∙ rw ec (append-nil d))) m)

  pub literal_inv :
      (s : Text) {t : Text} {caps : Captures}
      → Matches (seq (literal s) r) t caps
      → (v : Text) × (t ≡ s ++ v) × Matches r v caps
  literal_inv s (u, v, c, d, m, m', et, e) =
      let (eu, ec) = Matches-literal_inv s u c m in
      (v, et ∙ rw eu, subst (Matches r v) (sym (e ∙ rw ec (append-nil d))) m')

  pub group_inv :
      {p : ℕ → Bool} {t : Text} {caps : Captures}
      → Matches (seq (group (star p)) r) t caps
      → (u : Text) × (v : Text) × (d : Captures) × (t ≡ u ++ v)
        × All (λ c. p c ≡ true) u
        × Matches r v d
        × (caps ≡ d ++ u ∷ [])
  group_inv (u, v, c, d, (inner, (a, ei), ec), m, et, e) = (u, v, d, et, a, m, e ∙ rw (ec, ei))

  pub skip :
      (p : ℕ → Bool) (u v : Text) {caps : Captures}
      → All (λ c. p c ≡ true) u
      → Matches r v caps
      → Matches (seq (star p) r) (u ++ v) caps
  skip p u v {caps} a m = (u, v, [], caps, (a, refl), m, refl, sym (append-nil caps))

  pub literally :
      (s v : Text) {caps : Captures} → Matches r v caps → Matches (seq (literal s) r) (s ++ v) caps
  literally s v {caps} m = (s, v, [], caps, Matches-literal s, m, refl, sym (append-nil caps))

  pub grouped :
      (p : ℕ → Bool) (u v : Text) (caps : Captures)
      → All (λ c. p c ≡ true) u
      → Matches r v caps
      → Matches (seq (group (star p)) r) (u ++ v) (caps ++ u ∷ [])
  grouped p u v caps a m = (u, v, u ∷ [], caps, ([], (a, refl), refl), m, refl, refl)
