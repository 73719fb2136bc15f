-- ===== src/Regex/Greedy.antt =====
-- What `*` gives up: it takes all that it can, and gives back only where what follows fails.

use nsg_parser.Prelude.{
  ℕ, ◌≡◌, refl, ap, subst, inl, inr, Bool, true, none, some, [], ◌∷◌, ◌++◌, append-nil, Bool-cases,
  All, Text, false,
}
use nsg_parser.Regex.{Next, Captures, many, match_at, star}

module _ (p : ℕ → Bool) (next : Next) (caps : Captures) where
  -- Where what follows fails at every place, so does the whole.
  many_fails :
      (s : Text) → ((u v : Text) → s ≡ u ++ v → next v caps ≡ none) → many p next s caps ≡ none
  unfolding many
  many_fails [] h = h [] [] refl
  many_fails (c ∷ s) h =
      let here_fails = h [] (c ∷ s) refl in
      let later_fails = many_fails s (λ u v e. h (c ∷ u) v (ap (λ t. c ∷ t) e)) in
      elim (Bool-cases (p c)) [
        | inl e ↦ rw (many, e, later_fails) here_fails
        | inr e ↦ rw (many, e) here_fails
      ]

  -- A match at a later place is preferred.
  many_later :
      (u v : Text) (x : Captures)
      → All (λ c. p c ≡ true) u
      → many p next v caps ≡ some x
      → many p next (u ++ v) caps ≡ some x
  unfolding many
  many_later [] v x a h = h
  many_later (c ∷ u) v x a h = rw (many, a.0, many_later u v x a.1 h) refl

  many_first :
      (c : ℕ) (v : Text) (x : Captures)
      → ((w w' : Text) → v ≡ w ++ w' → next w' caps ≡ none)
      → next (c ∷ v) caps ≡ some x
      → many p next (c ∷ v) caps ≡ some x
  unfolding many
  many_first c v x h k = elim (Bool-cases (p c)) [
    | inl e ↦ rw (many, e, many_fails v h) k
    | inr e ↦ rw (many, e) k
  ]

  -- The match stops in front of a place behind which every place fails.
  pub star_stops :
      (u v : Text) (c : ℕ) (x : Captures)
      → All (λ d. p d ≡ true) u
      → ((w w' : Text) → v ≡ w ++ w' → next w' caps ≡ none)
      → next (c ∷ v) caps ≡ some x
      → match_at (star p) next (u ++ c ∷ v) caps ≡ some x
  unfolding match_at
  star_stops u v c x a h k = many_later u (c ∷ v) x a (many_first c v x h k)

  -- Where what follows fails at every place, there is no match.
  pub star_fails :
      (s : Text)
      → ((u v : Text) → s ≡ u ++ v → next v caps ≡ none)
      → match_at (star p) next s caps ≡ none
  unfolding match_at
  star_fails s h = many_fails s h

  -- All of a text.
  pub star_whole :
      (s : Text) (x : Captures)
      → All (λ c. p c ≡ true) s
      → next [] caps ≡ some x
      → match_at (star p) next s caps ≡ some x
  unfolding match_at many
  star_whole s x a h =
      subst (λ t. many p next t caps ≡ some x) (append-nil s) (many_later s [] x a h)

  -- All up to a character that is not of the class.
  pub star_until :
      (s v : Text) (c : ℕ) (x : Captures)
      → All (λ d. p d ≡ true) s
      → p c ≡ false
      → next (c ∷ v) caps ≡ some x
      → match_at (star p) next (s ++ c ∷ v) caps ≡ some x
  unfolding match_at many
  star_until s v c x a e h = many_later s (c ∷ v) x a (rw (many, e) h)
