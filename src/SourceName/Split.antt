-- ===== src/SourceName/Split.antt =====
-- Where a text that holds a separator is taken apart.
use nsg_parser.Regex.{dot}
use nsg_parser.Prelude.{
  ℕ, ◌+◌, ◌≡◌, refl, ap, ◌≢◌, ◌⊎◌, [], ◌∷◌, ◌++◌, arith, ◌==◌, if◌then◌else◌, length, Text, Lacks,
  inl, inr, true, All,
}

pub append-injective :
    (u u' v v' : Text) → length u ≡ length u' → u ++ v ≡ u' ++ v' → (u ≡ u') × (v ≡ v')
append-injective [] [] v v' l e = (refl, e)
append-injective [] (c ∷ u') v v' l e = absurd (omega (arith, l))
append-injective (c ∷ u) [] v v' l e = absurd (omega (arith, l))
append-injective (c ∷ u) (c' ∷ u') v v' l e =
    let tails : u ++ v ≡ u' ++ v' = cc in
    let (eu, ev) = append-injective u u' v v' (omega (arith, l)) tails in (cc, ev)

-- The occurrences of a character.
unfoldable pub count : ℕ → Text → ℕ
count c [] = 0
count c (d ∷ s) = (if d == c then 1 else 0) + count c s

pub count-append : (c : ℕ) (s t : Text) → count c (s ++ t) ≡ count c s + count c t
unfolding count
count-append c [] t = omega arith
count-append c (d ∷ s) t = omega (arith, count-append c s t)

pub count-Lacks : (c : ℕ) (s : Text) → Lacks c s → count c s ≡ 0
unfolding count
count-Lacks c [] h = refl
count-Lacks c (d ∷ s) h = ground (arith, count-Lacks c s h.1)

-- A part without the separator is taken off at its first occurrence.
pub first_separator :
    (c : ℕ) (a b x w : Text)
    → Lacks c a
    → a ++ c ∷ b ≡ x ++ c ∷ w
    → ((x ≡ a) × (w ≡ b)) ⊎ ((x' : Text) × (x ≡ a ++ c ∷ x') × (b ≡ x' ++ c ∷ w))
first_separator c [] b [] w h e = inl (refl, cc)
first_separator c [] b (d ∷ x) w h e = inr (x, cc, cc)
first_separator c (d ∷ a) b [] w h e = absurd (h.0 cc)
first_separator c (d ∷ a) b (d' ∷ x) w h e =
    let tails : a ++ c ∷ b ≡ x ++ c ∷ w = cc in
    elim (first_separator c a b x w h.1 tails) [
      | inl (ex, ew) ↦ inl (cc, ew)
      | inr (x', ex, eb) ↦ inr (x', cc, eb)
    ]

-- A part that lacks a character does not hold it.
pub Lacks-split : (c : ℕ) (a u v : Text) → Lacks c a → a ≢ u ++ c ∷ v
unfolding count
Lacks-split c a u v h e =
    absurd (ground (arith, count-Lacks c a h, count-append c u (c ∷ v), ap (count c) e))

pub Lacks-count : (c : ℕ) (s : Text) → count c s ≡ 0 → Lacks c s
unfolding count
Lacks-count c [] h = tt
Lacks-count c (d ∷ s) h = (ground arith, Lacks-count c s (ground arith))

-- A text without a newline.
pub dot-count : (s : Text) → count b'\n' s ≡ 0 → All (λ c. dot c ≡ true) s
unfolding count
dot-count [] h = tt
dot-count (c ∷ s) h = (ground arith, dot-count s (ground arith))
