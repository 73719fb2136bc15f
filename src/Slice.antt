-- ===== src/Slice.antt =====
-- `Swap` of the slices of records (parser/event_record.go, parser/appgw_access_record.go,
-- parser/appgw_firewall_record.go), which has one text for the three types.
use nsg_parser.Outcome.{Outcome, returned, panicked, returned-injective}
use nsg_parser.Prelude.{
  ℕ, zero, suc, ◌≡◌, refl, ap, Option, some, List, [], ◌∷◌, get_elem?, set, ◌∙◌, subst, inl, inr,
  Option-cases,
}

module _ {A : Type 0} where
  -- Both elements are read before they are assigned.
  abbrev pub swapped : List A → ℕ → ℕ → A → A → List A
  swapped s i j a b = set (set s i b) j a

  abbrev pub swap_of : List A → ℕ → ℕ → Option A → Option A → Outcome (List A)
  swap_of s i j (some a) (some b) = returned (swapped s i j a b)
  swap_of s i j _ _ = panicked

  -- An index out of range panics.
  unfoldable pub swap : List A → ℕ → ℕ → Outcome (List A)
  swap s i j = swap_of s i j (get_elem? s i) (get_elem? s j)

  set-set : (s : List A) (i : ℕ) (a b : A) → set (set s i a) i b ≡ set s i b
  set-set [] i a b = refl
  set-set (x ∷ s) zero a b = refl
  set-set (x ∷ s) (suc i) a b = ap (λ t. x ∷ t) (set-set s i a b)

  set_same : (s : List A) (i : ℕ) (a : A) → get_elem? s i ≡ some a → set s i a ≡ s
  set_same [] i a h = cc
  set_same (x ∷ s) zero a h = cc
  set_same (x ∷ s) (suc i) a h = ap (λ t. x ∷ t) (set_same s i a h)

  get_elem?-set :
      (s : List A) (i : ℕ) (a b : A) → get_elem? s i ≡ some a → get_elem? (set s i b) i ≡ some b
  get_elem?-set [] i a b h = cc
  get_elem?-set (x ∷ s) zero a b h = refl
  get_elem?-set (x ∷ s) (suc i) a b h = get_elem?-set s i a b h

  -- The two places have changed hands, and a second swap gives the slice back.
  record Undone (s t : List A) (i j : ℕ) (a b : A) : Type 0 where
    first : get_elem? t i ≡ some b
    second : get_elem? t j ≡ some a
    back : swapped t i j b a ≡ s

  swapped-Undone :
      (s : List A) (i j : ℕ) (a b : A)
      → get_elem? s i ≡ some a
      → get_elem? s j ≡ some b
      → Undone s (swapped s i j a b) i j a b
  swapped-Undone [] i j a b h k = cc
  swapped-Undone (x ∷ s) zero zero a b h k = record { first = cc; second = refl; back = cc }
  swapped-Undone (x ∷ s) zero (suc j) a b h k = record {
    first = refl;
    second = get_elem?-set s j b a k;
    back = let e : set (set s j a) j b ≡ s = set-set s j a b ∙ set_same s j b k in cc;
  }
  swapped-Undone (x ∷ s) (suc i) zero a b h k = record {
    first = get_elem?-set s i a b h;
    second = refl;
    back = let e : set (set s i b) i a ≡ s = set-set s i b a ∙ set_same s i a h in cc;
  }
  swapped-Undone (x ∷ s) (suc i) (suc j) a b h k =
      let u = swapped-Undone s i j a b h k in
      record { first = u.first; second = u.second; back = ap (λ t. x ∷ t) u.back }

  -- A second swap undoes the first.
  pub swap-swap : (s t : List A) (i j : ℕ) → swap s i j ≡ returned t → swap t i j ≡ returned s
  unfolding swap
  swap-swap s t i j h = elim (Option-cases (get_elem? s i)) [
    | inl e ↦ cc (rw e at h)
    | inr (a, ea) ↦ elim (Option-cases (get_elem? s j)) [
      | inl e ↦ cc (rw (ea, e) at h)
      | inr (b, eb) ↦
          let u = swapped-Undone s i j a b ea eb in
          let e : swapped s i j a b ≡ t =
            returned-injective (swapped s i j a b) t (rw (ea, eb) at h) in
          subst (λ t. swap_of t i j (get_elem? t i) (get_elem? t j) ≡ returned s) e
            (rw (u.first, u.second, u.back) refl)
    ]
  ]
