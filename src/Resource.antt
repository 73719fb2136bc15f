-- ===== src/Resource.antt =====
-- `RecordRegExp`, `AppGwRecordRegExp` and `AppGwFirewallRecordRegExp` of parser/: one pattern but
-- for the kind of the resource, built from its end.
-- 1 = Subscription ID, 2 = Resource Group, 3 = the resource's name.
use mathlib.Core.List.{reverse}
use nsg_parser.Regex.Matches.{
  Matches, MatchesIn, skip_inv, literal_inv, group_inv, skip, literally, grouped,
}
use nsg_parser.Regex.{Regex, dot, literal, Captures, star, optional, group, seq}
use nsg_parser.Prelude.{
  ℕ, ◌≡◌, refl, sym, ◌∙◌, inl, Bool, true, ◌||◌, [], ◌∷◌, ◌++◌, append-nil, append_assoc, ◌==◌, All,
  Text, codes, ap,
}

-- `[.*]` inside a class is a plain dot or star.
abbrev pub dot_or_star : ℕ → Bool
dot_or_star c = c == b'.' || c == b'*'

abbrev pub slash : ℕ → Bool
slash c = c == b'/'

abbrev pub ending : Regex
ending = seq (optional slash) (star dot_or_star)

abbrev pub name_on : Regex
name_on = seq (group (star dot)) ending

module _ (kind : Text) where
  abbrev pub kind_on : Regex
  kind_on = seq (literal kind) name_on

  abbrev pub provider_on : Regex
  provider_on = seq (star dot) kind_on

  abbrev pub providers_on : Regex
  providers_on = seq (literal (codes "/PROVIDERS/")) provider_on

  abbrev pub group_on : Regex
  group_on = seq (group (star dot)) providers_on

  abbrev pub groups_on : Regex
  groups_on = seq (literal (codes "/RESOURCEGROUPS/")) group_on

  abbrev pub subscription_on : Regex
  subscription_on = seq (group (star dot)) groups_on

  abbrev pub subscriptions_on : Regex
  subscriptions_on = seq (literal (codes "SUBSCRIPTIONS/")) subscription_on

  abbrev pub resource_regexp : Regex
  resource_regexp = seq (star dot) subscriptions_on

  -- The resource id holds the three names in their places.
  abbrev pub HasNames : Text → Text → Text → Text → Type 0
  HasNames id subscription group_name name =
      (front : Text) × (provider : Text) × (behind : Text) × (id
        ≡ front
          ++ (codes "SUBSCRIPTIONS/"
              ++ (subscription
                  ++ (codes "/RESOURCEGROUPS/"
                      ++ (group_name
                          ++ (codes "/PROVIDERS/" ++ (provider ++ (kind ++ (name ++ behind)))))))))

  ending_inv : (t : Text) (caps : Captures) → Matches ending t caps → caps ≡ []
  ending_inv t caps (u, v, c, d, (_, ec), (_, ed), et, e) = e ∙ rw (ec, ed)

  name_on_inv :
      (t : Text) (caps : Captures)
      → Matches name_on t caps
      → (n : Text) × (b : Text) × (t ≡ n ++ b) × (caps ≡ n ∷ [])
  name_on_inv t caps m = go (group_inv ending m)
    where
      go :
          (u : Text) × (v : Text) × (d : Captures) × (t ≡ u ++ v)
            × All (λ c. dot c ≡ true) u
            × Matches ending v d
            × (caps ≡ d ++ u ∷ [])
          → (n : Text) × (b : Text) × (t ≡ n ++ b) × (caps ≡ n ∷ [])
      go (n, b, d, e, _, m', c) = (n, b, e, c ∙ rw (ending_inv b d m'))

  provider_on_inv :
      (t : Text) (caps : Captures)
      → Matches provider_on t caps
      → (p : Text) × (n : Text) × (b : Text) × (t ≡ p ++ (kind ++ (n ++ b))) × (caps ≡ n ∷ [])
  provider_on_inv t caps m = go (skip_inv kind_on m)
    where
      join :
          (p : Text)
          → (v : Text) × (t ≡ p ++ (kind ++ v)) × Matches name_on v caps
          → (p : Text) × (n : Text) × (b : Text) × (t ≡ p ++ (kind ++ (n ++ b))) × (caps ≡ n ∷ [])
      join p (v, e, m') =
          let (n, b, e', c) = name_on_inv v caps m' in
          (p, n, b, e ∙ ap (λ x. p ++ (kind ++ x)) e', c)

      go :
          (u : Text) × (v : Text) × (t ≡ u ++ v) × Matches kind_on v caps
          → (p : Text) × (n : Text) × (b : Text) × (t ≡ p ++ (kind ++ (n ++ b))) × (caps ≡ n ∷ [])
      go (p, v, e, m') =
          let (w, e', m'') = literal_inv name_on kind m' in join p (w, e ∙ ap (λ x. p ++ x) e', m'')

  abbrev Rest : Text → Text → Text → Text → Text
  Rest g p n b = g ++ (codes "/PROVIDERS/" ++ (p ++ (kind ++ (n ++ b))))

  group_on_inv :
      (t : Text) (caps : Captures)
      → Matches group_on t caps
      → (g : Text) × (p : Text) × (n : Text) × (b : Text) × (t ≡ Rest g p n b) × (caps ≡ n ∷ g ∷ [])
  group_on_inv t caps m = go (group_inv providers_on m)
    where
      go :
          (u : Text) × (v : Text) × (d : Captures) × (t ≡ u ++ v)
            × All (λ c. dot c ≡ true) u
            × Matches providers_on v d
            × (caps ≡ d ++ u ∷ [])
          → (g : Text) × (p : Text) × (n : Text) × (b : Text) × (t ≡ Rest g p n b)
            × (caps ≡ n ∷ g ∷ [])
      go (g, v, d, e, _, m', c) =
          let (w, e', m'') = literal_inv provider_on (codes "/PROVIDERS/") m' in
          let (p, n, b, e'', c') = provider_on_inv w d m'' in
          (
            g,
            p,
            n,
            b,
            e ∙ ap (λ x. g ++ x) e' ∙ ap (λ x. g ++ (codes "/PROVIDERS/" ++ x)) e'',
            c ∙ ap (λ x. x ++ g ∷ []) c',
          )

  subscription_on_inv :
      (t : Text) (caps : Captures)
      → Matches subscription_on t caps
      → (s : Text) × (g : Text) × (p : Text) × (n : Text) × (b : Text) × (t
          ≡ s ++ (codes "/RESOURCEGROUPS/" ++ Rest g p n b))
        × (caps ≡ n ∷ g ∷ s ∷ [])
  subscription_on_inv t caps m = go (group_inv groups_on m)
    where
      go :
          (u : Text) × (v : Text) × (d : Captures) × (t ≡ u ++ v)
            × All (λ c. dot c ≡ true) u
            × Matches groups_on v d
            × (caps ≡ d ++ u ∷ [])
          → (s : Text) × (g : Text) × (p : Text) × (n : Text) × (b : Text) × (t
              ≡ s ++ (codes "/RESOURCEGROUPS/" ++ Rest g p n b))
            × (caps ≡ n ∷ g ∷ s ∷ [])
      go (s, v, d, e, _, m', c) =
          let (w, e', m'') = literal_inv group_on (codes "/RESOURCEGROUPS/") m' in
          let (g, p, n, b, e'', c') = group_on_inv w d m'' in
          (
            s,
            g,
            p,
            n,
            b,
            e ∙ ap (λ x. s ++ x) e' ∙ ap (λ x. s ++ (codes "/RESOURCEGROUPS/" ++ x)) e'',
            c ∙ ap (λ x. x ++ s ∷ []) c',
          )

  regroup :
      (f u s g p n b z : Text)
      → f
          ++ ((u ++ (codes "SUBSCRIPTIONS/" ++ (s ++ (codes "/RESOURCEGROUPS/" ++ Rest g p n b))))
              ++ z)
        ≡ (f ++ u)
          ++ (codes "SUBSCRIPTIONS/" ++ (s ++ (codes "/RESOURCEGROUPS/" ++ Rest g p n (b ++ z))))
  regroup f u s g p n b z = simp append_assoc

  -- Every match has exactly three groups, and they are names that stand in the resource id.
  pub resource_regexp_names :
      (id : Text) (caps : Captures)
      → MatchesIn resource_regexp id caps
      → (s : Text) × (g : Text) × (n : Text) × (caps ≡ s ∷ g ∷ n ∷ []) × HasNames id s g n
  resource_regexp_names id caps (front, t, behind, c, es, m, ec) =
      let (u, v, e, m') = skip_inv subscriptions_on m in
      let (w, e', m'') = literal_inv subscription_on (codes "SUBSCRIPTIONS/") m' in
      let (s, g, p, n, b, e'', c') = subscription_on_inv w c m'' in
      (
        s,
        g,
        n,
        ec ∙ ap reverse c',
        (
          front ++ u,
          p,
          b ++ behind,
          es
              ∙ ap (λ x. front ++ (x ++ behind))
                  (e ∙ ap (λ x. u ++ x) e' ∙ ap (λ x. u ++ (codes "SUBSCRIPTIONS/" ++ x)) e'')
              ∙ regroup front u s g p n b behind,
        ),
      )

  -- The text has no newline.
  abbrev pub IsLine : Text → Type 0
  IsLine = All (λ c. dot c ≡ true)

  -- An id that is built of such names, with no newline in them, is matched.
  pub resource_regexp_complete :
      (front subscription group_name provider name : Text)
      → IsLine front
      → IsLine subscription
      → IsLine group_name
      → IsLine provider
      → IsLine name
      → MatchesIn resource_regexp
          (front
            ++ (codes "SUBSCRIPTIONS/"
                ++ (subscription
                    ++ (codes "/RESOURCEGROUPS/"
                        ++ (group_name
                            ++ (codes "/PROVIDERS/" ++ (provider ++ (kind ++ (name ++ [])))))))))
          (subscription ∷ group_name ∷ name ∷ [])
  resource_regexp_complete front s g p n hf hs hg hp hn = (
    [],
    _,
    [],
    n ∷ g ∷ s ∷ [],
    sym (append-nil _),
    skip subscriptions_on dot front _ hf (
        literally subscription_on (codes "SUBSCRIPTIONS/") _ (
          grouped groups_on dot s _ (n ∷ g ∷ []) hs (
            literally group_on (codes "/RESOURCEGROUPS/") _ (
              grouped providers_on dot g _ (n ∷ []) hg (
                literally provider_on (codes "/PROVIDERS/") _ (
                  skip kind_on dot p _ hp (
                    literally name_on kind _ (
                      grouped ending dot n [] [] hn
                        ([], [], [], [], (inl refl, refl), (tt, refl), refl, refl))))))))),
    refl,
  )
