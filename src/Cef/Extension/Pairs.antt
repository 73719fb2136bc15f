-- ===== src/Cef/Extension/Pairs.antt =====
-- What the text of an event holds: one `key=value` for each entry, in the order of the keys.
use mathlib.Core.List.{cons-ne-nil}
use nsg_parser.Prelude.Sorted.{sort}
use nsg_parser.Dict.{Dict, keys}
use nsg_parser.Prelude.{
  ℕ, ◌≡◌, refl, sym, ap, ◌∙◌, ◌≢◌, inl, inr, false, List, [], ◌∷◌, ◌++◌, append-nil, append_assoc,
  arith, if◌then◌else◌, Bool-cases, drop, All, All-append, Text, text_eq, Lacks, split, join,
  split-join,
}
use nsg_parser.Cef.Extension.{
  is_space, trim_left, trim_right, trim_space, value_of, encode_keys, extension_text, delimited,
  drop_space,
}
use nsg_parser.Cef.Value.{format_value}

abbrev pub space : ℕ
space = b' '

abbrev pub IsSolid : Text → Type 0
IsSolid = All (λ c. is_space c ≡ false)

-- The pairs for the given keys; an empty value has none.
abbrev pub pairs : Dict Text → List Text → List Text
pairs m [] = []
pairs m (k ∷ ks) =
    if text_eq (value_of m k) []
    then pairs m ks
    else (k ++ b'=' ∷ format_value (value_of m k)) ∷ pairs m ks

-- No white space in the keys or in their values.
abbrev pub IsSpaceFree : Dict Text → List Text → Type 0
IsSpaceFree m = All (λ k. IsSolid k × IsSolid (value_of m k))

terminated : List Text → Text
terminated [] = []
terminated (p ∷ ps) = p ++ space ∷ terminated ps

encode_keys-pairs :
    (m : Dict Text) (ks : List Text) (out : Text)
    → encode_keys m ks out ≡ out ++ terminated (pairs m ks)
unfolding encode_keys terminated
encode_keys-pairs m [] out = sym (append-nil out)
encode_keys-pairs m (k ∷ ks) out = elim (Bool-cases (text_eq (value_of m k) [])) [
  | inl e ↦ rw e (encode_keys-pairs m ks out)
  | inr e ↦ rw e (simp (encode_keys-pairs m ks, append_assoc))
]

terminated-join :
    (p : Text) (ps : List Text) → terminated (p ∷ ps) ≡ join (p ∷ ps) space ++ space ∷ []
unfolding terminated
terminated-join p [] = refl
terminated-join p (q ∷ ps) = simp (terminated-join q ps, append_assoc)

drop_space-append : (c : ℕ) (s t : Text) → t ≢ [] → drop_space c (s ++ t) ≡ c ∷ (s ++ t)
drop_space-append c [] [] h = absurd (h refl)
drop_space-append c [] (d ∷ t) h = refl
drop_space-append c (d ∷ s) t h = refl

trim_right-append : (s t : Text) → t ≢ [] → trim_right t ≡ t → trim_right (s ++ t) ≡ s ++ t
unfolding trim_right
trim_right-append [] t h e = e
trim_right-append (c ∷ s) t h e = rw (trim_right-append s t h e) (drop_space-append c s t h)

trim_right-concat : (s : Text) → trim_right (s ++ space ∷ []) ≡ trim_right s
unfolding trim_right
trim_right-concat [] = refl
trim_right-concat (c ∷ s) = rw (trim_right-concat s)

trim_right_solid : (s : Text) → IsSolid s → trim_right s ≡ s
unfolding trim_right
trim_right_solid [] h = refl
trim_right_solid (c ∷ []) h = ground arith
trim_right_solid (c ∷ d ∷ s) h = rw (trim_right_solid (d ∷ s) h.1)

-- A pair: not empty, and with no white space.
abbrev IsWord : Text → Type 0
IsWord p = (p ≢ []) × IsSolid p

join-ne-nil : (p : Text) (ps : List Text) → p ≢ [] → join (p ∷ ps) space ≢ []
join-ne-nil [] ps h = absurd (h refl)
join-ne-nil (c ∷ p) [] h = cons-ne-nil c p
join-ne-nil (c ∷ p) (q ∷ ps) h = cons-ne-nil c _

trim_right-join :
    (p : Text) (ps : List Text)
    → All IsWord (p ∷ ps)
    → trim_right (join (p ∷ ps) space) ≡ join (p ∷ ps) space
trim_right-join p [] h = trim_right_solid p h.0.1
trim_right-join p (q ∷ ps) h = trim_right-append p (space ∷ join (q ∷ ps) space) (cons-ne-nil _ _) (
    trim_right-append (space ∷ []) (join (q ∷ ps) space) (join-ne-nil q ps h.1.0.0)
      (trim_right-join q ps h.1))

trim_left_solid : (c : ℕ) (s : Text) → is_space c ≡ false → trim_left (c ∷ s) ≡ c ∷ s
unfolding trim_left
trim_left_solid c s h = rw h

trim_left-terminated :
    (p : Text) (ps : List Text) → IsWord p → trim_left (terminated (p ∷ ps)) ≡ terminated (p ∷ ps)
unfolding terminated
trim_left-terminated [] ps h = absurd (h.0 refl)
trim_left-terminated (c ∷ p) ps h = trim_left_solid c _ h.1.0

delimited-terminated :
    (p : Text) (ps : List Text)
    → All IsWord (p ∷ ps)
    → delimited (terminated (p ∷ ps)) ≡ b'|' ∷ join (p ∷ ps) space
unfolding terminated trim_space
delimited-terminated [] ps h = absurd (h.0.0 refl)
delimited-terminated (c ∷ p) ps h = ap (◌∷◌ b'|') (
    ap trim_right (trim_left-terminated (c ∷ p) ps h.0)
    ∙ ap trim_right (terminated-join (c ∷ p) ps)
    ∙ trim_right-concat (join ((c ∷ p) ∷ ps) space)
    ∙ trim_right-join (c ∷ p) ps h)

format_value-IsSolid : (s : Text) → IsSolid s → IsSolid (format_value s)
unfolding format_value
format_value-IsSolid [] h = tt
format_value-IsSolid (c ∷ s) h = ground (arith, format_value-IsSolid s h.1)

pair-ne-nil : (k v : Text) → (k ++ b'=' ∷ v) ≢ []
pair-ne-nil [] v = cons-ne-nil _ _
pair-ne-nil (c ∷ k) v = cons-ne-nil _ _

pairs-IsWord : (m : Dict Text) (ks : List Text) → IsSpaceFree m ks → All IsWord (pairs m ks)
pairs-IsWord m [] h = tt
pairs-IsWord m (k ∷ ks) h = elim (Bool-cases (text_eq (value_of m k) [])) [
  | inl e ↦ rw e (pairs-IsWord m ks h.1)
  | inr e ↦ rw e (
    (pair-ne-nil k _, All-append _ k _ h.0.0 (refl, format_value-IsSolid _ h.0.1)),
    pairs-IsWord m ks h.1,
  )
]

IsSolid-Lacks : (s : Text) → IsSolid s → Lacks space s
IsSolid-Lacks [] h = tt
IsSolid-Lacks (c ∷ s) h = ((λ e. absurd (cc (h.0, e))), IsSolid-Lacks s h.1)

IsWord-Lacks : (ps : List Text) → All IsWord ps → All (Lacks space) ps
IsWord-Lacks [] h = tt
IsWord-Lacks (p ∷ ps) h = (IsSolid-Lacks p h.0.1, IsWord-Lacks ps h.1)

split-delimited :
    (ps : List Text)
    → ps ≢ []
    → All IsWord ps
    → split (drop 1 (delimited (terminated ps))) space ≡ ps
split-delimited [] n h = absurd (n refl)
split-delimited (p ∷ ps) n h =
    rw (delimited-terminated p ps h) (split-join p ps space (IsWord-Lacks (p ∷ ps) h))

-- If no key and no value holds white space and some value is not empty, the extension text behind
-- its bar splits at the spaces into exactly the escaped pairs of the values that are not empty, in
-- the order of the sorted keys.
pub split-extension_text :
    (m : Dict Text)
    → IsSpaceFree m (sort (keys m))
    → pairs m (sort (keys m)) ≢ []
    → split (drop 1 (extension_text m)) space ≡ pairs m (sort (keys m))
unfolding extension_text
split-extension_text m h n =
    rw (encode_keys-pairs m (sort (keys m)) []) (split-delimited _ n (pairs-IsWord m _ h))
