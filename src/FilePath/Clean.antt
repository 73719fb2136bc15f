-- ===== src/FilePath/Clean.antt =====
-- A path that is cleaned or made absolute stays as it is when that is done again.
use mathlib.Core.List.{append-nil, reverse, reverse-append, reverse-reverse}
use nsg_parser.FilePath.{
  is_abs, pop_element, push_element, resolve, elements, clean, join_path, abs,
}
use nsg_parser.Prelude.{
  ◌≡◌, refl, ap, sym, ◌∙◌, ◌++◌, true, false, Option, none, some, List, [], ◌∷◌, Text, codes,
  text_eq, split, join, All, Lacks, Bool-cases, inl, inr, split-Lacks, split-join, split-sep,
  split-nil, ◌≢◌, append_assoc, All-append,
}

-- An element that a clean path may have behind its root.
abbrev pub IsPlain : Text → Type 0
IsPlain e =
    (text_eq e [] ≡ false)
    × (text_eq e (codes ".") ≡ false)
    × (text_eq e (codes "..") ≡ false)
    × Lacks b'/' e

pop_element-IsPlain : (stack : List Text) → All IsPlain stack → All IsPlain (pop_element true stack)
pop_element-IsPlain [] h = tt
pop_element-IsPlain (top ∷ stack) h = rw h.0.2 h.1

push_element-IsPlain :
    (e : Text) (stack : List Text)
    → Lacks b'/' e
    → All IsPlain stack
    → All IsPlain (push_element true e stack)
push_element-IsPlain e stack l h = elim (Bool-cases (text_eq e [])) [
  | inl p ↦ rw p h
  | inr p ↦ elim (Bool-cases (text_eq e (codes "."))) [
    | inl q ↦ rw (p, q) h
    | inr q ↦ elim (Bool-cases (text_eq e (codes ".."))) [
      | inl r ↦ rw (p, q, r) (pop_element-IsPlain stack h)
      | inr r ↦ rw (p, q, r) ((p, q, r, l), h)
    ]
  ]
]

resolve-IsPlain :
    (es stack : List Text)
    → All (Lacks b'/') es
    → All IsPlain stack
    → All IsPlain (resolve true es stack)
unfolding resolve
resolve-IsPlain [] stack l h = h
resolve-IsPlain (e ∷ es) stack l h =
    resolve-IsPlain es (push_element true e stack) l.1 (push_element-IsPlain e stack l.0 h)

reverse-All {ℓ κ} : {A : Type ℓ} (P : A → Type κ) (xs : List A) → All P xs → All P (reverse xs)
reverse-All P [] h = tt
reverse-All P (x ∷ xs) h =
    rw (reverse-append (x ∷ []) xs)
      (All-append P (reverse xs) (x ∷ []) (reverse-All P xs h.1) (h.0, tt))

pub elements-IsPlain : (p : Text) → All IsPlain (elements true p)
elements-IsPlain p =
    reverse-All IsPlain _ (resolve-IsPlain (split p b'/') [] (split-Lacks p b'/') tt)

resolve-plain :
    (es stack : List Text) → All IsPlain es → resolve true es stack ≡ reverse es ++ stack
unfolding resolve
resolve-plain [] stack h = refl
resolve-plain (e ∷ es) stack h =
    rw (h.0.0, h.0.1, h.0.2, resolve-plain es (e ∷ stack) h.1, reverse-append (e ∷ []) es)
      (sym (append_assoc (reverse es) (e ∷ []) stack))

resolve_again : (es : List Text) → All IsPlain es → reverse (resolve true es []) ≡ es
resolve_again es h = rw (resolve-plain es [] h, append-nil (reverse es)) (reverse-reverse es)

IsPlain-Lacks : (es : List Text) → All IsPlain es → All (Lacks b'/') es
IsPlain-Lacks [] h = tt
IsPlain-Lacks (e ∷ es) h = (h.0.3, IsPlain-Lacks es h.1)

-- What stands behind the root is split into the elements, and an empty one in front of the root.
elements-join : (es : List Text) → All IsPlain es → elements true (b'/' ∷ join es b'/') ≡ es
unfolding resolve
elements-join [] h = rw (split-sep [] b'/', split-nil b'/') refl
elements-join (e ∷ es) h =
    rw (split-sep (join (e ∷ es) b'/') b'/', split-join e es b'/' (IsPlain-Lacks (e ∷ es) h))
      (resolve_again (e ∷ es) h)

pub clean-is_abs : (p : Text) → is_abs p ≡ true → is_abs (clean p) ≡ true
unfolding clean
clean-is_abs p h = rw h refl

pub clean-clean : (p : Text) → is_abs p ≡ true → clean (clean p) ≡ clean p
unfolding clean
clean-clean p h =
    rw h (ap (λ es. b'/' ∷ join es b'/') (elements-join (elements true p) (elements-IsPlain p)))

abbrev pub IsRooted : Option Text → Type 0
IsRooted none = Unit
IsRooted (some folder) = is_abs folder ≡ true

join_path-is_abs :
    (folder p : Text)
    → is_abs folder ≡ true
    → (x : Text) × (is_abs x ≡ true) × (join_path folder p ≡ clean x)
unfolding join_path
join_path-is_abs [] p h = cc
join_path-is_abs (d ∷ folder) p h = ((d ∷ folder) ++ (b'/' ∷ p), h, refl)

some_eq : (q x : Text) → some x ≡ some q → q ≡ x
some_eq q x h = cc

none_ne : (q : Text) → none ≢ some q
none_ne q h = cc

abs_rooted : (there : Option Text) (p : Text) → is_abs p ≡ true → abs there p ≡ some (clean p)
unfolding abs
abs_rooted there p h = rw h refl

abs-clean :
    (here : Option Text) (p q : Text)
    → IsRooted here
    → abs here p ≡ some q
    → (x : Text) × (is_abs x ≡ true) × (q ≡ clean x)
unfolding abs
abs-clean none p q r h = elim (Bool-cases (is_abs p)) [
  | inl e ↦ (p, e, some_eq q (clean p) (sym (abs_rooted none p e) ∙ h))
  | inr e ↦ absurd (none_ne q (rw e at h))
]
abs-clean (some folder) p q r h = elim (Bool-cases (is_abs p)) [
  | inl e ↦ (p, e, some_eq q (clean p) (sym (abs_rooted (some folder) p e) ∙ h))
  | inr e ↦
      let (x, rooted, j) = join_path-is_abs folder p r in
      (x, rooted, some_eq q (join_path folder p) (rw e at h) ∙ j)
]

-- An absolute path is the same in each working directory.
pub abs-abs :
    (here there : Option Text) (p q : Text)
    → IsRooted here
    → abs here p ≡ some q
    → abs there q ≡ some q
abs-abs here there p q r h =
    let (x, rooted, e) = abs-clean here p q r h in
    rw e (abs_rooted there (clean x) (clean-is_abs x rooted) ∙ ap some (clean-clean x rooted))

pub abs-is_abs :
    (here : Option Text) (p q : Text) → IsRooted here → abs here p ≡ some q → is_abs q ≡ true
abs-is_abs here p q r h =
    let (x, rooted, e) = abs-clean here p q r h in rw e (clean-is_abs x rooted)
