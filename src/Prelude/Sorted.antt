-- ===== src/Prelude/Sorted.antt =====
-- `sort.Strings`. Equal strings cannot be told apart, so every correct sort returns one and the
-- same list; this is an insertion sort.

use native.Mathlib.Nat.{ℕ_set}
use native.Mathlib.Omega.{arith}
use mathlib.Core.Bool.{true}
use mathlib.Core.Path.{◌≡◌, refl, ◌∙◌}
use mathlib.Core.List.{Perm, Permᴰ, List, ◌∷◌, []}
use mathlib.Core.List.Perm
use mathlib.Core.Logic.{∥∥₁_elim, inl, inr}
use nsg_parser.Prelude.Strings.{Text, text_leb, text_leb_total, text_leb_antisymm, text_leb_trans}
use nsg_parser.Prelude.Lists.{All}
use nsg_parser.Prelude.Tests.{if◌then◌else◌, Bool-cases}

insert : Text → List Text → List Text
insert x [] = x ∷ []
insert x (y ∷ l) = if text_leb x y then x ∷ y ∷ l else y ∷ insert x l

unfoldable pub sort : List Text → List Text
unfolding insert
sort [] = []
sort (x ∷ l) = insert x (sort l)

insert_comm : (x y : Text) (l : List Text) → insert x (insert y l) ≡ insert y (insert x l)
unfolding insert
insert_comm x y [] = ground (arith, text_leb_total x y, text_leb_antisymm x y)
insert_comm x y (z ∷ l) = ground (
  arith,
  text_leb_total x y,
  text_leb_antisymm x y,
  text_leb_trans x y z,
  text_leb_trans y x z,
  insert_comm x y l,
)

sort-Permᴰ : {xs ys : List Text} → Permᴰ xs ys → sort xs ≡ sort ys
unfolding sort
sort-Permᴰ Permᴰ.nil = refl
sort-Permᴰ (Permᴰ.cons {l₁ = xs} {l₂ = ys} e p) = rw (e, sort-Permᴰ p)
sort-Permᴰ (Permᴰ.swap {a = a} {b = b} {l = l} e f) = rw (← e, ← f) (insert_comm a b (sort l))
sort-Permᴰ (Permᴰ.trans p q) = sort-Permᴰ p ∙ sort-Permᴰ q

Texts-set : IsSet (List Text)
Texts-set = hlevel ℕ_set

-- The order in which the strings are given does not matter.
pub sort-perm : {xs ys : List Text} → Perm xs ys → sort xs ≡ sort ys
sort-perm {xs} {ys} p = ∥∥₁_elim p (Texts-set (sort xs) (sort ys)) sort-Permᴰ

-- In order, from the first string on.
abbrev pub IsSorted : List Text → Type 0
IsSorted [] = Unit
IsSorted (x ∷ l) = All (λ y. text_leb x y ≡ true) l × IsSorted l

All-insert {κ} : (P : Text → Type κ) (x : Text) (l : List Text) → P x → All P l → All P (insert x l)
unfolding insert
All-insert P x [] px h = (px, tt)
All-insert P x (y ∷ l) px h = ground (arith, All-insert P x l px h.1)

All-leb_trans :
    (x y : Text) (l : List Text)
    → text_leb x y ≡ true
    → All (λ z. text_leb y z ≡ true) l
    → All (λ z. text_leb x z ≡ true) l
All-leb_trans x y [] e h = tt
All-leb_trans x y (z ∷ l) e h = (text_leb_trans x y z e h.0, All-leb_trans x y l e h.1)

insert-IsSorted : (x : Text) (l : List Text) → IsSorted l → IsSorted (insert x l)
unfolding insert
insert-IsSorted x [] h = (tt, tt)
insert-IsSorted x (y ∷ l) h = elim (Bool-cases (text_leb x y)) [
  | inl e ↦ rw e ((e, All-leb_trans x y l e h.0), h)
  | inr e ↦ rw e (All-insert _ x l (text_leb_total x y e) h.0, insert-IsSorted x l h.1)
]

pub sort-IsSorted : (l : List Text) → IsSorted (sort l)
unfolding sort
sort-IsSorted [] = tt
sort-IsSorted (x ∷ l) = insert-IsSorted x (sort l) (sort-IsSorted l)

insert-perm : (x : Text) (l : List Text) → Perm (insert x l) (x ∷ l)
unfolding insert
insert-perm x [] = Perm.refl (x ∷ [])
insert-perm x (y ∷ l) = elim (Bool-cases (text_leb x y)) [
  | inl e ↦ rw e (Perm.refl (x ∷ y ∷ l))
  | inr e ↦ rw e (Perm.trans (Perm.cons y (insert-perm x l)) (Perm.swap x y l))
]

pub sort-perm_self : (l : List Text) → Perm (sort l) l
unfolding sort
sort-perm_self [] = Perm.refl []
sort-perm_self (x ∷ l) = Perm.trans (insert-perm x (sort l)) (Perm.cons x (sort-perm_self l))
