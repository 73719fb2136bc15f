-- ===== src/Cef/Extension/View.antt =====
-- The text of an event as a function of its map, which forgets how the entries are stored.

use mathlib.Core.Quot.{Quot, Quot-set}
use mathlib.Core.HLevel.{⊥_prop, Π_prop, Σ_prop_path}
use mathlib.Core.List.{
  Mem, Perm, Nodup, mem-cons, not-mem-nil, mem-cons_self, mem-cons_of_mem, perm_ext_iff_of_Nodup,
}
use nsg_parser.Prelude.Sorted.{sort-perm, sort}
use nsg_parser.Dict.{Dict, lookup, keys}
use nsg_parser.Prelude.{
  ◌≡◌, ◌≢◌, refl, ap, sym, ◌∙◌, true, false, none, some, [], ◌∷◌, Text, text_eq, text_eq_iff,
  text_eq_refl, Bool-cases, inl, inr, fun_ext,
}
use mathlib.Core.Quot
use mathlib.Core.Logic.Or
use nsg_parser.Cef.Extension.{extension_text, delimited}
use nsg_parser.Cef.Extension.Order.{encode_keys-cong, Text-set}

some_ne : (v : Text) → some v ≢ none
some_ne v e = cc

true_ne : true ≢ false
true_ne e = cc

lookup-ne-none : (m : Dict Text) (k : Text) → Mem k (keys m) → lookup k m ≢ none
lookup-ne-none [] k h e = not-mem-nil h
lookup-ne-none ((j, v) ∷ m) k h e = elim (Bool-cases (text_eq j k)) [
  | inl same ↦ some_ne v (rw same at e)
  | inr other ↦
      Or.elim ⊥_prop (mem-cons.0 h)
        (λ here. true_ne (sym (text_eq_refl k) ∙ (ap (λ t. text_eq t k) here ∙ other)))
        (λ there. lookup-ne-none m k there (rw other at e))
]

mem-keys : (m : Dict Text) (k : Text) → lookup k m ≢ none → Mem k (keys m)
mem-keys [] k h = absurd (h refl)
mem-keys ((j, v) ∷ m) k h = elim (Bool-cases (text_eq j k)) [
  | inl same ↦ rw ((text_eq_iff j k).0 same) mem-cons_self
  | inr other ↦ mem-cons_of_mem j (mem-keys m k (λ e. h (rw other e)))
]

-- The same map: each key has the same value.
abbrev pub SameMap : Dict Text → Dict Text → Type 0
SameMap m n = (k : Text) → lookup k m ≡ lookup k n

SameMap-keys : (m n : Dict Text) → SameMap m n → (k : Text) → Mem k (keys m) → Mem k (keys n)
SameMap-keys m n h k i = mem-keys n k (λ e. lookup-ne-none m k i (h k ∙ e))

keys-perm :
    (m n : Dict Text) → Nodup (keys m) → Nodup (keys n) → SameMap m n → Perm (keys m) (keys n)
keys-perm m n d e h =
    (perm_ext_iff_of_Nodup d e).1 (λ k. (SameMap-keys m n h k, SameMap-keys n m (λ j. sym (h j)) k))

-- The entries decide the text by the values of the keys alone.
pub extension_text-same :
    (m n : Dict Text)
    → Nodup (keys m)
    → Nodup (keys n)
    → SameMap m n
    → extension_text m ≡ extension_text n
unfolding extension_text
extension_text-same m n d e h =
    rw (sort-perm (keys-perm m n d e h)) (ap delimited (encode_keys-cong m n (sort (keys n)) [] h))

-- The entries of a map, with one entry for each key, and the map that they are, which does not
-- tell apart what no key tells apart.
abbrev pub Entries : Type 0
Entries = (m : Dict Text) × Nodup (keys m)

abbrev pub SameEntries : Entries → Entries → Type 0
SameEntries m n = SameMap m.0 n.0

abbrev pub GoMap : Type 0
GoMap = Quot SameEntries

text_of : GoMap → Text
text_of =
    Quot.lift Text-set (λ m. extension_text m.0) (λ m n h. extension_text-same m.0 n.0 m.1 n.1 h)

-- A function on the maps that is ExtensionText on the entries of each.
abbrev pub IsExtensionText : (GoMap → Text) → Type 0
IsExtensionText f = (m : Entries) → f (Quot.mk m) ≡ extension_text m.0

abbrev pub OnMaps : Type 0
OnMaps = (f : GoMap → Text) × IsExtensionText f

text_of_lem : OnMaps
unfolding text_of
text_of_lem = (text_of, λ m. refl)

-- ExtensionText is a function of the Go map: there is exactly one function on the maps, whose
-- entries are not told apart where each key has the same value, that gives for the entries of a map
-- with distinct keys the text that ExtensionText makes.
pub extension_text-OnMaps : (c : OnMaps) × ((d : OnMaps) → d ≡ c)
unfolding text_of text_of_lem
extension_text-OnMaps = (
  text_of_lem,
  λ d.
      Σ_prop_path (λ f. Π_prop (λ m. Text-set (f (Quot.mk m)) (extension_text m.0)))
        (fun_ext
          (Quot.ind (λ q. Text-set (d.0 q) (text_of q)) (λ m. d.1 m ∙ sym (text_of_lem.1 m)))),
)
