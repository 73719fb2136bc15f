-- ===== src/Cef/Extension/Order.antt =====
-- The text of an event does not depend on the order in which Go runs through the map.

use mathlib.Core.Logic.{∥∥₁_elim}
use native.Mathlib.Nat.{ℕ_set}
use mathlib.Core.List.{Perm, Permᴰ, Nodup, Nodup-cons, mem-cons}
use nsg_parser.Prelude.Sorted.{sort-perm, sort}
use nsg_parser.Dict.{Dict, lookup, keys}
use nsg_parser.Prelude.{
  ◌≡◌, refl, ap, ◌∙◌, ◌≢◌, some, List, [], ◌∷◌, arith, if◌then◌else◌, Text, text_eq, text_eq_iff,
}
use mathlib.Core.List.Perm
use mathlib.Core.Logic.Or
use nsg_parser.Cef.Extension.{extension_text, encode_keys, delimited}

lookup-swap :
    (a b : Text × Text) (m : Dict Text) (k : Text)
    → a.0 ≢ b.0
    → lookup k (a ∷ b ∷ m) ≡ lookup k (b ∷ a ∷ m)
lookup-swap (i, v) (j, w) m k h = ground (arith, text_eq_iff i k, text_eq_iff j k)

Nodup-heads : (x y : Text) (l : List Text) → Nodup (x ∷ y ∷ l) → x ≢ y
Nodup-heads x y l h e = (Nodup-cons.0 h).0 (rw e (mem-cons.1 (Or.inl refl)))

lookup-Permᴰ : {m n : Dict Text} → Permᴰ m n → Nodup (keys m) → (k : Text) → lookup k m ≡ lookup k n
lookup-Permᴰ Permᴰ.nil h k = refl
lookup-Permᴰ (Permᴰ.cons {a = a} {b = b} {l₁ = l} {l₂ = r} e p) h k =
    rw (← e) (ap (λ o. if text_eq a.0 k then some a.1 else o) (lookup-Permᴰ p (Nodup-cons.0 h).1 k))
lookup-Permᴰ (Permᴰ.swap {a = a} {b = b} {l = l} e f) h k =
    rw (← e, ← f) (lookup-swap a b l k (Nodup-heads a.0 b.0 (keys l) h))
lookup-Permᴰ (Permᴰ.trans p q) h k =
    lookup-Permᴰ p h k ∙ lookup-Permᴰ q (Perm.nodup (Perm.map (λ e. e.0) ∣ p ∣₁) h) k

pub encode_keys-cong :
    (m n : Dict Text) (ks : List Text) (out : Text)
    → ((k : Text) → lookup k m ≡ lookup k n)
    → encode_keys m ks out ≡ encode_keys n ks out
unfolding encode_keys
encode_keys-cong m n [] out h = refl
encode_keys-cong m n (k ∷ ks) out h = rw (h k) (encode_keys-cong m n ks _ h)

extension_text-Permᴰ :
    {m n : Dict Text} → Permᴰ m n → Nodup (keys m) → extension_text m ≡ extension_text n
unfolding extension_text
extension_text-Permᴰ {m} {n} p h =
    rw (sort-perm (Perm.map (λ e. e.0) ∣ p ∣₁))
      (ap delimited (encode_keys-cong m n (sort (keys n)) [] (lookup-Permᴰ p h)))

pub Text-set : IsSet Text
Text-set = hlevel ℕ_set

-- ExtensionText gives one text for a map with distinct keys, in whatever order the range meets its
-- entries.
pub extension_text-perm :
    (m n : Dict Text) → Perm m n → Nodup (keys m) → extension_text m ≡ extension_text n
extension_text-perm m n p h =
    ∥∥₁_elim p (Text-set (extension_text m) (extension_text n)) (λ q. extension_text-Permᴰ q h)
