-- ===== src/Tests/Values.antt =====
-- The values of the extension, at concrete texts.
use mathlib.Core.Logic.Or
use mathlib.Core.HLevel.{⊥_prop}
use mathlib.Core.List.{cons-ne-nil, Nodup-nil, Nodup, Nodup-cons, mem-cons, not-mem-nil}
use nsg_parser.Prelude.Sorted.{sort}
use nsg_parser.Cef.Extension.Pairs.{space, pairs, split-extension_text, IsSpaceFree}
use nsg_parser.Cef.Extension.{extension_text}
use nsg_parser.Dict.{Dict, keys}
use nsg_parser.Prelude.{◌≡◌, [], ◌∷◌, arith, drop, Text, codes, split, text_eq_iff}

abbrev sample_map : Dict Text
sample_map = (codes "src", codes "10.0.0.4") ∷ (codes "act", codes "a=b") ∷ (codes "cs1", []) ∷ []

abbrev two_keys : Dict Text
two_keys = (codes "src", codes "10.0.0.4") ∷ (codes "act", codes "a=b") ∷ []

abbrev two_keys_swapped : Dict Text
two_keys_swapped = (codes "act", codes "a=b") ∷ (codes "src", codes "10.0.0.4") ∷ []

two_keys-Nodup : Nodup (keys two_keys)
two_keys-Nodup = Nodup-cons.1 (
  λ m.
      Or.elim ⊥_prop (mem-cons.0 m)
        (λ e. let f = (text_eq_iff (codes "src") (codes "act")).1 e in cc) not-mem-nil,
  Nodup-cons.1 (not-mem-nil, Nodup-nil),
)

solid : IsSpaceFree sample_map (sort (keys sample_map))
unfolding sort
solid = ground arith

split-extension_text_example :
    split (drop 1 (extension_text sample_map)) space ≡ pairs sample_map (sort (keys sample_map))
unfolding sort
split-extension_text_example = split-extension_text sample_map solid (cons-ne-nil _ _)
