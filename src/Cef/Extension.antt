-- ===== src/Cef/Extension.antt =====
-- `ExtensionText` of parser/cef.go.
pub mod Order
pub mod View
pub mod Pairs
use nsg_parser.Prelude.Sorted.{sort}
use nsg_parser.Cef.Value.{format_value}
use nsg_parser.Dict.{Dict, lookup, keys}
use nsg_parser.Prelude.{
  Text, codes, ℕ, ◌∷◌, ◌++◌, Bool, if◌then◌else◌, leb, ◌&&◌, ◌||◌, ◌==◌, ◌≡◌, refl, Option, List,
  [], get_or, text_eq, none, some,
}

-- `unicode.IsSpace`.
abbrev pub is_space : ℕ → Bool
is_space c =
    (leb 9 c && leb c 13)
    || (c == 32 || c == 0x85 || c == 0xa0 || c == 0x1680)
    || (leb 0x2000 c && leb c 0x200a)
    || (c == 0x2028 || c == 0x2029 || c == 0x202f || c == 0x205f || c == 0x3000)

unfoldable pub trim_left : Text → Text
trim_left [] = []
trim_left (c ∷ s) = if is_space c then trim_left s else c ∷ s

abbrev pub drop_space : ℕ → Text → Text
drop_space c [] = if is_space c then [] else c ∷ []
drop_space c (d ∷ s) = c ∷ d ∷ s

unfoldable pub trim_right : Text → Text
trim_right [] = []
trim_right (c ∷ s) = drop_space c (trim_right s)

-- `strings.TrimSpace`.
unfoldable pub trim_space : Text → Text
unfolding trim_left trim_right
trim_space s = trim_right (trim_left s)

-- `event.Extension[key]`: a missing key gives the empty string.
abbrev pub or_empty : Option Text → Text
or_empty none = []
or_empty (some v) = v

abbrev pub value_of : Dict Text → Text → Text
value_of m k = or_empty (lookup k m)

-- `fmt.Sprintf("%s=%s ", key, formatValue(value))`.
abbrev pub encoded_pair : Text → Text → Text
encoded_pair k v = k ++ b'=' ∷ (format_value v ++ b' ' ∷ [])

-- The loop over the sorted keys: empty values are left out.
unfoldable pub encode_keys : Dict Text → List Text → Text → Text
encode_keys m [] out = out
encode_keys m (k ∷ ks) out =
    let v = value_of m k in encode_keys m ks (if text_eq v [] then out else out ++ encoded_pair k v)

abbrev pub delimited : Text → Text
delimited [] = []
delimited (c ∷ s) = b'|' ∷ trim_space (c ∷ s)

-- The entries of the map stand in the order in which the range over it meets them.
unfoldable pub extension_text : Dict Text → Text
unfolding encode_keys
extension_text m = delimited (encode_keys m (sort (keys m)) [])

extension_text_runs :
    extension_text
      ((codes "dst", codes "10.0.0.2") ∷ (codes "act", codes "a=b") ∷ (codes "cs4", []) ∷ [])
    ≡ codes "|act=a\\=b dst=10.0.0.2"
unfolding extension_text sort format_value trim_space
extension_text_runs = refl
