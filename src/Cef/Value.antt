-- ===== src/Cef/Value.antt =====
-- `formatValue` of parser/cef.go and `formatMac` of parser/common.go.
use nsg_parser.Prelude.{
  ℕ, ◌+◌, ◌-◌, ◌%◌, ◌<◌, ◌≡◌, refl, Bool, true, false, not, ◌&&◌, List, [], ◌∷◌, arith, ◌==◌, ltb,
  if◌then◌else◌, Text, codes, Lacks, length, All, ◌∙◌, ◌*◌,
}

-- `strings.Replace(value, "=", "\=", -1)`: every `=`, from the left.
unfoldable pub format_value : Text → Text
format_value [] = []
format_value (c ∷ s) = if c == b'=' then b'\\' ∷ b'=' ∷ format_value s else c ∷ format_value s

-- The reader of an escaped value: a backslash that stands right before `=` is dropped.
pub unformat_value : Text → Text
unformat_value [] = []
unformat_value (c ∷ []) = c ∷ []
unformat_value (c ∷ d ∷ s) =
    let rest = unformat_value (d ∷ s) in if c == b'\\' && d == b'=' then rest else c ∷ rest

-- Each `=` of the text stands behind a backslash; the flag says whether one stands before it.
abbrev pub IsEscaped : Bool → Text → Type 0
IsEscaped b [] = Unit
IsEscaped b (c ∷ s) = (c ≡ b'=' → b ≡ true) × IsEscaped (c == b'\\') s

-- One character in front of an escaped value is read back as it stands.
unformat-cons-format : (s : Text) (c : ℕ) → unformat_value (c ∷ format_value s) ≡ c ∷ s
unfolding format_value unformat_value
unformat-cons-format [] c = refl
unformat-cons-format (d ∷ s) c =
    ground (arith, unformat-cons-format s d, unformat-cons-format s b'=')

-- Escaping a value loses nothing: a reader that takes an escaped equals sign for the sign gives
-- every value back.
pub unformat-format : (s : Text) → unformat_value (format_value s) ≡ s
unfolding format_value unformat_value
unformat-format [] = refl
unformat-format (c ∷ s) = ground (arith, unformat-cons-format s c, unformat-cons-format s b'=')

-- Each equals sign of an escaped value stands behind a backslash.
pub format_value-IsEscaped : (s : Text) (b : Bool) → IsEscaped b (format_value s)
unfolding format_value
format_value-IsEscaped [] b = tt
format_value-IsEscaped (c ∷ s) b =
    ground (arith, format_value-IsEscaped s false, format_value-IsEscaped s (c == b'\\'))

-- The bytes that UTF-8 takes for a code point.
abbrev pub rune_len : ℕ → ℕ
rune_len c = if ltb c 0x80 then 1 else if ltb c 0x800 then 2 else if ltb c 0x10000 then 3 else 4

-- `len(s)`: the bytes of a string.
abbrev pub byte_len : Text → ℕ
byte_len [] = 0
byte_len (c ∷ s) = rune_len c + byte_len s

-- The loop of `formatMac`: `i` is the byte offset of the character, `l_1` is `len(s) - 1`.
format_mac_from : ℕ → ℕ → Text → Text
format_mac_from l_1 i [] = []
format_mac_from l_1 i (c ∷ s) =
    let rest = format_mac_from l_1 (i + rune_len c) s in
    if i % 2 == 1 && not (i == l_1) then c ∷ b':' ∷ rest else c ∷ rest

-- On an empty string `l_1` is -1, and the loop makes no round.
unfoldable pub format_mac : Text → Text
unfolding format_mac_from
format_mac s = format_mac_from (byte_len s - 1) 0 s

format_mac_runs : format_mac (codes "000D3AF33854") ≡ codes "00:0D:3A:F3:38:54"
unfolding format_mac
format_mac_runs = refl

-- The characters of a text that are not `:`.
abbrev pub drop_colons : Text → Text
drop_colons [] = []
drop_colons (c ∷ s) = if c == b':' then drop_colons s else c ∷ drop_colons s

drop_colons-format_mac_from :
    (l i : ℕ) (s : Text) → drop_colons (format_mac_from l i s) ≡ drop_colons s
unfolding format_mac_from
drop_colons-format_mac_from l i [] = refl
drop_colons-format_mac_from l i (c ∷ s) =
    ground (arith, drop_colons-format_mac_from l (i + rune_len c) s)

drop_colons_id : (s : Text) → Lacks b':' s → drop_colons s ≡ s
drop_colons_id [] h = refl
drop_colons_id (c ∷ s) h = ground (arith, drop_colons_id s h.1)

-- formatMac adds colons and nothing else: without them its result is the given address, if that has
-- no colon.
pub drop_colons-format_mac : (s : Text) → Lacks b':' s → drop_colons (format_mac s) ≡ s
unfolding format_mac
drop_colons-format_mac s h = drop_colons-format_mac_from _ 0 s ∙ drop_colons_id s h

-- The address as pairs of characters joined by colons, the form that the field asks for.
abbrev pub Pairs : Type 0
Pairs = List (ℕ × ℕ)

abbrev pub plain : Pairs → Text
plain [] = []
plain ((a, b) ∷ ps) = a ∷ b ∷ plain ps

abbrev pub colon_pairs : Pairs → Text
colon_pairs [] = []
colon_pairs ((a, b) ∷ []) = a ∷ b ∷ []
colon_pairs ((a, b) ∷ p ∷ ps) = a ∷ b ∷ b':' ∷ colon_pairs (p ∷ ps)

abbrev pub IsAsciiPair : ℕ × ℕ → Type 0
IsAsciiPair p = (p.0 < 0x80) × (p.1 < 0x80)

byte_len-plain : (ps : Pairs) → All IsAsciiPair ps → byte_len (plain ps) ≡ 2 * length ps
byte_len-plain [] h = omega arith
byte_len-plain ((a, b) ∷ ps) ((ha, hb), h) = ground (arith, byte_len-plain ps h)

format_mac_from-pairs :
    (ps : Pairs) (i l : ℕ)
    → All IsAsciiPair ps
    → i % 2 ≡ 0
    → l + 1 ≡ i + 2 * length ps
    → format_mac_from l i (plain ps) ≡ colon_pairs ps
unfolding format_mac_from
format_mac_from-pairs [] i l h e k = refl
format_mac_from-pairs ((a, b) ∷ []) i l ((ha, hb), h) e k = ground arith
format_mac_from-pairs ((a, b) ∷ p ∷ ps) i l ((ha, hb), h) e k =
    ground (arith, format_mac_from-pairs (p ∷ ps) (i + 1 + 1) l h (omega arith) (omega arith))

-- An address of ASCII characters in even number, not none, is cut into pairs with one colon between
-- two neighbours and none at either end.
pub format_mac-pairs :
    (p : ℕ × ℕ) (ps : Pairs)
    → All IsAsciiPair (p ∷ ps)
    → format_mac (plain (p ∷ ps)) ≡ colon_pairs (p ∷ ps)
unfolding format_mac
format_mac-pairs p ps h =
    format_mac_from-pairs (p ∷ ps) 0 _ h (omega arith) (omega (arith, byte_len-plain (p ∷ ps) h))
