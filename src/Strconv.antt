-- ===== src/Strconv.antt =====
-- `strconv.ParseInt(s, 10, 64)` of Go's standard library.
use nsg_parser.Prelude.{
  ℕ, zero, suc, ◌+◌, ◌-◌, ◌*◌, ◌^◌, ◌≡◌, refl, Bool, true, false, ◌&&◌, Option, none, some, [], ◌∷◌,
  ltb, leb, ◌==◌, if◌then◌else◌, Text, codes,
}
use nsg_parser.Prelude.Int.{ℤ, pos, negsuc}

pub data NumError : Type 0 where
  invalid_syntax out_of_range : NumError

abbrev pub max_uint64 : ℕ
max_uint64 = 2 ^ 64 - 1

-- The loop of `ParseUint` behind the digits read so far.
scan_uint : Text → ℕ → ℕ × Option NumError
scan_uint [] n = (n, none)
scan_uint (c ∷ s) n =
    let m = n * 10 + (c - b'0') in
    let rest = scan_uint s m in
    if leb b'0' c && leb c b'9'
    then (if ltb max_uint64 m then (max_uint64, some out_of_range) else rest)
    else (0, some invalid_syntax)

unfoldable pub parse_uint : Text → ℕ × Option NumError
unfolding scan_uint
parse_uint [] = (0, some invalid_syntax)
parse_uint (c ∷ s) = scan_uint (c ∷ s) 0

abbrev pub negative : ℕ → ℤ
negative zero = pos 0
negative (suc n) = negsuc n

-- A syntax error gives 0, a value out of range the nearest `int64`.
abbrev pub signed : Bool → ℕ × Option NumError → ℤ × Option NumError
signed neg (un, some invalid_syntax) = (pos 0, some invalid_syntax)
signed true (un, _) =
    if ltb (2 ^ 63) un then (negsuc (2 ^ 63 - 1), some out_of_range) else (negative un, none)
signed false (un, _) =
    if leb (2 ^ 63) un then (pos (2 ^ 63 - 1), some out_of_range) else (pos un, none)

unfoldable pub parse_int : Text → ℤ × Option NumError
unfolding parse_uint
parse_int [] = (pos 0, some invalid_syntax)
parse_int (c ∷ s) =
    if c == b'+'
    then signed false (parse_uint s)
    else if c == b'-'
    then signed true (parse_uint s)
    else signed false (parse_uint (c ∷ s))

parse_int_runs :
    (parse_int (codes "1497038814") ≡ (pos 1497038814, none))
    × (parse_int (codes "-12") ≡ (negsuc 11, none))
    × (parse_int (codes "abcde") ≡ (pos 0, some invalid_syntax))
    × (parse_int (codes "9223372036854775808") ≡ (pos 9223372036854775807, some out_of_range))
unfolding parse_int
parse_int_runs = (refl, refl, refl, refl)
