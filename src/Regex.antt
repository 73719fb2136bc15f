-- ===== src/Regex.antt =====
-- `FindStringSubmatch` of Go's `regexp`, for the operators that the patterns of parser/ use. The
-- match is the leftmost one, and among those the one that backtracking finds first: `*` and `?`
-- take as much as they can. `.` does not match a newline.
pub mod Matches
pub mod Sound
pub mod Complete
pub mod Greedy
use mathlib.Core.List.{reverse}
use nsg_parser.Prelude.{
  ℕ, zero, suc, ◌-◌, Bool, true, false, not, ◌&&◌, Option, none, some, List, [], ◌∷◌, leb, ◌==◌,
  if◌then◌else◌, length, take, Text,
}

pub data Regex : Type 0 where
  class : (ℕ → Bool) → Regex
  star : (ℕ → Bool) → Regex
  optional : (ℕ → Bool) → Regex
  group : Regex → Regex
  empty : Regex
  seq : Regex → Regex → Regex

abbrev pub dot : ℕ → Bool
dot c = not (c == b'\n')

abbrev pub digit : ℕ → Bool
digit c = leb b'0' c && leb c b'9'

-- The pattern that matches a literal text.
abbrev pub literal : Text → Regex
literal [] = empty
literal (c ∷ s) = seq (class (λ d. d == c)) (literal s)

-- `(...){n}` of a class.
abbrev pub times : ℕ → (ℕ → Bool) → Regex
times zero p = empty
times (suc n) p = seq (class p) (times n p)

abbrev pub Captures : Type 0
Captures = List Text

-- The rest of the text and the groups so far, handed to what comes after.
abbrev pub Next : Type 0
Next = Text → Captures → Option Captures

abbrev pub or_else : Option Captures → Option Captures → Option Captures
or_else (some r) o = some r
or_else none o = o

-- One or no character, tried in this order.
one : (ℕ → Bool) → Next → Next
one p next [] caps = none
one p next (c ∷ s) caps = if p c then next s caps else none

many : (ℕ → Bool) → Next → Next
many p next [] caps = next [] caps
many p next (c ∷ s) caps = elim (p c) [
  | true ↦ elim (many p next s caps) [ some r ↦ some r | none ↦ next (c ∷ s) caps ]
  | false ↦ next (c ∷ s) caps
]

-- The text that was read between two positions.
abbrev pub consumed : Text → Text → Text
consumed s rest = take (length s - length rest) s

unfoldable pub match_at : Regex → Next → Next
unfolding one many
match_at (class p) next s caps = one p next s caps
match_at (star p) next s caps = many p next s caps
match_at (optional p) next s caps =
    let skipped = next s caps in elim (one p next s caps) [ some r ↦ some r | none ↦ skipped ]
match_at (group r) next s caps =
    match_at r (λ rest caps'. next rest (consumed s rest ∷ caps')) s caps
match_at empty next s caps = next s caps
match_at (seq a b) next s caps = match_at a (match_at b next) s caps

-- Groups are listed from the last to the first while matching.
abbrev pub accept : Next
accept rest caps = some (reverse caps)

find_from : Regex → Text → Option Captures
find_from r [] = match_at r accept [] []
find_from r (c ∷ s) =
    let later = find_from r s in
    elim (match_at r accept (c ∷ s) []) [ some caps ↦ some caps | none ↦ later ]

-- The groups of the match, from the first on, without the whole match; `none` for no match.
unfoldable pub find_submatch : Regex → Text → Option Captures
unfolding find_from match_at
find_submatch = find_from

-- The same for a pattern that begins with `^`.
unfoldable pub find_at_start : Regex → Text → Option Captures
find_at_start r s = match_at r accept s []
