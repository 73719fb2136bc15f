-- ===== src/Prelude/Strings.antt =====
-- Go strings, as lists of code points. Every text that the program handles comes out of
-- `encoding/json` or is a constant, so it is valid UTF-8; orders and equality of the bytes are
-- then those of the code points.
use Prim.Native.Nat.{ℕ}
use Prim.Native.Char.{code}
use Prim.Native.String.{String}
use mathlib.Core.Path.{◌≡◌, refl, ap}
use mathlib.Core.Logic.{◌≢◌, ◌↔◌, inl, inr}
use mathlib.Core.Bool.{Bool, true, false, ◌&&◌, ◌||◌}
use mathlib.Core.List.{List, [], ◌∷◌, ◌++◌, append_assoc, append-nil}
use native.Mathlib.Omega.{arith}
use nsg_parser.Prelude.Tests.{ltb, ◌==◌, Bool-cases}
use nsg_parser.Prelude.Lists.{All, All-append}

abbrev pub Text : Type 0
Text = List ℕ

-- A literal.
abbrev pub codes : String → Text
codes String.[] = []
codes (String.◌∷◌ c s) = code c ∷ codes s

-- `==` on strings.
abbrev pub text_eq : Text → Text → Bool
text_eq [] [] = true
text_eq (a ∷ s) (b ∷ t) = a == b && text_eq s t
text_eq _ _ = false

pub text_eq_iff : (s t : Text) → (text_eq s t ≡ true) ↔ (s ≡ t)
text_eq_iff (a ∷ s) (b ∷ t) = ground (arith, text_eq_iff s t)
text_eq_iff _ _ = ground arith

pub text_eq_refl : (s : Text) → text_eq s s ≡ true
text_eq_refl s = (text_eq_iff s s).1 refl

pub text_eq_ne : (s t : Text) → s ≢ t → text_eq s t ≡ false
text_eq_ne s t h = elim (Bool-cases (text_eq s t)) [
  | inl e ↦ absurd (h ((text_eq_iff s t).0 e))
  | inr e ↦ e
]

-- `<=` on strings, the order of `sort.Strings`.
abbrev pub text_leb : Text → Text → Bool
text_leb [] t = true
text_leb (a ∷ s) [] = false
text_leb (a ∷ s) (b ∷ t) = ltb a b || (a == b && text_leb s t)

pub text_leb_total : (s t : Text) → text_leb s t ≡ false → text_leb t s ≡ true
text_leb_total [] t h = ground arith
text_leb_total (a ∷ s) [] h = refl
text_leb_total (a ∷ s) (b ∷ t) h = ground (arith, text_leb_total s t)

pub text_leb_antisymm : (s t : Text) → text_leb s t ≡ true → text_leb t s ≡ true → s ≡ t
text_leb_antisymm [] [] h k = refl
text_leb_antisymm [] (b ∷ t) h k = cc
text_leb_antisymm (a ∷ s) [] h k = cc
text_leb_antisymm (a ∷ s) (b ∷ t) h k = ground (arith, text_leb_antisymm s t)

pub text_leb_trans :
    (s t u : Text) → text_leb s t ≡ true → text_leb t u ≡ true → text_leb s u ≡ true
text_leb_trans [] t u h k = refl
text_leb_trans (a ∷ s) [] u h k = cc
text_leb_trans (a ∷ s) (b ∷ t) [] h k = cc
text_leb_trans (a ∷ s) (b ∷ t) (c ∷ u) h k = ground (arith, text_leb_trans s t u)

-- `strings.Contains` for one character, as a predicate.
abbrev pub Lacks : ℕ → Text → Type 0
Lacks c = All (λ x. x ≢ c)

-- `strings.Split(s, sep)` for a separator of one character: always at least one part.
cut : ℕ → Text → Text → List Text
cut sep cur [] = cur ∷ []
cut sep cur (c ∷ s) = elim (c == sep) [
  | true ↦ cur ∷ cut sep [] s
  | false ↦ cut sep (cur ++ c ∷ []) s
]

unfoldable pub split : Text → ℕ → List Text
unfolding cut
split s sep = cut sep [] s

-- `strings.Join`, to state what `split` undoes.
abbrev pub join : List Text → ℕ → Text
join [] sep = []
join (p ∷ []) sep = p
join (p ∷ q ∷ ps) sep = p ++ sep ∷ join (q ∷ ps) sep

cut-append :
    (sep : ℕ) (p cur rest : Text) → Lacks sep p → cut sep cur (p ++ rest) ≡ cut sep (cur ++ p) rest
unfolding cut
cut-append sep [] cur rest h = rw append-nil
cut-append sep (c ∷ p) cur rest h =
    ground (arith, cut-append sep p (cur ++ c ∷ []) rest, append_assoc cur (c ∷ []) p)

cut_end : (sep : ℕ) (p cur : Text) → Lacks sep p → cut sep cur p ≡ (cur ++ p) ∷ []
unfolding cut
cut_end sep [] cur h = rw append-nil
cut_end sep (c ∷ p) cur h =
    ground (arith, cut_end sep p (cur ++ c ∷ []), append_assoc cur (c ∷ []) p)

cut_sep : (sep : ℕ) (cur rest : Text) → cut sep cur (sep ∷ rest) ≡ cur ∷ cut sep [] rest
unfolding cut
cut_sep sep cur rest = ground arith

-- Splitting a join gives the parts back, if there is a part and none holds the separator.
pub split-join :
    (p : Text) (ps : List Text) (sep : ℕ)
    → All (Lacks sep) (p ∷ ps)
    → split (join (p ∷ ps) sep) sep ≡ p ∷ ps
unfolding split
split-join p [] sep h = cut_end sep p [] h.0
split-join p (q ∷ ps) sep h =
    rw (cut-append sep p [] (sep ∷ join (q ∷ ps) sep) h.0, cut_sep)
      (ap (◌∷◌ p) (split-join q ps sep h.1))

cut-Lacks : (sep : ℕ) (s cur : Text) → Lacks sep cur → All (Lacks sep) (cut sep cur s)
unfolding cut
cut-Lacks sep [] cur h = (h, tt)
cut-Lacks sep (c ∷ s) cur h = elim (Bool-cases (c == sep)) [
  | inl e ↦ rw (e, cut) (h, cut-Lacks sep s [] tt)
  | inr e ↦
      rw (e, cut)
        (cut-Lacks sep s (cur ++ c ∷ [])
          (All-append (λ x. x ≢ sep) cur (c ∷ []) h (ground arith, tt)))
]

cut-last :
    (sep : ℕ) (d cur n : Text) → Lacks sep n → cut sep cur (d ++ sep ∷ n) ≡ cut sep cur d ++ n ∷ []
unfolding cut
cut-last sep [] cur n h = rw (cut_sep sep cur n, cut_end sep n [] h) refl
cut-last sep (c ∷ d) cur n h = elim (Bool-cases (c == sep)) [
  | inl e ↦ rw (e, cut) (ap (◌∷◌ cur) (cut-last sep d [] n h))
  | inr e ↦ rw (e, cut) (cut-last sep d (cur ++ c ∷ []) n h)
]

-- A part behind the last separator.
pub split-last :
    (d n : Text) (sep : ℕ) → Lacks sep n → split (d ++ sep ∷ n) sep ≡ split d sep ++ n ∷ []
unfolding split
split-last d n sep h = cut-last sep d [] n h

pub split-whole : (n : Text) (sep : ℕ) → Lacks sep n → split n sep ≡ n ∷ []
unfolding split
split-whole n sep h = cut_end sep n [] h

-- No part of a split holds the separator.
pub split-Lacks : (s : Text) (sep : ℕ) → All (Lacks sep) (split s sep)
unfolding split
split-Lacks s sep = cut-Lacks sep s [] tt

-- In front of the first separator stands the first part.
pub split-sep : (s : Text) (sep : ℕ) → split (sep ∷ s) sep ≡ [] ∷ split s sep
unfolding split
split-sep s sep = cut_sep sep [] s

pub split-nil : (sep : ℕ) → split [] sep ≡ [] ∷ []
unfolding split cut
split-nil sep = refl
