-- ===== src/FilePath/Join.antt =====
-- Joining one data path with different names.
use mathlib.Core.List.{append_cancel_left, reverse, reverse-append}
use nsg_parser.FilePath.{clean, elements, is_abs, join_path, or_dot, push_element, resolve}
use nsg_parser.Prelude.{
  ◌≡◌, refl, sym, ◌∙◌, ap, Bool, true, false, Bool-cases, inl, inr, List, [], ◌∷◌, ◌++◌,
  if◌then◌else◌, Text, Lacks, join, split, split-last, split-whole, append_assoc, ◌==◌, ℕ,
}

-- A name that `Clean` keeps as an element.
pub record IsElement (n : Text) : Type 0 where
  pub lacks_slash : Lacks b'/' n
  pub kept : (rooted : Bool) (stack : List Text) → push_element rooted n stack ≡ n ∷ stack
  pub shown : (t : Text) → or_dot (t ++ n) ≡ t ++ n
  pub relative : is_abs n ≡ false

pub or_dot-cons : (t n : Text) (c : ℕ) → or_dot (t ++ c ∷ n) ≡ t ++ c ∷ n
or_dot-cons [] n c = refl
or_dot-cons (d ∷ t) n c = refl

resolve-last :
    (rooted : Bool) (es : List Text) (n : Text) (stack : List Text)
    → resolve rooted (es ++ n ∷ []) stack ≡ push_element rooted n (resolve rooted es stack)
unfolding resolve
resolve-last rooted [] n stack = refl
resolve-last rooted (e ∷ es) n stack = resolve-last rooted es n (push_element rooted e stack)

-- What stands in front of the last element.
abbrev before_last : List Text → Text
before_last [] = []
before_last (e ∷ es) = e ++ b'/' ∷ before_last es

join-last : (es : List Text) (n : Text) → join (es ++ n ∷ []) b'/' ≡ before_last es ++ n
join-last [] n = refl
join-last (e ∷ []) n = sym (append_assoc e (b'/' ∷ []) n)
join-last (e ∷ f ∷ es) n =
    ap (λ t. e ++ b'/' ∷ t) (join-last (f ∷ es) n)
    ∙ sym (append_assoc e (b'/' ∷ before_last (f ∷ es)) n)

abbrev path_front : Text → Text
path_front [] = []
path_front (c ∷ d) =
    if c == b'/'
    then b'/' ∷ before_last (elements true (c ∷ d))
    else before_last (elements false (c ∷ d))

module _ (n : Text) (element : IsElement n) where
  elements-last :
      (rooted : Bool) (d : Text) → elements rooted (d ++ b'/' ∷ n) ≡ elements rooted d ++ n ∷ []
  elements-last rooted d =
      ap (λ es. reverse (resolve rooted es [])) (split-last d n b'/' element.lacks_slash)
      ∙ ap reverse (
          resolve-last rooted (split d b'/') n []
          ∙ element.kept rooted (resolve rooted (split d b'/') []))
      ∙ reverse-append (n ∷ []) (resolve rooted (split d b'/') [])

  elements-whole : elements false n ≡ n ∷ []
  unfolding resolve
  elements-whole =
      ap (λ es. reverse (resolve false es [])) (split-whole n b'/' element.lacks_slash)
      ∙ ap reverse (element.kept false [])

  clean-relative : clean n ≡ n
  unfolding clean
  clean-relative =
      rw element.relative (ap (λ es. or_dot (join es b'/')) elements-whole ∙ element.shown [])

  join_path-nil : (t : Text) → clean t ≡ t → join_path [] t ≡ t
  unfolding join_path
  join_path-nil [] h = refl
  join_path-nil (c ∷ t) h = h

  -- The path is a text of the data path, and then the name.
  join_path-front : (d : Text) → join_path d n ≡ path_front d ++ n
  unfolding join_path clean
  join_path-front [] = join_path-nil n clean-relative
  join_path-front (c ∷ d) = elim (Bool-cases (c == b'/')) [
    | inl e ↦ rw e (
        ap (λ es. b'/' ∷ join es b'/') (elements-last true (c ∷ d))
        ∙ ap (λ t. b'/' ∷ t) (join-last (elements true (c ∷ d)) n))
    | inr e ↦ rw e (
        ap (λ es. or_dot (join es b'/')) (elements-last false (c ∷ d))
        ∙ ap or_dot (join-last (elements false (c ∷ d)) n)
        ∙ element.shown (before_last (elements false (c ∷ d))))
  ]

-- Two names that are joined with one data path to one path are one name.
pub join_path_inj :
    (d a b : Text) → IsElement a → IsElement b → join_path d a ≡ join_path d b → a ≡ b
join_path_inj d a b ea eb h =
    append_cancel_left (path_front d) a b
      (sym (join_path-front a ea d) ∙ h ∙ join_path-front b eb d)
