-- ===== src/FilePath.antt =====
-- path/filepath of Go's standard library on Unix: `IsAbs`, `Clean`, `Join` of two elements, and `Abs`
-- in a working directory, which cmd/root.go uses.
pub mod Clean
pub mod Join
use mathlib.Core.List.{reverse}
use nsg_parser.Prelude.{
  ◌++◌, Bool, true, false, ◌||◌, ◌==◌, if◌then◌else◌, Option, none, some, List, [], ◌∷◌, Text,
  codes, text_eq, split, join,
}

abbrev pub slash : Text
slash = codes "/"

abbrev pub is_abs : Text → Bool
is_abs [] = false
is_abs (c ∷ p) = c == b'/'

-- An element `..` takes the last element away; in front of a path without a root it stays.
abbrev pub pop_element : Bool → List Text → List Text
pop_element true [] = []
pop_element false [] = codes ".." ∷ []
pop_element rooted (top ∷ stack) =
    if text_eq top (codes "..") then codes ".." ∷ top ∷ stack else stack

abbrev pub push_element : Bool → Text → List Text → List Text
push_element rooted e stack =
    if text_eq e [] || text_eq e (codes ".")
    then stack
    else if text_eq e (codes "..")
    then pop_element rooted stack
    else e ∷ stack

-- The elements that are left, the last one first.
unfoldable pub resolve : Bool → List Text → List Text → List Text
resolve rooted [] stack = stack
resolve rooted (e ∷ es) stack = resolve rooted es (push_element rooted e stack)

abbrev pub elements : Bool → Text → List Text
elements rooted p = reverse (resolve rooted (split p b'/') [])

abbrev pub or_dot : Text → Text
or_dot [] = codes "."
or_dot (c ∷ p) = c ∷ p

unfoldable pub clean : Text → Text
unfolding resolve
clean p =
    if is_abs p then b'/' ∷ join (elements true p) b'/' else or_dot (join (elements false p) b'/')

-- `filepath.Join` leaves empty elements out.
unfoldable pub join_path : Text → Text → Text
unfolding clean
join_path [] [] = []
join_path [] (c ∷ name) = clean (c ∷ name)
join_path (d ∷ folder) name = clean ((d ∷ folder) ++ (b'/' ∷ name))

-- `filepath.Abs`, where the working directory is `none` if `os.Getwd` fails.
unfoldable pub abs : Option Text → Text → Option Text
unfolding join_path
abs here p =
    if is_abs p
    then some (clean p)
    else elim here [ none ↦ none | some folder ↦ some (join_path folder p) ]
