-- ===== src/Json.antt =====
-- The values that `encoding/json` stores in an `interface{}`. A number is a float64, given by its
-- bits. A decoded object has each key once.
use nsg_parser.Prelude.{ℕ, Bool, List, [], ◌∷◌, if◌then◌else◌, Text, text_eq, ◌≡◌, refl}
use nsg_parser.Outcome.{Outcome, returned, panicked}

mutual
  pub data Json : Type 0 where
    null : Json
    boolean : Bool → Json
    number : ℕ → Json
    string : Text → Json
    array : Items → Json
    object : Fields → Json

  pub data Items : Type 0 where
    nil : Items
    cons : Json → Items → Items

  pub data Fields : Type 0 where
    end : Fields
    field : Text → Json → Fields → Fields

-- `m[k]` on a `map[string]interface{}`: a missing key gives the nil interface.
abbrev pub get : Text → Fields → Json
get k end = null
get k (field j v m) = if text_eq j k then v else get k m

abbrev pub elements : Items → List Json
elements nil = []
elements (cons v vs) = v ∷ elements vs

abbrev pub items : List Json → Items
items [] = nil
items (v ∷ vs) = cons v (items vs)

-- `v.(string)`, `v.([]interface{})` and `v.(map[string]interface{})` panic on another type.
abbrev pub as_string : Json → Outcome Text
as_string (string s) = returned s
as_string _ = panicked

abbrev pub as_array : Json → Outcome (List Json)
as_array (array vs) = returned (elements vs)
as_array _ = panicked

abbrev pub as_object : Json → Outcome Fields
as_object (object m) = returned m
as_object _ = panicked

pub elements-items : (vs : List Json) → elements (items vs) ≡ vs
elements-items [] = refl
elements-items (v ∷ vs) = rw (elements-items vs)
