-- ===== src/Sema/Fields.antt =====
-- The fields of a dict: how `model_dump(exclude_none=True, by_alias=True)` writes them and how pydantic's
-- `model_validate` reads them (`SemaType` of src/gnr/sema/base.py). A key is the alias of a field, the
-- Pascal case of its name; `none` is a ValidationError. The keys in snake case, which `populate_by_name`
-- would accept, were refused before (`recursively_pascal`).
use grid_node_registry.Prelude.{
  ℕ, ℤ, pos, Bool, true, false, ◌&&◌, Option, none, some, List, [], ◌∷◌, Text, codes, text_eq, ◌==◌,
  contains, ◌≡◌, refl,
}
use grid_node_registry.Sema.Casing.{
  Json, text, null, number, array, Items, nil, cons, Fields, end, field,
}
use grid_node_registry.Sema.Enums.{
  BaseGNodeClass, logical, GNodeStatus, pending, class_of_value, status_of_value,
}
use grid_node_registry.Sema.Codec.{get_field}

infixl 5 ◌>>=◌
abbrev pub ◌>>=◌ : {A B : Type 0} → Option A → (A → Option B) → Option B
none >>= f = none
some a >>= f = f a

-- ---- writing

-- exclude_none=True
abbrev pub with_optional : Text → Option Text → Fields → Fields
with_optional key none fields = fields
with_optional key (some value) fields = field key (text value) fields

-- The fields of SemaType come first.
abbrev pub with_head : (type_name version : Text) → Fields → Fields
with_head type_name version fields =
    field (codes "TypeName") (text type_name) (field (codes "Version") (text version) fields)

abbrev pub items_of : {A : Type 0} → (A → Json) → List A → Items
items_of f [] = nil
items_of f (a ∷ xs) = cons (f a) (items_of f xs)

-- ---- reading

abbrev pub read_list : {A : Type 0} → (Json → Option A) → Items → Option (List A)
read_list f nil = some []
read_list f (cons d items) = do a ← f d; rest ← read_list f items; some (a ∷ rest)

abbrev pub as_list : {A : Type 0} → (Json → Option A) → Json → Option (List A)
as_list f (array items) = read_list f items
as_list f _ = none

abbrev pub as_text : Json → Option Text
as_text (text s) = some s
as_text _ = none

-- StrictInt
abbrev pub as_int : Json → Option ℤ
as_int (number n) = some n
as_int _ = none

-- A negative number is before 2000. A value that is no integer raises a TypeError, which pydantic passes
-- on; it is `none` as well.
abbrev pub as_milliseconds : Json → Option ℕ
as_milliseconds (number (pos n)) = some n
as_milliseconds _ = none

-- `GwStrEnum._missing_` gives the default for any value that is no member.
unfoldable pub as_class : Json → Option BaseGNodeClass
unfolding class_of_value
as_class (text s) = some (class_of_value s)
as_class _ = some logical

unfoldable pub as_status : Json → Option GNodeStatus
unfolding status_of_value
as_status (text s) = some (status_of_value s)
as_status _ = some pending

-- A field without a default.
unfoldable pub get : {A : Type 0} → Text → (Json → Option A) → Fields → Option A
unfolding get_field
get key f fields = get_field key fields >>= f

-- str | None = None
abbrev pub as_optional : Option Json → Option (Option Text)
as_optional none = some none
as_optional (some null) = some none
as_optional (some (text s)) = some (some s)
as_optional (some _) = none

unfoldable pub get_optional : Text → Fields → Option (Option Text)
unfolding get_field
get_optional key fields = as_optional (get_field key fields)

-- Literal["…"] = "…"
abbrev is_literal : Text → Option Json → Bool
unfolding text_eq
is_literal value none = true
is_literal value (some (text s)) = s == value
is_literal value (some _) = false

-- extra="forbid"
unfoldable pub keys_among : List Text → Fields → Bool
unfolding text_eq
keys_among keys end = true
keys_among keys (field key value fields) = contains keys key && keys_among keys fields

-- The keys and the two constants of a type with these fields.
unfoldable pub has_shape : (type_name version : Text) → (keys : List Text) → Fields → Bool
unfolding text_eq get_field keys_among
has_shape type_name version keys fields =
    keys_among (codes "TypeName" ∷ codes "Version" ∷ keys) fields
    && is_literal type_name (get_field (codes "TypeName") fields)
    && is_literal version (get_field (codes "Version") fields)

abbrev pub require : Bool → Option (Unit {0})
require true = some tt
require false = none

-- ---- what was written is read

pub read_list-texts : (ss : List Text) → read_list as_text (items_of text ss) ≡ some ss
read_list-texts [] = refl
read_list-texts (s ∷ ss) = rw (read_list-texts ss) refl
