-- ===== src/Api/OpenApi.antt =====
-- `openapi_with_sema_links` of src/gnr/api.py. Of a schema it reads the defaults of `TypeName` and
-- `Version` and its description; the rest of the document, which FastAPI makes, stays as it is.
use grid_node_registry.Prelude.{
  ℕ, ◌≡◌, refl, sym, ap, Option, none, some, List, [], ◌∷◌, ◌++◌, map, append_assoc, Text, codes,
}

pub record Schema : Type 0 where
  pub type_name : Option Text
  pub version : Option Text
  pub description : Option Text

abbrev definition_url : (type_name version : Text) → Text
definition_url type_name version =
    codes "https://github.com/thegridelectric/sema/blob/dev/definitions/types/"
    ++ type_name
    ++ b'/' ∷ version
    ++ codes ".yaml"

unfoldable pub sema_note : (type_name version : Text) → Text
sema_note type_name version =
    codes "Sema word [`"
    ++ type_name
    ++ codes "` v"
    ++ version
    ++ codes "]("
    ++ definition_url type_name version
    ++ codes ")."

-- An empty description counts as none.
unfoldable pub described : Option Text → Text → Text
described none note = note
described (some []) note = note
described (some (c ∷ s)) note = (c ∷ s) ++ 10 ∷ 10 ∷ note

-- `if tn and ver`: an empty text is false.
unfoldable pub with_link : Schema → Schema
unfolding described sema_note
with_link comp = link comp.type_name comp.version
  where
    link : Option Text → Option Text → Schema
    link (some (c ∷ s)) (some (d ∷ v)) = record comp {
      description = some (described comp.description (sema_note (c ∷ s) (d ∷ v)));
    }
    link _ _ = comp

-- `app.openapi_schema`, and the schemas of the document that `get_openapi` makes.
unfoldable pub openapi_with_sema_links :
    List Schema → Option (List Schema) → List Schema × Option (List Schema)
unfolding with_link
openapi_with_sema_links fresh (some cached) = (cached, some cached)
openapi_with_sema_links fresh none = let document = map with_link fresh in (document, some document)

described_ends :
    (o : Option Text) (note : Text) → (before : Text) × (described o note ≡ before ++ note)
unfolding described
described_ends none note = ([], refl)
described_ends (some []) note = ([], refl)
described_ends (some (c ∷ s)) note =
    ((c ∷ s) ++ 10 ∷ 10 ∷ [], sym (append_assoc (c ∷ s) (10 ∷ 10 ∷ []) note))

-- The description of a schema with a type name and a version ends with the link to its definition.
pub with_link-note :
    (comp : Schema) (c d : ℕ) (s v : Text)
    → comp.type_name ≡ some (c ∷ s)
    → comp.version ≡ some (d ∷ v)
    → (before : Text) × ((with_link comp).description ≡ some (before ++ sema_note (c ∷ s) (d ∷ v)))
unfolding with_link
with_link-note comp c d s v e f =
    let (before, g) = described_ends comp.description (sema_note (c ∷ s) (d ∷ v)) in
    (before, rw (e, f) (ap some g))

-- A document is linked once: each later request gets the first one.
pub openapi_with_sema_links-cached :
    (fresh later : List Schema)
    → openapi_with_sema_links later (openapi_with_sema_links fresh none).1
      ≡ openapi_with_sema_links fresh none
unfolding openapi_with_sema_links
openapi_with_sema_links-cached fresh later = refl
