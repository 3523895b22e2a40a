-- ===== src/Sema/Wire/Keys.antt =====
-- The keys of the dicts of src/gnr/sema/types pass the test of src/gnr/sema/base.py, whatever
-- `str.isalpha` is.
use grid_node_registry.Prelude.{
  ℕ, ◌≡◌, refl, Bool, true, false, Option, none, some, List, [], ◌∷◌, Text, ◌&&◌, arith,
}
use grid_node_registry.Sema.Casing.{
  Json, text, null, number, atom, array, object, Items, nil, cons, Fields, end, field, key_passes,
  recursively_pascal, items_pascal, fields_pascal,
}
use grid_node_registry.Sema.GNode.{GNodeGt}
use grid_node_registry.Sema.Messages.{ConnectivityEdgeGt}
use grid_node_registry.Sema.Fields.{items_of, with_optional}
use grid_node_registry.Sema.Wire.{
  Message, connectivity_edge_gt, g_node_cmd_ack, g_node_cmd_nack, g_node_create_cmd, g_node_forest,
  g_node_forest_request, g_node_gt, g_node_reparent_cmd, position_point_gt, node_fields,
  edge_fields, fields_of, to_dict,
}

both :
    (a b c d : Bool)
    → (a ≡ true → b ≡ true)
    → (c ≡ true → d ≡ true)
    → (a && c) ≡ true
    → (b && d) ≡ true
both true b true d f g h = rw (f refl, g refl) refl
both true b false d f g h = cc h
both false b c d f g h = cc h

abbrev any_letter : ℕ → Bool
any_letter c = true

-- Where every key is Pascal case, the test passes for every `isalpha`.
module _ (is_alpha : ℕ → Bool) where
  key_passes_always : (s : Text) → key_passes any_letter s ≡ true → key_passes is_alpha s ≡ true
  unfolding key_passes
  key_passes_always [] h = refl
  key_passes_always (c ∷ s) h = ground arith

  mutual
    unfolding recursively_pascal items_pascal fields_pascal

    passes_always :
        (d : Json) → recursively_pascal any_letter d ≡ true → recursively_pascal is_alpha d ≡ true
    passes_always (text s) h = refl
    passes_always null h = refl
    passes_always (number n) h = refl
    passes_always atom h = refl
    passes_always (array items) h = items_always items h
    passes_always (object fields) h = fields_always fields h

    items_always :
        (items : Items) → items_pascal any_letter items ≡ true → items_pascal is_alpha items ≡ true
    items_always nil h = refl
    items_always (cons d items) h = both _ _ _ _ (passes_always d) (items_always items) h

    fields_always :
        (fields : Fields)
        → fields_pascal any_letter fields ≡ true
        → fields_pascal is_alpha fields ≡ true
    fields_always end h = refl
    fields_always (field key d fields) h =
        both _ _ _ _ (both _ _ _ _ (key_passes_always key) (passes_always d)) (fields_always fields)
          h

texts_pascal : (ss : List Text) → items_pascal any_letter (items_of text ss) ≡ true
unfolding items_pascal
texts_pascal [] = refl
texts_pascal (s ∷ ss) = texts_pascal ss

optional_pascal :
    (key : Text) (value : Option Text) (fields : Fields)
    → key_passes any_letter key ≡ true
    → fields_pascal any_letter fields ≡ true
    → fields_pascal any_letter (with_optional key value fields) ≡ true
unfolding fields_pascal
optional_pascal key none fields k h = h
optional_pascal key (some value) fields k h = rw (k, h) refl

node_pascal : (n : GNodeGt) → fields_pascal any_letter (node_fields n) ≡ true
unfolding node_fields fields_pascal
node_pascal n =
    optional_pascal _ n.prev_alias _ refl
      (optional_pascal _ n.position_point_id _ refl (optional_pascal _ n.display_name _ refl refl))

and_true : (a b : Bool) → a ≡ true → b ≡ true → (a && b) ≡ true
and_true a b h k = rw (h, k) refl

nodes_pascal :
    (ns : List GNodeGt) → items_pascal any_letter (items_of (λ n. object (node_fields n)) ns) ≡ true
unfolding items_pascal
nodes_pascal [] = refl
nodes_pascal (n ∷ ns) = and_true _ _ (node_pascal n) (nodes_pascal ns)

edges_pascal :
    (es : List ConnectivityEdgeGt)
    → items_pascal any_letter (items_of (λ e. object (edge_fields e)) es) ≡ true
unfolding items_pascal edge_fields
edges_pascal [] = refl
edges_pascal (e ∷ es) = edges_pascal es

keys_pascal : (m : Message) → fields_pascal any_letter (fields_of m) ≡ true
unfolding fields_of fields_pascal
keys_pascal (connectivity_edge_gt e) = refl
keys_pascal (g_node_cmd_ack a) = refl
keys_pascal (g_node_cmd_nack a) = refl
keys_pascal (g_node_create_cmd cmd) =
    and_true _ _ (node_pascal cmd.new_node) (optional_pascal _ cmd.proof _ refl refl)
keys_pascal (g_node_forest f) = and_true _ _ (texts_pascal f.roots) (
    and_true _ _ (nodes_pascal f.nodes)
      (and_true _ _ (edges_pascal f.edges) (optional_pascal _ f.proof _ refl refl)))
keys_pascal (g_node_forest_request r) = rw (texts_pascal r.roots) refl
keys_pascal (g_node_gt n) = node_pascal n
keys_pascal (g_node_reparent_cmd cmd) = and_true _ _ (node_pascal cmd.new_node) (
    and_true _ _ (texts_pascal cmd.moved_child_g_node_ids)
      (optional_pascal _ cmd.proof _ refl refl))
keys_pascal (position_point_gt p) = refl

pub to_dict-pascal :
    (is_alpha : ℕ → Bool) (m : Message) → recursively_pascal is_alpha (to_dict m) ≡ true
unfolding to_dict recursively_pascal
to_dict-pascal is_alpha m = fields_always is_alpha (fields_of m) (keys_pascal m)
