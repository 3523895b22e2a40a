-- ===== src/Sema/Wire/Laws.antt =====
-- The dicts of src/gnr/sema/types read back: `model_validate` of what `to_dict` gives.
use grid_node_registry.Prelude.{◌≡◌, refl, true, Option, none, some, List, [], ◌∷◌, Text, All}
use grid_node_registry.Sema.Casing.{object}
use grid_node_registry.Sema.Enums.{
  class_value, class_of_value, status_value, status_of_value, class_of_value-class_value,
  status_of_value-status_value,
}
use grid_node_registry.Sema.GNode.{GNodeGt, validate}
use grid_node_registry.Sema.Messages.{
  ConnectivityEdgeGt, GNodeCreateCmd, GNodeReparentCmd, GNodeForest, GNodeForestRequest,
  GNodeCmdAck, GNodeCmdNack, validate_edge, validate_create, validate_reparent, validate_forest,
  is_request,
}
use grid_node_registry.Sema.PositionPoint.{PositionPointGt, validate_point}
use grid_node_registry.Sema.Fields.{items_of, read_list, read_list-texts}
use grid_node_registry.Sema.Wire.{
  node_fields, edge_fields, create_fields, reparent_fields, forest_fields, request_fields,
  point_fields, ack_fields, nack_fields,
}
use grid_node_registry.Sema.Wire.Parse.{
  accept, as_dict, node_of, edge_of, create_of, reparent_of, forest_of, request_of, point_of,
  ack_of, nack_of,
}

-- ---- a node

-- The values of the enums come back, and the node is valid.
read_back :
    (n : GNodeGt)
    → validate n ≡ none
    → let m : GNodeGt = record n {
      base_class = class_of_value (class_value n.base_class);
      status = status_of_value (status_value n.status);
    } in
      accept m (validate m) ≡ some n
read_back n valid =
    rw (class_of_value-class_value n.base_class, status_of_value-status_value n.status, valid) refl

node_back :
    (n : GNodeGt) (prev point name : Option Text)
    → let m : GNodeGt = record n {
      prev_alias = prev;
      position_point_id = point;
      display_name = name;
    } in
      validate m ≡ none → node_of (node_fields m) ≡ some m
unfolding node_of node_fields
node_back n none none none v = read_back _ v
node_back n none none (some name) v = read_back _ v
node_back n none (some point) none v = read_back _ v
node_back n none (some point) (some name) v = read_back _ v
node_back n (some prev) none none v = read_back _ v
node_back n (some prev) none (some name) v = read_back _ v
node_back n (some prev) (some point) none v = read_back _ v
node_back n (some prev) (some point) (some name) v = read_back _ v

pub node_of-node_fields : (n : GNodeGt) → validate n ≡ none → node_of (node_fields n) ≡ some n
node_of-node_fields n valid = node_back n n.prev_alias n.position_point_id n.display_name valid

-- ---- an edge and a point

pub edge_of-edge_fields :
    (e : ConnectivityEdgeGt) → validate_edge e ≡ none → edge_of (edge_fields e) ≡ some e
unfolding edge_of edge_fields
edge_of-edge_fields e valid = rw (status_of_value-status_value e.status, valid) refl

pub point_of-point_fields :
    (p : PositionPointGt) → validate_point p ≡ none → point_of (point_fields p) ≡ some p
unfolding point_of point_fields
point_of-point_fields p valid = rw valid refl

-- ---- the commands

create_back :
    (n : GNodeGt) (proof : Option Text)
    → let cmd : GNodeCreateCmd = record { new_node = n; proof = proof } in
      validate n ≡ none → validate_create cmd ≡ none → create_of (create_fields cmd) ≡ some cmd
unfolding create_of create_fields
create_back n none v c = rw (node_of-node_fields n v, c) refl
create_back n (some proof) v c = rw (node_of-node_fields n v, c) refl

pub create_of-create_fields :
    (cmd : GNodeCreateCmd)
    → validate cmd.new_node ≡ none
    → validate_create cmd ≡ none
    → create_of (create_fields cmd) ≡ some cmd
create_of-create_fields cmd v c = create_back cmd.new_node cmd.proof v c

reparent_back :
    (n : GNodeGt) (ids : List Text) (proof : Option Text)
    → let cmd : GNodeReparentCmd = record {
      new_node = n;
      moved_child_g_node_ids = ids;
      proof = proof;
    } in
      validate n ≡ none
      → validate_reparent cmd ≡ none
      → reparent_of (reparent_fields cmd) ≡ some cmd
unfolding reparent_of reparent_fields
reparent_back n ids none v c = rw (node_of-node_fields n v, read_list-texts ids, c) refl
reparent_back n ids (some proof) v c = rw (node_of-node_fields n v, read_list-texts ids, c) refl

pub reparent_of-reparent_fields :
    (cmd : GNodeReparentCmd)
    → validate cmd.new_node ≡ none
    → validate_reparent cmd ≡ none
    → reparent_of (reparent_fields cmd) ≡ some cmd
reparent_of-reparent_fields cmd v c =
    reparent_back cmd.new_node cmd.moved_child_g_node_ids cmd.proof v c

-- ---- a forest

abbrev pub AllValid : GNodeForest → Type 0
AllValid f = All (λ n. validate n ≡ none) f.nodes × All (λ e. validate_edge e ≡ none) f.edges

nodes_read :
    (ns : List GNodeGt)
    → All (λ n. validate n ≡ none) ns
    → read_list (as_dict node_of) (items_of (λ n. object (node_fields n)) ns) ≡ some ns
nodes_read [] h = refl
nodes_read (n ∷ ns) (v, h) = rw (node_of-node_fields n v, nodes_read ns h) refl

edges_read :
    (es : List ConnectivityEdgeGt)
    → All (λ e. validate_edge e ≡ none) es
    → read_list (as_dict edge_of) (items_of (λ e. object (edge_fields e)) es) ≡ some es
edges_read [] h = refl
edges_read (e ∷ es) (v, h) = rw (edge_of-edge_fields e v, edges_read es h) refl

forest_back :
    (f : GNodeForest) (proof : Option Text)
    → let g : GNodeForest = record f { proof = proof } in
      AllValid f → validate_forest g ≡ none → forest_of (forest_fields g) ≡ some g
unfolding forest_of forest_fields
forest_back f none (ns, es) v =
    rw (read_list-texts f.roots, nodes_read f.nodes ns, edges_read f.edges es, v) refl
forest_back f (some proof) (ns, es) v =
    rw (read_list-texts f.roots, nodes_read f.nodes ns, edges_read f.edges es, v) refl

pub forest_of-forest_fields :
    (f : GNodeForest) → AllValid f → validate_forest f ≡ none → forest_of (forest_fields f) ≡ some f
forest_of-forest_fields f h v = forest_back f f.proof h v

pub request_of-request_fields :
    (r : GNodeForestRequest) → is_request r ≡ true → request_of (request_fields r) ≡ some r
unfolding request_of request_fields
request_of-request_fields r v = rw (read_list-texts r.roots, v) refl

pub ack_of-ack_fields : (a : GNodeCmdAck) → ack_of (ack_fields a) ≡ some a
unfolding ack_of ack_fields
ack_of-ack_fields a = refl

pub nack_of-nack_fields : (a : GNodeCmdNack) → nack_of (nack_fields a) ≡ some a
unfolding nack_of nack_fields
nack_of-nack_fields a = refl
