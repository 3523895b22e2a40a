-- ===== src/Api.antt =====
-- src/gnr/api.py: the three read routes of the HTTP façade. FastAPI, which decodes a request and
-- validates its parameters and its body by their types, is not modelled: a route takes the decoded
-- values, and answers 422 where one of them has not its format and 500 where an exception escapes.
pub mod Answers
pub mod OpenApi
use grid_node_registry.Prelude.{Bool, Option, none, some, Text, ◌&&◌, all, if◌then◌else◌}
use grid_node_registry.Sema.Format.{is_left_right_dot, is_uuid4_str}
use grid_node_registry.Sema.GNode.{GNodeGt}
use grid_node_registry.Sema.Messages.{GNodeForest, GNodeForestRequest, is_request}
use grid_node_registry.Registry.Models.{Tables}
use grid_node_registry.Registry.Session.{Result, ok, err, Error}
use grid_node_registry.Authority.{World, get_forest, get_by_id, resolve_alias}

pub data Response (A : Type 0) : Type 0 where
  success : A → Response A
  unprocessable : Response A
  not_found : (asked : Text) → Response A
  server_error : Error → Response A

-- if gt is None: raise HTTPException(status_code=404, …)
unfoldable pub found_or_404 : {A : Type 0} → Text → Result (Option A) → Response A
found_or_404 asked (ok (some a)) = success a
found_or_404 asked (ok none) = not_found asked
found_or_404 asked (err e) = server_error e

abbrev returned : {A : Type 0} → Result A → Response A
returned (ok a) = success a
returned (err e) = server_error e

unfoldable pub g_node_by_id : Text → Tables → Response GNodeGt
unfolding found_or_404
g_node_by_id g_node_id t =
    if is_uuid4_str g_node_id
    then found_or_404 g_node_id (get_by_id g_node_id t).0
    else unprocessable

unfoldable pub g_node_by_alias : Text → Tables → Response GNodeGt
unfolding found_or_404
g_node_by_alias alias t =
    if is_left_right_dot alias then found_or_404 alias (resolve_alias alias t).0 else unprocessable

unfoldable pub g_node_forest_request : World → GNodeForestRequest → Tables → Response GNodeForest
unfolding is_request
g_node_forest_request w request t =
    if is_request request then returned (get_forest w request.roots t).0 else unprocessable
