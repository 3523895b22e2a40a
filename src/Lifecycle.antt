-- ===== src/Lifecycle.antt =====
-- src/gnr/db/lifecycle.py: which changes of a status and of a base class are legal. A check that
-- raises returns the exception with the two values and the moves that are allowed.
pub mod Reachability
use grid_node_registry.Prelude.{
  Bool, true, false, Option, none, some, List, [], ◌∷◌, ◌==◌, contains, if◌then◌else◌,
}
use grid_node_registry.Sema.Enums.{
  BaseGNodeClass, GNodeStatus, pending, active, suspended, permanently_deactivated,
  connectivity_node, market_maker, class_eq, status_eq,
}

unfoldable pub allowed_status_transitions : GNodeStatus → List GNodeStatus
allowed_status_transitions pending = active ∷ []
allowed_status_transitions active = suspended ∷ permanently_deactivated ∷ []
allowed_status_transitions suspended = active ∷ permanently_deactivated ∷ []
allowed_status_transitions permanently_deactivated = []

-- `.get(old, frozenset())`
unfoldable pub allowed_base_class_transitions : BaseGNodeClass → List BaseGNodeClass
allowed_base_class_transitions connectivity_node = market_maker ∷ []
allowed_base_class_transitions market_maker = connectivity_node ∷ []
allowed_base_class_transitions _ = []

pub data IllegalTransition (A : Type 0) : Type 0 where
  illegal : A → A → List A → IllegalTransition A

unfoldable pub check_status_transition :
    GNodeStatus → GNodeStatus → Option (IllegalTransition GNodeStatus)
unfolding allowed_status_transitions status_eq
check_status_transition old new =
    if new == old
    then none
    else if contains (allowed_status_transitions old) new
    then none
    else some (illegal old new (allowed_status_transitions old))

unfoldable pub check_base_class_transition :
    BaseGNodeClass → BaseGNodeClass → Option (IllegalTransition BaseGNodeClass)
unfolding allowed_base_class_transitions class_eq
check_base_class_transition old new =
    if new == old
    then none
    else if contains (allowed_base_class_transitions old) new
    then none
    else some (illegal old new (allowed_base_class_transitions old))
