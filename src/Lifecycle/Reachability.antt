-- ===== src/Lifecycle/Reachability.antt =====
-- The life of a node: the histories that the two state machines accept.
use grid_node_registry.Prelude.{◌≡◌, ◌≢◌, ◌↔◌, refl, subst, ◌⊎◌, inl, inr, none, arith}
use grid_node_registry.Sema.Enums.{
  BaseGNodeClass, GNodeStatus, pending, active, suspended, permanently_deactivated,
  connectivity_node, market_maker, terminal_asset,
}
use grid_node_registry.Lifecycle.{check_status_transition, check_base_class_transition}

-- A sequence of accepted status changes.
pub data History (s : GNodeStatus) : GNodeStatus → Type 0 where
  start : History s s
  change : {t u : GNodeStatus} → History s t → check_status_transition t u ≡ none → History s u

-- The moves between different statuses.
pub data Move : GNodeStatus → GNodeStatus → Type 0 where
  activate : Move pending active
  suspend : Move active suspended
  resume : Move suspended active
  retire_active : Move active permanently_deactivated
  retire_suspended : Move suspended permanently_deactivated

sound : (s t : GNodeStatus) → check_status_transition s t ≡ none → (s ≡ t) ⊎ Move s t
unfolding check_status_transition
sound pending pending h = inl refl
sound pending active h = inr activate
sound active active h = inl refl
sound active suspended h = inr suspend
sound active permanently_deactivated h = inr retire_active
sound suspended suspended h = inl refl
sound suspended active h = inr resume
sound suspended permanently_deactivated h = inr retire_suspended
sound permanently_deactivated permanently_deactivated h = inl refl
sound _ _ h = cc

complete : (s t : GNodeStatus) → (s ≡ t) ⊎ Move s t → check_status_transition s t ≡ none
unfolding check_status_transition
complete s t (inl e) = ground arith
complete s t (inr activate) = refl
complete s t (inr suspend) = refl
complete s t (inr resume) = refl
complete s t (inr retire_active) = refl
complete s t (inr retire_suspended) = refl

-- The check accepts exactly the five moves, and staying as it is.
pub check_status_transition_iff :
    (s t : GNodeStatus) → (check_status_transition s t ≡ none) ↔ ((s ≡ t) ⊎ Move s t)
check_status_transition_iff s t = (sound s t, complete s t)

step_facts :
    (s t : GNodeStatus)
    → check_status_transition s t ≡ none
    → (s ≡ t) ⊎ ((s ≢ permanently_deactivated) × (t ≢ pending))
unfolding check_status_transition
step_facts pending t h = ground arith
step_facts s t h = ground arith

History-facts :
    {s t : GNodeStatus} → History s t → (s ≡ t) ⊎ ((s ≢ permanently_deactivated) × (t ≢ pending))
History-facts start = inl refl
History-facts {s} (change {t} {u} h ok) =
    let p = History-facts h in let q = step_facts t u ok in ground arith

to_active : (s : GNodeStatus) → s ≢ permanently_deactivated → History s active
unfolding check_status_transition
to_active pending h = change start refl
to_active active h = start
to_active suspended h = change start refl
to_active permanently_deactivated h = absurd (h refl)

from_active : (s t : GNodeStatus) → History s active → t ≢ pending → History s t
unfolding check_status_transition
from_active s pending a h = absurd (h refl)
from_active s active a h = a
from_active s suspended a h = change a refl
from_active s permanently_deactivated a h = change a refl

reach :
    (s t : GNodeStatus) → (s ≡ t) ⊎ ((s ≢ permanently_deactivated) × (t ≢ pending)) → History s t
reach s t (inl e) = subst (History s) e start
reach s t (inr (p, q)) = from_active s t (to_active s p) q

abbrev pub IsCopper : BaseGNodeClass → Type 0
IsCopper c = (c ≡ connectivity_node) ⊎ (c ≡ market_maker)

base_sound :
    (s t : BaseGNodeClass)
    → check_base_class_transition s t ≡ none
    → (s ≡ t) ⊎ (IsCopper s × IsCopper t)
unfolding check_base_class_transition
base_sound terminal_asset t h = ground arith
base_sound s t h = ground arith

base_complete :
    (s t : BaseGNodeClass)
    → (s ≡ t) ⊎ (IsCopper s × IsCopper t)
    → check_base_class_transition s t ≡ none
unfolding check_base_class_transition
base_complete terminal_asset t h = ground arith
base_complete s t h = ground arith

-- A history of accepted changes leads from `s` to another status `t` exactly when `s` is not
-- PermanentlyDeactivated and `t` is not Pending: deactivation is final, and a node that has left
-- Pending never returns to it.
pub History-iff :
    (s t : GNodeStatus) → History s t ↔ ((s ≡ t) ⊎ ((s ≢ permanently_deactivated) × (t ≢ pending)))
History-iff s t = (λ h. History-facts h, reach s t)

-- A base class may stay as it is, or change from one copper class to the other, and nothing else.
pub check_base_class_transition_iff :
    (s t : BaseGNodeClass)
    → (check_base_class_transition s t ≡ none) ↔ ((s ≡ t) ⊎ (IsCopper s × IsCopper t))
check_base_class_transition_iff s t = (base_sound s t, base_complete s t)
