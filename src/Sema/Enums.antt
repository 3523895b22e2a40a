-- ===== src/Sema/Enums.antt =====
-- src/gnr/sema/enums: `BaseGNodeClass` and `GNodeStatus`. A member's value is its name
-- (`GwStrEnum._generate_next_value_`).
use grid_node_registry.Prelude.{
  ◌≡◌, refl, Option, none, some, List, [], ◌∷◌, map, find?, Text, codes, text_eq, ◌==◌, Eq,
}

pub data BaseGNodeClass : Type 0 where
  terminal_asset leaf_transactive_node connectivity_node market_maker logical : BaseGNodeClass

pub data GNodeStatus : Type 0 where
  pending active suspended permanently_deactivated : GNodeStatus

class_dec : Discrete BaseGNodeClass
class_dec = hlevel

status_dec : Discrete GNodeStatus
status_dec = hlevel

instance unfoldable pub class_eq : Eq BaseGNodeClass
unfolding class_dec
class_eq = record { dec = class_dec }

instance unfoldable pub status_eq : Eq GNodeStatus
unfolding status_dec
status_eq = record { dec = status_dec }

unfoldable pub class_value : BaseGNodeClass → Text
class_value terminal_asset = codes "TerminalAsset"
class_value leaf_transactive_node = codes "LeafTransactiveNode"
class_value connectivity_node = codes "ConnectivityNode"
class_value market_maker = codes "MarketMaker"
class_value logical = codes "Logical"

-- The members in the order of their declaration.
abbrev pub classes : List BaseGNodeClass
classes = terminal_asset ∷ leaf_transactive_node ∷ connectivity_node ∷ market_maker ∷ logical ∷ []

-- BaseGNodeClass.values()
unfoldable pub class_values : List Text
unfolding class_value
class_values = map class_value classes

unfoldable pub status_value : GNodeStatus → Text
status_value pending = codes "Pending"
status_value active = codes "Active"
status_value suspended = codes "Suspended"
status_value permanently_deactivated = codes "PermanentlyDeactivated"

abbrev pub statuses : List GNodeStatus
statuses = pending ∷ active ∷ suspended ∷ permanently_deactivated ∷ []

abbrev or_default : {A : Type 0} → A → Option A → A
or_default default none = default
or_default default (some a) = a

-- BaseGNodeClass(value): `GwStrEnum._missing_` gives the default for a text that is no value.
unfoldable pub class_of_value : Text → BaseGNodeClass
unfolding text_eq class_value
class_of_value value = or_default logical (find? (λ c. class_value c == value) classes)

unfoldable pub status_of_value : Text → GNodeStatus
unfolding text_eq status_value
status_of_value value = or_default pending (find? (λ s. status_value s == value) statuses)

-- The value of a member stands for the member.
pub class_of_value-class_value : (c : BaseGNodeClass) → class_of_value (class_value c) ≡ c
unfolding class_of_value
class_of_value-class_value terminal_asset = refl
class_of_value-class_value leaf_transactive_node = refl
class_of_value-class_value connectivity_node = refl
class_of_value-class_value market_maker = refl
class_of_value-class_value logical = refl

pub status_of_value-status_value : (s : GNodeStatus) → status_of_value (status_value s) ≡ s
unfolding status_of_value
status_of_value-status_value pending = refl
status_of_value-status_value active = refl
status_of_value-status_value suspended = refl
status_of_value-status_value permanently_deactivated = refl
