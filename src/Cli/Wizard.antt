-- ===== src/Cli/Wizard.antt =====
-- `_create_wizard` of src/gnr/cli.py, on the lines that the operator types. `str.strip` and `str.isdigit`
-- are for ASCII text.
use grid_node_registry.Prelude.{
  ℕ, zero, suc, ◌≡◌, refl, Bool, true, false, ◌&&◌, ◌||◌, Option, none, some, List, [], ◌∷◌, ◌++◌,
  map, Text, codes, nat_eq, ◌==◌, leb, if◌then◌else◌,
}
use mathlib.Core.List.{reverse}
use grid_node_registry.Text.{starts_with}
use grid_node_registry.Sema.Enums.{class_value}
use grid_node_registry.DisplayName.{default_display_name}
use grid_node_registry.Rebuild.{is_digits, int_of}
use grid_node_registry.Cli.{answer_or, CreateArgs, physical}

-- ASCII white space
abbrev is_space : ℕ → Bool
unfolding nat_eq
is_space c = c == 32 || (leb 9 c && leb c 13) || (leb 28 c && leb c 31)

unfoldable pub strip_left : Text → Text
unfolding nat_eq
strip_left [] = []
strip_left (c ∷ s) = if is_space c then strip_left s else c ∷ s

unfoldable pub strip : Text → Text
unfolding strip_left
strip s = reverse (strip_left (reverse (strip_left s)))

-- _KNOWN_LOGICAL
abbrev pub known_logical : List Text
known_logical =
    codes "Scada"
    ∷ codes "TimeCoordinator"
    ∷ codes "WeatherForecastService"
    ∷ codes "PriceForecastService"
    ∷ codes "Flo"
    ∷ []

abbrev pub options : List Text
options = map class_value physical ++ known_logical ++ codes "other Logical (type it)" ∷ []

-- options[n - 1], where 1 <= n <= len(options)
unfoldable pub option_at : ℕ → List Text → Option Text
option_at zero xs = none
option_at (suc n) [] = none
option_at (suc zero) (x ∷ xs) = some x
option_at (suc (suc n)) (x ∷ xs) = option_at (suc n) xs

-- What one line picks.
unfoldable pub pick : Text → Option Text
unfolding option_at strip
pick line = if is_digits (strip line) then option_at (int_of (strip line)) options else none

-- The loop of the menu; `none` where the input ends.
unfoldable pub choose : List Text → Option (Text × List Text)
unfolding pick
choose [] = none
choose (line ∷ lines) = elim (pick line) [ none ↦ choose lines | some class ↦ some (class, lines) ]

-- input(…).strip(), and the lines that are left
unfoldable pub ask : List Text → Option (Text × List Text)
unfolding strip
ask [] = none
ask (line ∷ lines) = some (strip line, lines)

abbrev pub then_ask :
    {A : Type 0} → Option (Text × List Text) → (Text → List Text → Option A) → Option A
then_ask none k = none
then_ask (some (answer, lines)) k = k answer lines

-- The class is typed where the last option was chosen.
unfoldable pub ask_class : Text → List Text → Option (Text × List Text)
ask_class picked lines =
    if starts_with picked (codes "other") then ask lines else some (picked, lines)

abbrev pub answer_or_none : Text → Option Text
answer_or_none [] = none
answer_or_none (c ∷ s) = some (c ∷ s)

-- The answers replace whatever the command line gave.
unfoldable pub create_wizard : List Text → Option CreateArgs
unfolding choose ask ask_class
create_wizard lines = then_ask (choose lines) λ picked rest.
    then_ask (ask_class picked rest) λ g_node_class rest. then_ask (ask rest) λ alias rest.
      then_ask (ask rest) λ display_name rest. then_ask (ask rest) λ g_node_id rest. some (record {
        alias = alias;
        g_node_class = g_node_class;
        g_node_id = answer_or_none g_node_id;
        display_name = some (answer_or display_name (default_display_name alias g_node_class));
      })

abbrev is_empty : Text → Bool
is_empty [] = true
is_empty (c ∷ s) = false

-- The arguments that `_run_create` goes on with.
unfoldable pub create_args : CreateArgs → List Text → Option CreateArgs
unfolding create_wizard
create_args args lines =
    if is_empty args.alias || is_empty args.g_node_class then create_wizard lines else some args

a_scada :
    create_wizard (codes "0" ∷ codes " 5 " ∷ codes "d1.isone.beech.scada" ∷ [] ∷ [] ∷ [])
    ≡ some (record {
      alias = codes "d1.isone.beech.scada";
      g_node_class = codes "Scada";
      g_node_id = none;
      display_name = some (default_display_name (codes "d1.isone.beech.scada") (codes "Scada"));
    })
unfolding create_wizard is_digits int_of physical starts_with
a_scada = refl
