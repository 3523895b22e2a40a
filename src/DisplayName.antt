-- ===== src/DisplayName.antt =====
-- src/gnr/display_name.py: the default display name of a node, for ASCII text.
use grid_node_registry.Prelude.{
  ◌≡◌, refl, ◌∙◌, Bool, false, ◌||◌, Option, none, some, List, [], ◌∷◌, ◌++◌, Text, codes, text_eq,
  ◌==◌, if◌then◌else◌,
}
use grid_node_registry.Text.{dot, split}
use grid_node_registry.Text.Laws.{Lacks, split-joined, split-append, split_of_Lacks}
use grid_node_registry.Sema.Format.{is_lower}
use grid_node_registry.Sema.Casing.{is_upper, to_lower, to_upper}

-- s.title(), where `in_word` tells that a letter came before
unfoldable pub title_from : Bool → Text → Text
unfolding to_lower to_upper
title_from in_word [] = []
title_from in_word (c ∷ s) =
    (if in_word then to_lower c else to_upper c) ∷ title_from (is_lower c || is_upper c) s

abbrev pub title : Text → Text
title = title_from false

-- segments[-1], of a list that is not empty
unfoldable pub last_of : List Text → Text
last_of [] = []
last_of (x ∷ []) = x
last_of (x ∷ y ∷ xs) = last_of (y ∷ xs)

-- segments[-2] if len(segments) > 1 else segments[-1]
unfoldable pub house_of : List Text → Text
house_of [] = []
house_of (x ∷ []) = x
house_of (x ∷ y ∷ []) = x
house_of (x ∷ y ∷ z ∷ xs) = house_of (y ∷ z ∷ xs)

-- HOUSE_SUFFIXES.get(g_node_class)
unfoldable pub house_suffix : Text → Option Text
unfolding text_eq
house_suffix g_node_class =
    if g_node_class == codes "Scada"
    then some (codes "Scada")
    else (if g_node_class == codes "LeafTransactiveNode" then some (codes "LTN") else none)

abbrev with_suffix : Text → Option Text → Text
with_suffix name none = name
with_suffix name (some suffix) = name ++ b' ' ∷ suffix

unfoldable pub default_display_name : Text → Text → Text
unfolding text_eq split house_of last_of title_from house_suffix
default_display_name alias g_node_class =
    let segments = split dot alias in
    let house =
      if g_node_class == codes "TerminalAsset" || g_node_class == codes "Scada"
      then house_of segments
      else last_of segments in
    with_suffix (title house) (house_suffix g_node_class)

reads_as_the_house :
    default_display_name (codes "hw1.isone.me.versant.keene.beech.ta") (codes "TerminalAsset")
    ≡ codes "Beech"
unfolding default_display_name
reads_as_the_house = refl

appends_the_class :
    default_display_name (codes "hw1.isone.me.versant.keene.beech.scada") (codes "Scada")
    ≡ codes "Beech Scada"
unfolding default_display_name
appends_the_class = refl

-- ---- the nodes of a house

house_of-last_two : (xs : List Text) (a b : Text) → house_of (xs ++ a ∷ b ∷ []) ≡ a
unfolding house_of
house_of-last_two [] a b = refl
house_of-last_two (x ∷ []) a b = refl
house_of-last_two (x ∷ y ∷ []) a b = refl
house_of-last_two (x ∷ y ∷ z ∷ xs) a b = house_of-last_two (y ∷ z ∷ xs) a b

last_of-append : (xs : List Text) (a : Text) → last_of (xs ++ a ∷ []) ≡ a
unfolding last_of
last_of-append [] a = refl
last_of-append (x ∷ []) a = refl
last_of-append (x ∷ y ∷ xs) a = last_of-append (y ∷ xs) a

-- A house's asset is named as the house, its Scada as the house with `Scada`, and the node of the house
-- itself, of the LTN class, as the house with `LTN`, wherever the house lies.
pub default_display_name-house :
    (site house leaf : Text)
    → Lacks dot house
    → Lacks dot leaf
    → (default_display_name (site ++ dot ∷ (house ++ dot ∷ leaf)) (codes "TerminalAsset")
        ≡ title house)
      × (default_display_name (site ++ dot ∷ (house ++ dot ∷ leaf)) (codes "Scada")
          ≡ title house ++ codes " Scada")
      × (default_display_name (site ++ dot ∷ house) (codes "LeafTransactiveNode")
          ≡ title house ++ codes " LTN")
unfolding default_display_name
default_display_name-house site house leaf h k =
    let e : split dot (site ++ dot ∷ (house ++ dot ∷ leaf)) ≡ split dot site ++ house ∷ leaf ∷ [] =
      split-joined dot site (house ++ dot ∷ leaf)
      ∙ rw (split-append dot house leaf h, split_of_Lacks dot leaf k) refl in
    let f : split dot (site ++ dot ∷ house) ≡ split dot site ++ house ∷ [] =
      split-joined dot site house ∙ rw (split_of_Lacks dot house h) refl in
    (
      rw (e, house_of-last_two (split dot site) house leaf) refl,
      rw (e, house_of-last_two (split dot site) house leaf) refl,
      rw (f, last_of-append (split dot site) house) refl,
    )
