-- ===== src/Sema/Casing.antt =====
-- src/gnr/sema/base.py: the casing of keys, on JSON values. `str.isalpha` asks a table of Unicode, which
-- is a parameter; `lower` and `capitalize` are for ASCII text.
use grid_node_registry.Prelude.{
  ℕ, ℤ, ◌+◌, ◌-◌, ◌≡◌, refl, arith, Bool, true, false, not, ◌&&◌, ◌||◌, List, [], ◌∷◌, ◌++◌, map,
  Text, text_eq, nat_eq, ◌==◌, leb, all, flat_map, Bool-cases, inl, inr, if◌then◌else◌,
}
use grid_node_registry.Text.{split}
use grid_node_registry.Sema.Regex.{Regex, empty, set, seq, alt, star, fullmatch}
use grid_node_registry.Sema.Format.{is_lower, is_digit}

-- `atom` is a float or a Boolean.
mutual
  pub data Json : Type 0 where
    text : Text → Json
    null : Json
    number : ℤ → Json
    atom : Json
    array : Items → Json
    object : Fields → Json

  pub data Items : Type 0 where
    nil : Items
    cons : Json → Items → Items

  pub data Fields : Type 0 where
    end : Fields
    field : Text → Json → Fields → Fields

abbrev pub is_upper : ℕ → Bool
is_upper c = leb b'A' c && leb c b'Z'

-- [a-zA-Z0-9]
abbrev pub is_ascii_word : ℕ → Bool
is_ascii_word c = is_lower c || is_upper c || is_digit c

-- `$` also stands before a line feed at the end.
unfoldable pub pascal_case_pattern : Regex
pascal_case_pattern =
    seq (set is_upper)
      (seq (star (set is_ascii_word)) (alt empty (set (λ c. leb 10 c && leb c 10))))

unfoldable pub is_pascal_case : Text → Bool
unfolding fullmatch pascal_case_pattern
is_pascal_case s = fullmatch pascal_case_pattern s

module _ (is_alpha : ℕ → Bool) where
  -- The key does not stop the recursion.
  unfoldable pub key_passes : Text → Bool
  unfolding is_pascal_case
  key_passes [] = true
  key_passes (c ∷ s) = not (is_alpha c) || is_pascal_case (c ∷ s)

  unfoldable mutual
    unfolding key_passes

    pub recursively_pascal : Json → Bool
    recursively_pascal (text s) = true
    recursively_pascal null = true
    recursively_pascal (number n) = true
    recursively_pascal atom = true
    recursively_pascal (array items) = items_pascal items
    recursively_pascal (object fields) = fields_pascal fields

    pub items_pascal : Items → Bool
    items_pascal nil = true
    items_pascal (cons item items) = recursively_pascal item && items_pascal items

    pub fields_pascal : Fields → Bool
    fields_pascal end = true
    fields_pascal (field key value fields) =
        key_passes key && recursively_pascal value && fields_pascal fields

-- ---- names of fields

unfoldable pub to_lower : ℕ → ℕ
to_lower c = if is_upper c then c + 32 else c

unfoldable pub to_upper : ℕ → ℕ
to_upper c = if is_lower c then c - 32 else c

-- An underscore before each capital that is not at the start.
unfoldable pub underscored : Text → Text
underscored [] = []
underscored (c ∷ s) = if is_upper c then b'_' ∷ c ∷ underscored s else c ∷ underscored s

unfoldable pub pascal_to_snake : Text → Text
unfolding underscored to_lower
pascal_to_snake [] = []
pascal_to_snake (c ∷ s) = map to_lower (c ∷ underscored s)

-- x.capitalize() or "_"
unfoldable pub capitalize_or_dash : Text → Text
unfolding to_upper
capitalize_or_dash [] = b'_' ∷ []
capitalize_or_dash (c ∷ s) = to_upper c ∷ map to_lower s

unfoldable pub snake_to_pascal : Text → Text
unfolding split capitalize_or_dash
snake_to_pascal word = flat_map capitalize_or_dash (split b'_' word)

field_name_there_and_back :
    pascal_to_snake (snake_to_pascal (b'g' ∷ b'_' ∷ b'n' ∷ b'o' ∷ []))
    ≡ b'g' ∷ b'_' ∷ b'n' ∷ b'o' ∷ []
unfolding snake_to_pascal pascal_to_snake
field_name_there_and_back = refl

-- ---- the round trip

dash_lower : to_lower b'_' ≡ b'_'
unfolding to_lower
dash_lower = refl

no_dash : (c : ℕ) → is_ascii_word c ≡ true → (to_lower c == b'_') ≡ false
unfolding to_lower to_upper
no_dash c h = ground arith

capital_again : (c : ℕ) → is_upper c ≡ true → to_upper (to_lower c) ≡ c
unfolding to_lower to_upper
capital_again c h = ground arith

stays_lower : (c : ℕ) → is_upper c ≡ false → to_lower (to_lower c) ≡ c
unfolding to_lower to_upper
stays_lower c h = ground arith

both : (a b : Bool) → (a && b) ≡ true → (a ≡ true) × (b ≡ true)
both a b h = (ground arith, ground arith)

-- The words of the snake-case form: the first as it is, the others with a capital, give the text.
abbrev Words : Text → Type 0
Words s =
    (w : Text) × (ws : List Text) × (split b'_' (map to_lower (underscored s)) ≡ w ∷ ws)
    × (map to_lower w ++ flat_map capitalize_or_dash ws ≡ s)

Words-cons :
    (c : ℕ) (s w : Text) (ws : List Text)
    → is_ascii_word c ≡ true
    → split b'_' (map to_lower (underscored s)) ≡ w ∷ ws
    → map to_lower w ++ flat_map capitalize_or_dash ws ≡ s
    → Words (c ∷ s)
unfolding underscored split capitalize_or_dash
Words-cons c s w ws a e f = elim (Bool-cases (is_upper c)) [
  | inl u ↦ (
    [],
    (to_lower c ∷ w) ∷ ws,
    rw (u, dash_lower, e, no_dash c a) refl,
    cc (capital_again c u, f),
  )
  | inr l ↦ (to_lower c ∷ w, ws, rw (l, e, no_dash c a) refl, cc (stays_lower c l, f))
]

words : (s : Text) → all is_ascii_word s ≡ true → Words s
unfolding underscored split capitalize_or_dash
words [] h = ([], [], refl, refl)
words (c ∷ s) h =
    let (a, k) = both (is_ascii_word c) (all is_ascii_word s) h in
    let (w, ws, e, f) = words s k in Words-cons c s w ws a e f

back :
    (c : ℕ) (s w : Text) (ws : List Text)
    → is_upper c ≡ true
    → split b'_' (map to_lower (underscored s)) ≡ w ∷ ws
    → map to_lower w ++ flat_map capitalize_or_dash ws ≡ s
    → snake_to_pascal (pascal_to_snake (c ∷ s)) ≡ c ∷ s
unfolding snake_to_pascal pascal_to_snake split capitalize_or_dash
back c s w ws u e f = rw (e, no_dash c (ground arith)) (cc (capital_again c u, f))

-- A name of letters and digits that begins with a capital is turned to snake case and back.
pub snake_to_pascal-pascal_to_snake :
    (c : ℕ) (s : Text)
    → is_upper c ≡ true
    → all is_ascii_word s ≡ true
    → snake_to_pascal (pascal_to_snake (c ∷ s)) ≡ c ∷ s
snake_to_pascal-pascal_to_snake c s u h = let (w, ws, e, f) = words s h in back c s w ws u e f
