-- ===== src/Sema/Format.antt =====
-- src/gnr/sema/property_format.py: the formats of aliases, ids and times. A `ValueError` is `false`.
use grid_node_registry.Prelude.{
  ℕ, zero, suc, ◌*◌, ◌≡◌, ◌≢◌, refl, Bool, true, false, ◌&&◌, ◌||◌, [], ◌∷◌, arith, Text, codes,
  All, leb, nat_eq,
}
use grid_node_registry.Sema.Regex.{
  Regex, empty, set, seq, star, fullmatch, Within, fullmatch-Within,
}
use grid_node_registry.Text.{dot}
use grid_node_registry.Text.Like.{IsPlain}

-- [a-z]
abbrev pub is_lower : ℕ → Bool
is_lower c = leb b'a' c && leb c b'z'

abbrev pub is_digit : ℕ → Bool
is_digit c = leb b'0' c && leb c b'9'

-- [a-z0-9]
abbrev pub is_word : ℕ → Bool
is_word c = is_lower c || is_digit c

abbrev is_dot : ℕ → Bool
is_dot c = leb dot c && leb c dot

-- ^[a-z][a-z0-9]*(\.[a-z0-9]+)*$
unfoldable pub left_right_dot_pattern : Regex
left_right_dot_pattern =
    seq (set is_lower)
      (seq (star (set is_word)) (star (seq (set is_dot) (seq (set is_word) (star (set is_word))))))

unfoldable pub is_left_right_dot : Text → Bool
unfolding fullmatch left_right_dot_pattern
is_left_right_dot v = fullmatch left_right_dot_pattern v

-- [0-9a-f]
abbrev pub is_hex : ℕ → Bool
is_hex c = is_digit c || (leb b'a' c && leb c b'f')

abbrev is_char : ℕ → ℕ → Bool
is_char d c = leb d c && leb c d

-- [89ab]
abbrev pub is_variant : ℕ → Bool
is_variant c = (leb b'8' c && leb c b'9') || (leb b'a' c && leb c b'b')

-- [0-9a-f]{n} before the rest
abbrev pub hex_digits : ℕ → Regex → Regex
hex_digits zero r = r
hex_digits (suc n) r = seq (set is_hex) (hex_digits n r)

abbrev dash : Regex → Regex
dash r = seq (set (is_char b'-')) r

-- ^[0-9a-f]{8}-[0-9a-f]{4}-4[0-9a-f]{3}-[89ab][0-9a-f]{3}-[0-9a-f]{12}$
unfoldable pub uuid4_str_pattern : Regex
uuid4_str_pattern = hex_digits 8 (
    dash (
      hex_digits 4 (
        dash (
          seq (set (is_char b'4')) (
            hex_digits 3
              (dash (seq (set is_variant) (hex_digits 3 (dash (hex_digits 12 empty))))))))))

-- The version that `uuid.UUID` then reads is the digit that the pattern fixes to 4.
unfoldable pub is_uuid4_str : Text → Bool
unfolding fullmatch uuid4_str_pattern
is_uuid4_str v = fullmatch uuid4_str_pattern v

-- 2000-01-01 and 3000-01-01 UTC in milliseconds
abbrev pub start_timestamp_ms : ℕ
start_timestamp_ms = 946684800 * 1000

abbrev pub end_timestamp_ms : ℕ
end_timestamp_ms = 32503680000 * 1000

unfoldable pub is_utc_milliseconds : ℕ → Bool
is_utc_milliseconds v = leb start_timestamp_ms v && leb v end_timestamp_ms

-- A character that LIKE takes for itself.
abbrev IsAliasChar : ℕ → Type 0
IsAliasChar c = (c ≢ b'%') × (c ≢ b'_') × (c ≢ 92)

All-IsPlain : (s : Text) → All IsAliasChar s → IsPlain s
All-IsPlain [] h = tt
All-IsPlain (c ∷ s) ((p, u, b), h) = (p, u, b, All-IsPlain s h)

is_word-IsAliasChar : (c : ℕ) → is_word c ≡ true → IsAliasChar c
is_word-IsAliasChar c h = ground arith

left_right_dot_pattern-Within : Within IsAliasChar left_right_dot_pattern
unfolding left_right_dot_pattern
left_right_dot_pattern-Within = (
  λ c h. ground arith,
  (is_word-IsAliasChar, (λ c h. ground arith, (is_word-IsAliasChar, is_word-IsAliasChar))),
)

-- An alias holds no wildcard of SQL's LIKE, nor its escape character.
pub is_left_right_dot-IsPlain : (v : Text) → is_left_right_dot v ≡ true → IsPlain v
unfolding is_left_right_dot
is_left_right_dot-IsPlain v h =
    All-IsPlain v
      (fullmatch-Within IsAliasChar left_right_dot_pattern v left_right_dot_pattern-Within h)

accepts_alias : is_left_right_dot (codes "d1.isone.me") ≡ true
unfolding is_left_right_dot
accepts_alias = refl

refuses_alias : is_left_right_dot (codes "d1..me") ≡ false
unfolding is_left_right_dot
refuses_alias = refl

accepts_uuid : is_uuid4_str (codes "12345678-9abc-4def-8123-456789abcdef") ≡ true
unfolding is_uuid4_str
accepts_uuid = refl
