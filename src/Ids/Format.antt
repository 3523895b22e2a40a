-- ===== src/Ids/Format.antt =====
-- The format of the ids of src/gnr/ids.py.
use grid_node_registry.Prelude.{
  ℕ, suc, ◌/◌, ◌%◌, ◌<◌, ◌≡◌, refl, sym, ◌∙◌, arith, Bool, true, ◌||◌, List, [], ◌∷◌, ◌++◌, Text,
  All, length, flat_map,
}
use grid_node_registry.Text.{take, drop}
use grid_node_registry.Sema.Regex.{
  Regex, nothing, empty, set, seq, alt, fullmatch, deriv, nullable, fullmatch-IsDead,
}
use grid_node_registry.Sema.Format.{is_hex, is_variant, hex_digits, is_uuid4_str, uuid4_str_pattern}
use grid_node_registry.Ids.{
  set_item, hex_digit, hex_byte, uuid_text, set_version, set_variant, deterministic_uuid4, edge_id,
}

-- ---- one step of a match

fullmatch-alt : (r s : Regex) (t : Text) → fullmatch (alt r s) t ≡ (fullmatch r t || fullmatch s t)
unfolding fullmatch deriv
fullmatch-alt r s [] = refl
fullmatch-alt r s (c ∷ t) = fullmatch-alt (deriv c r) (deriv c s) t

fullmatch-after_empty : (r : Regex) (t : Text) → fullmatch (seq empty r) t ≡ fullmatch r t
unfolding fullmatch deriv
fullmatch-after_empty r [] = refl
fullmatch-after_empty r (c ∷ t) =
    fullmatch-alt (seq nothing r) (deriv c r) t ∙ rw (fullmatch-IsDead (seq nothing r) t tt) refl

fullmatch-set :
    (f : ℕ → Bool) (r : Regex) (c : ℕ) (t : Text)
    → f c ≡ true
    → fullmatch (seq (set f) r) (c ∷ t) ≡ fullmatch r t
unfolding fullmatch deriv
fullmatch-set f r c t h = rw h (fullmatch-after_empty r t)

fullmatch-empty : fullmatch empty [] ≡ true
unfolding fullmatch nullable
fullmatch-empty = refl

abbrev IsHex : ℕ → Type 0
IsHex c = is_hex c ≡ true

fullmatch-hex_digits :
    (r : Regex) (n : ℕ) (s t : Text)
    → length s ≡ n
    → All IsHex s
    → fullmatch (hex_digits n r) (s ++ t) ≡ fullmatch r t
fullmatch-hex_digits r n [] t e h = rw (sym e) refl
fullmatch-hex_digits r n (c ∷ s) t e (h, hs) = rw (sym e) (
    fullmatch-set is_hex (hex_digits (length s) r) c (s ++ t) h
    ∙ fullmatch-hex_digits r (length s) s t refl hs)

-- ---- the digits

hex_digit-IsHex : (n : ℕ) → n < 16 → IsHex (hex_digit n)
unfolding hex_digit
hex_digit-IsHex n h = ground arith

version : (b : ℕ) → hex_digit (set_version b / 16) ≡ b'4'
unfolding hex_digit
version b = let e : set_version b / 16 ≡ 4 = omega arith in rw e refl

variant : (b : ℕ) → is_variant (hex_digit (set_variant b / 16)) ≡ true
unfolding hex_digit
variant b = ground arith

-- ---- the bytes

abbrev pub IsByte : ℕ → Type 0
IsByte b = b < 256

high : (b : ℕ) → IsByte b → IsHex (hex_digit (b / 16))
high b h = hex_digit-IsHex (b / 16) (omega arith)

low : (b : ℕ) → IsHex (hex_digit (b % 16))
low b = hex_digit-IsHex (b % 16) (omega arith)

IsHex-bytes-IsHex : (bs : List ℕ) → All IsByte bs → All IsHex (flat_map hex_byte bs)
IsHex-bytes-IsHex [] h = tt
IsHex-bytes-IsHex (b ∷ bs) (h, hs) = (high b h, (low b, IsHex-bytes-IsHex bs hs))

-- The first byte of at least one.
head_first :
    (P : List ℕ → Type 0) (n : ℕ) (bs : List ℕ)
    → length bs ≡ suc n
    → All IsByte bs
    → ((b : ℕ) (rest : List ℕ) → length rest ≡ n → All IsByte rest → IsByte b → P (b ∷ rest))
    → P bs
head_first P n [] e h k = absurd (omega arith)
head_first P n (b ∷ bs) e (h, hs) k = k b bs (omega arith) hs h

abbrev stamped : List ℕ → Text
stamped bs = uuid_text (set_item 8 set_variant (set_item 6 set_version (take 16 bs)))

module _ (b0 b1 b2 b3 b4 b5 b6 b7 b8 b9 b10 b11 b12 b13 b14 b15 : ℕ) (rest : List ℕ) where
  abbrev first_bytes : List ℕ
  first_bytes = b0 ∷ b1 ∷ b2 ∷ b3 ∷ []

  abbrev last_bytes : List ℕ
  last_bytes = b10 ∷ b11 ∷ b12 ∷ b13 ∷ b14 ∷ b15 ∷ []

  stamped-matches :
      All IsByte first_bytes
      → All IsByte (b4 ∷ b5 ∷ [])
      → IsByte b7
      → IsByte b9
      → All IsByte last_bytes
      → fullmatch uuid4_str_pattern
          (stamped (first_bytes ++ b4 ∷ b5 ∷ b6 ∷ b7 ∷ b8 ∷ b9 ∷ last_bytes ++ rest))
        ≡ true
  unfolding take drop set_item uuid_text uuid4_str_pattern
  stamped-matches h_first h45 h7 h9 h_last =
      fullmatch-hex_digits _ 8 (flat_map hex_byte first_bytes) _ refl
        (IsHex-bytes-IsHex first_bytes h_first)
      ∙ fullmatch-set _ _ _ _ refl
      ∙ fullmatch-hex_digits _ 4 (flat_map hex_byte (b4 ∷ b5 ∷ [])) _ refl
          (IsHex-bytes-IsHex (b4 ∷ b5 ∷ []) h45)
      ∙ fullmatch-set _ _ _ _ refl
      ∙ fullmatch-set _ _ _ _ (rw (version b6) refl)
      ∙ fullmatch-hex_digits _ 3 (hex_digit (set_version b6 % 16) ∷ hex_byte b7) _ refl
          (low (set_version b6), IsHex-bytes-IsHex (b7 ∷ []) (h7, tt))
      ∙ fullmatch-set _ _ _ _ refl
      ∙ fullmatch-set _ _ _ _ (variant b8)
      ∙ fullmatch-hex_digits _ 3 (hex_digit (set_variant b8 % 16) ∷ hex_byte b9) _ refl
          (low (set_variant b8), IsHex-bytes-IsHex (b9 ∷ []) (h9, tt))
      ∙ fullmatch-set _ _ _ _ refl
      ∙ fullmatch-hex_digits _ 12 (flat_map hex_byte last_bytes) [] refl
          (IsHex-bytes-IsHex last_bytes h_last)
      ∙ fullmatch-empty

-- The bytes one by one: those so far, and the rest.
abbrev Matches : List ℕ → Type 0
Matches bs = fullmatch uuid4_str_pattern (stamped bs) ≡ true

Matches-last :
    (b0 b1 b2 b3 b4 b5 b6 b7 b8 b9 : ℕ) (bs : List ℕ)
    → length bs ≡ 22
    → All IsByte bs
    → All IsByte (b0 ∷ b1 ∷ b2 ∷ b3 ∷ [])
    → All IsByte (b4 ∷ b5 ∷ [])
    → IsByte b7
    → IsByte b9
    → Matches (b0 ∷ b1 ∷ b2 ∷ b3 ∷ b4 ∷ b5 ∷ b6 ∷ b7 ∷ b8 ∷ b9 ∷ bs)
Matches-last b0 b1 b2 b3 b4 b5 b6 b7 b8 b9 bs e h h_first h45 h7 h9 =
    let front : List ℕ → List ℕ = λ xs. b0 ∷ b1 ∷ b2 ∷ b3 ∷ b4 ∷ b5 ∷ b6 ∷ b7 ∷ b8 ∷ b9 ∷ xs in
    head_first (λ xs. Matches (front xs)) 21 bs e h
      λ b10 bs e h h10.
        head_first (λ xs. Matches (front (b10 ∷ xs))) 20 bs e h
          λ b11 bs e h h11.
            head_first (λ xs. Matches (front (b10 ∷ b11 ∷ xs))) 19 bs e h
              λ b12 bs e h h12.
                head_first (λ xs. Matches (front (b10 ∷ b11 ∷ b12 ∷ xs))) 18 bs e h
                  λ b13 bs e h h13.
                    head_first (λ xs. Matches (front (b10 ∷ b11 ∷ b12 ∷ b13 ∷ xs))) 17 bs e h
                      λ b14 bs e h h14.
                        head_first (λ xs. Matches (front (b10 ∷ b11 ∷ b12 ∷ b13 ∷ b14 ∷ xs))) 16 bs
                          e h
                          λ b15 rest e h h15.
                            stamped-matches b0 b1 b2 b3 b4 b5 b6 b7 b8 b9 b10 b11 b12 b13 b14 b15
                              rest h_first h45 h7 h9 (h10, (h11, (h12, (h13, (h14, (h15, tt))))))

Matches-All : (bs : List ℕ) → length bs ≡ 32 → All IsByte bs → Matches bs
Matches-All bs e h = head_first Matches 31 bs e h λ b0 bs e h h0.
    head_first (λ xs. Matches (b0 ∷ xs)) 30 bs e h
      λ b1 bs e h h1.
        head_first (λ xs. Matches (b0 ∷ b1 ∷ xs)) 29 bs e h
          λ b2 bs e h h2.
            head_first (λ xs. Matches (b0 ∷ b1 ∷ b2 ∷ xs)) 28 bs e h
              λ b3 bs e h h3.
                head_first (λ xs. Matches (b0 ∷ b1 ∷ b2 ∷ b3 ∷ xs)) 27 bs e h
                  λ b4 bs e h h4.
                    head_first (λ xs. Matches (b0 ∷ b1 ∷ b2 ∷ b3 ∷ b4 ∷ xs)) 26 bs e h
                      λ b5 bs e h h5.
                        head_first (λ xs. Matches (b0 ∷ b1 ∷ b2 ∷ b3 ∷ b4 ∷ b5 ∷ xs)) 25 bs e h
                          λ b6 bs e h h6.
                            head_first (λ xs. Matches (b0 ∷ b1 ∷ b2 ∷ b3 ∷ b4 ∷ b5 ∷ b6 ∷ xs)) 24 bs
                              e h
                              λ b7 bs e h h7.
                                head_first
                                  (λ xs. Matches (b0 ∷ b1 ∷ b2 ∷ b3 ∷ b4 ∷ b5 ∷ b6 ∷ b7 ∷ xs)) 23 bs
                                  e h
                                  λ b8 bs e h h8.
                                    head_first
                                      (λ xs.
                                        Matches (b0 ∷ b1 ∷ b2 ∷ b3 ∷ b4 ∷ b5 ∷ b6 ∷ b7 ∷ b8 ∷ xs))
                                      22 bs e h
                                      λ b9 bs e h h9.
                                        Matches-last b0 b1 b2 b3 b4 b5 b6 b7 b8 b9 bs e h
                                          (h0, (h1, (h2, (h3, tt)))) (h4, (h5, tt)) h7 h9

-- The id that is derived from any seed has the UUID4 format, where the digest is of 32 bytes.
pub deterministic_uuid4-is_uuid4_str :
    (sha256 : List ℕ → List ℕ) (encode : Text → List ℕ) (seed : Text)
    → ((bytes : List ℕ) → (length (sha256 bytes) ≡ 32) × All IsByte (sha256 bytes))
    → is_uuid4_str (deterministic_uuid4 sha256 encode seed) ≡ true
unfolding is_uuid4_str deterministic_uuid4
deterministic_uuid4-is_uuid4_str sha256 encode seed h =
    let (e, b) = h (encode seed) in Matches-All (sha256 (encode seed)) e b

-- The id of the edge between any two nodes has the UUID4 format, where the digest is of 32 bytes.
pub edge_id-is_uuid4_str :
    (sha256 : List ℕ → List ℕ) (encode : Text → List ℕ) (from_g_node_id to_g_node_id : Text)
    → ((bytes : List ℕ) → (length (sha256 bytes) ≡ 32) × All IsByte (sha256 bytes))
    → is_uuid4_str (edge_id sha256 encode from_g_node_id to_g_node_id) ≡ true
unfolding edge_id
edge_id-is_uuid4_str sha256 encode from_g_node_id to_g_node_id h =
    deterministic_uuid4-is_uuid4_str sha256 encode _ h
