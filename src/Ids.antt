-- ===== src/Ids.antt =====
-- src/gnr/ids.py: ids that are derived from a command. SHA-256 and the text encoding are parameters;
-- a byte is a number, and `x & 0x0F | 0x40` is written by its value, `x % 16 + 64`.
pub mod Format
use grid_node_registry.Prelude.{
  ℕ, zero, suc, ◌+◌, ◌-◌, ◌/◌, ◌%◌, List, [], ◌∷◌, ◌++◌, Text, codes, ltb, flat_map, if◌then◌else◌,
}
use grid_node_registry.Text.{take, drop}

-- b[i] = f(b[i])
unfoldable pub set_item : ℕ → (ℕ → ℕ) → List ℕ → List ℕ
set_item i f [] = []
set_item zero f (b ∷ bs) = f b ∷ bs
set_item (suc i) f (b ∷ bs) = b ∷ set_item i f bs

unfoldable pub hex_digit : ℕ → ℕ
hex_digit n = if ltb n 10 then b'0' + n else b'a' + (n - 10)

abbrev pub hex_byte : ℕ → Text
hex_byte b = hex_digit (b / 16) ∷ hex_digit (b % 16) ∷ []

-- str(uuid.UUID(bytes=…))
unfoldable pub uuid_text : List ℕ → Text
unfolding take drop
uuid_text bytes =
    let hex = flat_map hex_byte bytes in
    take 8 hex
    ++ b'-' ∷ take 4 (drop 8 hex)
    ++ b'-' ∷ take 4 (drop 12 hex)
    ++ b'-' ∷ take 4 (drop 16 hex)
    ++ b'-' ∷ drop 20 hex

abbrev pub set_version : ℕ → ℕ
set_version b = b % 16 + 64

abbrev pub set_variant : ℕ → ℕ
set_variant b = b % 64 + 128

module _ (sha256 : List ℕ → List ℕ) (encode : Text → List ℕ) where
  unfoldable pub deterministic_uuid4 : Text → Text
  unfolding take
  deterministic_uuid4 seed =
      uuid_text (set_item 8 set_variant (set_item 6 set_version (take 16 (sha256 (encode seed)))))

  abbrev pub edge_domain : Text
  edge_domain = codes "gnr-det-id/connectivity-edge"

  unfoldable pub edge_id : Text → Text → Text
  edge_id from_g_node_id to_g_node_id =
      deterministic_uuid4 (edge_domain ++ b'/' ∷ from_g_node_id ++ b'/' ∷ to_g_node_id)

  -- The digest as lower-case hexadecimal digits.
  unfoldable pub command_hash : List ℕ → Text
  command_hash payload = flat_map hex_byte (sha256 payload)
