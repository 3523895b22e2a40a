-- ===== src/Tests/Harness.antt =====
-- The harness on a sample of a point, with a comparison of dicts in the order of their keys.
use grid_node_registry.Prelude.{
  ℕ, ℤ, pos, negsuc, Bool, true, false, ◌≡◌, refl, inl, inr, ap, Option, none, some, List, [], ◌∷◌,
  ◌&&◌, Text, codes, text_eq, nat_eq, ◌==◌, ==_refl, length, In,
}
use grid_node_registry.Sema.Casing.{
  Json, text, null, number, atom, array, object, Items, nil, cons, Fields, end, field,
}
use grid_node_registry.Sema.Format.{is_uuid4_str}
use grid_node_registry.Sema.PositionPoint.{PositionPointGt, validate_point}
use grid_node_registry.Sema.Codec.{strict, ok, instance_of, decode}
use grid_node_registry.Sema.Codec.Upgrade.{IsCurrent}
use grid_node_registry.Sema.Codec.Decode.{decode-IsCurrent}
use grid_node_registry.Sema.Runtime.Constants.{default_codec-HasConstants, default_codec-KeepsType}
use grid_node_registry.Sema.Wire.{Message, position_point_gt, to_dict}
use grid_node_registry.Sema.Runtime.{default_codec}
use grid_node_registry.Sema.Runtime.Closed.{decode-to_dict}
use grid_node_registry.Sema.Roundtrip.{main}
use grid_node_registry.Sema.Roundtrip.Canonical.{Canonical, main-Canonical}

same_int : ℤ → ℤ → Bool
unfolding nat_eq
same_int (pos m) (pos n) = m == n
same_int (negsuc m) (negsuc n) = m == n
same_int _ _ = false

unfoldable mutual
  unfolding text_eq same_int

  same_json : Json → Json → Bool
  same_json (text s) (text t) = s == t
  same_json null null = true
  same_json (number m) (number n) = same_int m n
  same_json atom atom = true
  same_json (array xs) (array ys) = same_items xs ys
  same_json (object xs) (object ys) = same_fields xs ys
  same_json _ _ = false

  same_items : Items → Items → Bool
  same_items nil nil = true
  same_items (cons x xs) (cons y ys) = same_json x y && same_items xs ys
  same_items _ _ = false

  same_fields : Fields → Fields → Bool
  same_fields end end = true
  same_fields (field k x xs) (field l y ys) = k == l && same_json x y && same_fields xs ys
  same_fields _ _ = false

same_int_refl : (n : ℤ) → same_int n n ≡ true
unfolding same_int
same_int_refl (pos n) = ==_refl n
same_int_refl (negsuc n) = ==_refl n

mutual
  unfolding same_json same_items same_fields

  same_refl : (d : Json) → same_json d d ≡ true
  same_refl (text s) = ==_refl s
  same_refl null = refl
  same_refl (number n) = same_int_refl n
  same_refl atom = refl
  same_refl (array xs) = same_items_refl xs
  same_refl (object xs) = same_fields_refl xs

  same_items_refl : (xs : Items) → same_items xs xs ≡ true
  same_items_refl nil = refl
  same_items_refl (cons x xs) = rw (same_refl x, same_items_refl xs) refl

  same_fields_refl : (xs : Fields) → same_fields xs xs ≡ true
  same_fields_refl end = refl
  same_fields_refl (field k x xs) = rw (==_refl k, same_refl x, same_fields_refl xs) refl

abbrev any_letter : ℕ → Bool
any_letter c = true

abbrev length_of : Text → Option ℕ
length_of s = some (length s)

abbrev millinocket : PositionPointGt
millinocket = record {
  id = codes "d1000000-0000-4000-8000-000000000001";
  latitude_micro_deg = pos 45657000;
  longitude_micro_deg = negsuc 68708999;
}

on_the_globe : validate_point millinocket ≡ none
unfolding validate_point is_uuid4_str
on_the_globe = refl

point_decodes :
    decode
      (default_codec any_letter length_of)
      strict
      true
      (to_dict (position_point_gt millinocket))
    ≡ ok (instance_of (position_point_gt millinocket))
point_decodes =
    decode-to_dict any_letter length_of strict true (position_point_gt millinocket) on_the_globe

decode-to_dict_example :
    decode
      (default_codec any_letter length_of)
      strict
      true
      (to_dict (position_point_gt millinocket))
    ≡ ok (instance_of (position_point_gt millinocket))
decode-to_dict_example =
    decode-to_dict any_letter length_of strict true (position_point_gt millinocket) on_the_globe

abbrev samples : List (Text × Option Json)
samples = (codes "position.point.gt.000.json", some (to_dict (position_point_gt millinocket))) ∷ []

canonical : (s : Text × Option Json) → In s samples → Canonical s
canonical s (inl e) = (position_point_gt millinocket, on_the_globe, ap (λ x. x.1) e)
canonical s (inr i) = absurd i

main-Canonical_example :
    main (default_codec any_letter length_of) to_dict same_json samples ≡ some 0
main-Canonical_example = main-Canonical any_letter length_of same_json same_refl samples canonical

decode-IsCurrent_example :
    (m : Message) × (instance_of (position_point_gt millinocket) ≡ instance_of m)
    × IsCurrent (default_codec any_letter length_of) m
decode-IsCurrent_example =
    decode-IsCurrent (default_codec any_letter length_of)
      (default_codec-HasConstants any_letter length_of)
      (default_codec-KeepsType any_letter length_of) (to_dict (position_point_gt millinocket))
      (instance_of (position_point_gt millinocket)) point_decodes
