-- ===== src/Sema/PositionPoint.antt =====
-- src/gnr/sema/types/position_point_gt.py: the type `position.point.gt` and its axiom on coordinates,
-- integers of millionths of a degree.
use grid_node_registry.Prelude.{
  ℤ, pos, negsuc, int_leb, ℕ, suc, ◌≤◌, ◌≡◌, refl, ◌↔◌, arith, true, ◌&&◌, Option, none, some, Text,
  if◌then◌else◌, Bool-cases, inl, inr,
}
use grid_node_registry.Sema.Format.{is_uuid4_str}
use grid_node_registry.Sema.GNode.{Invalid, field_format, axiom_failed}

pub record PositionPointGt : Type 0 where
  pub id : Text
  pub latitude_micro_deg : ℤ
  pub longitude_micro_deg : ℤ

-- ValidEarthCoordinates; -90_000_000 is `negsuc 89999999`.
unfoldable pub validate_point : PositionPointGt → Option Invalid
unfolding int_leb
validate_point p =
    if is_uuid4_str p.id
    then (if int_leb (negsuc 89999999) p.latitude_micro_deg
          && int_leb p.latitude_micro_deg (pos 90000000)
        then (if int_leb (negsuc 179999999) p.longitude_micro_deg
              && int_leb p.longitude_micro_deg (pos 180000000)
            then none
            else some (axiom_failed 1))
        else some (axiom_failed 1))
    else some field_format

abbrev magnitude : ℤ → ℕ
magnitude (pos n) = n
magnitude (negsuc n) = suc n

within :
    (bound : ℕ) (a : ℤ) (e : Invalid) (rest : Option Invalid)
    → ((if int_leb (negsuc bound) a && int_leb a (pos (suc bound)) then rest else some e) ≡ none)
      ↔ ((magnitude a ≤ suc bound) × (rest ≡ none))
unfolding int_leb
within bound (pos n) e rest = ground arith
within bound (negsuc n) e rest = ground arith

-- A point is accepted exactly when its id is a UUID4 and its coordinates lie on the globe.
pub validate_point_iff :
    (p : PositionPointGt)
    → (validate_point p ≡ none) ↔ (
        (is_uuid4_str p.id ≡ true)
        × (magnitude p.latitude_micro_deg ≤ 90000000)
        × (magnitude p.longitude_micro_deg ≤ 180000000))
unfolding validate_point
validate_point_iff p = elim (Bool-cases (is_uuid4_str p.id)) [
  | inl u ↦ (
    (λ h.
        let (lat, h') = (within 89999999 p.latitude_micro_deg _ _).0 (rw u at h) in
        (u, lat, ((within 179999999 p.longitude_micro_deg _ _).0 h').0)),
    (λ (_, lat, lon). rw u (
        (within 89999999 p.latitude_micro_deg _ _).1
          (lat, (within 179999999 p.longitude_micro_deg _ _).1 (lon, refl)))),
  )
  | inr u ↦ ((λ h. cc (rw u at h)), (λ (t, _, _). cc t))
]
