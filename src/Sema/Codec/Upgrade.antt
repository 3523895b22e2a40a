-- ===== src/Sema/Codec/Upgrade.antt =====
-- `to_latest` of src/gnr/sema/base.py: where the upgrades lead.
use grid_node_registry.Prelude.{
  ℕ, zero, suc, ◌≡◌, refl, sym, ◌∙◌, ap, true, Option, none, some, Text, text_eq, option_eq, ◌==◌,
  ==→≡, ltb, Bool-cases, Option-cases, inl, inr,
}
use grid_node_registry.Sema.Codec.{
  ok, Upgraded, upgraded, needs_context, not_upgraded, after_upgrade, SemaClass, Vocabulary,
  upgrade_loop, upgrade_between, upgrade_versions, to_latest,
}

module _ {I : Type 0} (v : Vocabulary I) where
  -- The instance has the version of the class that is registered for its type.
  pub record IsCurrent (i : I) : Type 0 where
    pub class : SemaClass I
    pub registered : v.registry (v.type_name_of i) ≡ some class
    pub current : v.version_of i ≡ class.version_value

  -- An upgrade gives an instance of the same type.
  abbrev pub KeepsType : Type 0
  KeepsType = (i j : I) → v.upgrade i ≡ upgraded j → v.type_name_of j ≡ v.type_name_of i

  landed :
      (latest : Option Text) (i j : I)
      → (v.version_of i == latest) ≡ true
      → ok i ≡ ok j
      → v.version_of j ≡ latest
  landed latest i j e h =
      let same : i ≡ j = cc h in ap v.version_of (sym same) ∙ ==→≡ (v.version_of i) latest e

  stepped :
      (latest : Option Text) (steps : ℕ) (r : Upgraded I) (j : I)
      → ((k : I) → upgrade_loop v latest steps k ≡ ok j → v.version_of j ≡ latest)
      → after_upgrade v r (upgrade_loop v latest steps) ≡ ok j
      → v.version_of j ≡ latest
  stepped latest steps (upgraded k) j ih h = ih k h
  stepped latest steps needs_context j ih h = cc h
  stepped latest steps not_upgraded j ih h = cc h

  upgrade_loop-version :
      (latest : Option Text) (steps : ℕ) (i j : I)
      → upgrade_loop v latest steps i ≡ ok j
      → v.version_of j ≡ latest
  unfolding upgrade_loop
  upgrade_loop-version latest zero i j h = elim (Bool-cases (v.version_of i == latest)) [
    | inl e ↦ landed latest i j e (rw (e, upgrade_loop) at h)
    | inr e ↦ cc (rw (e, upgrade_loop) at h)
  ]
  upgrade_loop-version latest (suc steps) i j h = elim (Bool-cases (v.version_of i == latest)) [
    | inl e ↦ landed latest i j e (rw (e, upgrade_loop) at h)
    | inr e ↦
        stepped latest steps (v.upgrade i) j (λ k. upgrade_loop-version latest steps k j)
          (rw (e, upgrade_loop) at h)
  ]

  stepped_type :
      KeepsType
      → (latest : Option Text) (steps : ℕ) (i : I) (r : Upgraded I) (j : I) → v.upgrade i ≡ r
      → ((k : I) → upgrade_loop v latest steps k ≡ ok j → v.type_name_of j ≡ v.type_name_of k)
      → after_upgrade v r (upgrade_loop v latest steps) ≡ ok j
      → v.type_name_of j ≡ v.type_name_of i
  stepped_type keeps latest steps i (upgraded k) j e ih h = ih k h ∙ keeps i k e
  stepped_type keeps latest steps i needs_context j e ih h = cc h
  stepped_type keeps latest steps i not_upgraded j e ih h = cc h

  unmoved : (i j : I) → ok i ≡ ok j → v.type_name_of j ≡ v.type_name_of i
  unmoved i j h = let same : i ≡ j = cc h in ap v.type_name_of (sym same)

  upgrade_loop-type :
      KeepsType
      → (latest : Option Text) (steps : ℕ) (i j : I) → upgrade_loop v latest steps i ≡ ok j
      → v.type_name_of j ≡ v.type_name_of i
  unfolding upgrade_loop
  upgrade_loop-type keeps latest zero i j h = elim (Bool-cases (v.version_of i == latest)) [
    | inl e ↦ unmoved i j (rw (e, upgrade_loop) at h)
    | inr e ↦ cc (rw (e, upgrade_loop) at h)
  ]
  upgrade_loop-type keeps latest (suc steps) i j h = elim (Bool-cases (v.version_of i == latest)) [
    | inl e ↦ unmoved i j (rw (e, upgrade_loop) at h)
    | inr e ↦
        stepped_type keeps latest steps i (v.upgrade i) j refl
          (λ k. upgrade_loop-type keeps latest steps k j) (rw (e, upgrade_loop) at h)
  ]

  -- What `to_latest` returns has the type of the instance, and the version of the class that is
  -- registered for it.
  pub to_latest-IsCurrent : KeepsType → (i j : I) → to_latest v i ≡ ok j → IsCurrent j
  unfolding to_latest
  to_latest-IsCurrent keeps i j h = elim (Option-cases (v.registry (v.type_name_of i))) [
    | inl e ↦ cc (rw e at h)
    | inr (c, e) ↦
        let (now, same) = versions i j c.version_value (v.version_of i) (rw e at h) in
        record { class = c; registered = ap v.registry same ∙ e; current = now }
  ]
    where
      between :
          (i j : I) (latest : Text) (m n : Option ℕ)
          → upgrade_between v latest i m n ≡ ok j
          → (v.version_of j ≡ some latest) × (v.type_name_of j ≡ v.type_name_of i)
      between i j latest none n h = cc h
      between i j latest (some m) none h = cc h
      between i j latest (some m) (some n) h = elim (Bool-cases (ltb n m)) [
        | inl e ↦ cc (rw e at h)
        | inr e ↦ (
          upgrade_loop-version (some latest) _ i j (rw e at h),
          upgrade_loop-type keeps (some latest) _ i j (rw e at h),
        )
      ]

      versions :
          (i j : I) (latest current : Option Text)
          → upgrade_versions v i current latest ≡ ok j
          → (v.version_of j ≡ latest) × (v.type_name_of j ≡ v.type_name_of i)
      versions i j latest none h = cc h
      versions i j none (some u) h = cc h
      versions i j (some w) (some u) h = between i j w (v.int u) (v.int w) h
