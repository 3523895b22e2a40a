-- ===== src/Sema/Codec/Discovery.antt =====
-- `get_current_types` and `get_old_versions` of src/gnr/sema/codec.py, on the classes that the packages
-- export, in their order: a class with its type name. A later class replaces an earlier one.
use grid_node_registry.Prelude.{
  ◌≡◌, refl, sym, ap, ◌∙◌, inl, inr, Bool, true, false, Option, none, some, List, [], ◌∷◌, ◌++◌,
  Text, text_eq, ◌==◌, ==→≡, In, In-append,
}
use grid_node_registry.Sema.Codec.{SemaClass}

abbrev pub Classes : Type 0 → Type 0
Classes I = List (Text × SemaClass I)

module _ {I : Type 0} where
  abbrev or_own : Bool → SemaClass I → Option (SemaClass I) → Option (SemaClass I)
  or_own own c (some later) = some later
  or_own true c none = some c
  or_own false c none = none

  unfoldable pub get_current_types : Classes I → Text → Option (SemaClass I)
  unfolding text_eq
  get_current_types [] type_name = none
  get_current_types ((name, c) ∷ classes) type_name =
      or_own (name == type_name) c (get_current_types classes type_name)

  -- registry[type_name][version] = obj, where the class has a version
  abbrev own_version : Bool → Option Text → SemaClass I → Classes I
  own_version true (some version) c = (version, c) ∷ []
  own_version _ _ c = []

  -- The versions of a type, the latest assignment first.
  unfoldable pub versions_of : Classes I → Text → Classes I
  unfolding text_eq
  versions_of [] type_name = []
  versions_of ((name, c) ∷ classes) type_name =
      versions_of classes type_name ++ own_version (name == type_name) c.version_value c

  -- A type has an entry once a version of it was assigned.
  abbrev entry : Classes I → Option (Classes I)
  entry [] = none
  entry (v ∷ vs) = some (v ∷ vs)

  unfoldable pub get_old_versions : Classes I → Text → Option (Classes I)
  unfolding versions_of
  get_old_versions classes type_name = entry (versions_of classes type_name)

  own_or_later :
      (classes : Classes I) (type_name name : Text) (c d : SemaClass I)
      (later : Option (SemaClass I)) (b : Bool)
      → ((e : SemaClass I) → later ≡ some e → In (type_name, e) classes)
      → (name == type_name) ≡ b
      → or_own b d later ≡ some c
      → In (type_name, c) ((name, d) ∷ classes)
  own_or_later classes type_name name c d (some e) b ih l h = inr (ih c h)
  own_or_later classes type_name name c d none true ih l h = inl (cc (==→≡ name type_name l, h))
  own_or_later classes type_name name c d none false ih l h = cc h

  -- A registered class is one that is exported under its type name.
  pub get_current_types-In :
      (classes : Classes I) (type_name : Text) (c : SemaClass I)
      → get_current_types classes type_name ≡ some c
      → In (type_name, c) classes
  unfolding get_current_types
  get_current_types-In [] type_name c h = cc h
  get_current_types-In ((name, d) ∷ classes) type_name c h =
      own_or_later classes type_name name c d _ (name == type_name)
        (λ e. get_current_types-In classes type_name e) refl h

  In-own_version :
      (type_name name version : Text) (c d : SemaClass I) (b : Bool) (o : Option Text)
      → (name == type_name) ≡ b
      → d.version_value ≡ o
      → In (version, c) (own_version b o d)
      → ◌≡◌ {A = Text × SemaClass I} (type_name, c) (name, d) × (c.version_value ≡ some version)
  In-own_version type_name name version c d true (some u) l v (inl e) =
      let same : c ≡ d = ap (λ x. x.1) e in
      (
        cc (==→≡ name type_name l, same),
        ap (λ x. x.version_value) same ∙ v ∙ ap (λ x. some x.0) (sym e),
      )
  In-own_version type_name name version c d true (some u) l v (inr i) = elim i [ ]
  In-own_version type_name name version c d true none l v i = absurd i
  In-own_version type_name name version c d false o l v i = absurd i

  -- The old versions of a type are the versions of the classes that are exported under its name.
  pub In-versions_of :
      (classes : Classes I) (type_name version : Text) (c : SemaClass I)
      → In (version, c) (versions_of classes type_name)
      → In (type_name, c) classes × (c.version_value ≡ some version)
  unfolding versions_of
  In-versions_of [] type_name version c i = absurd i
  In-versions_of ((name, d) ∷ classes) type_name version c i =
      elim (In-append (version, c) (versions_of classes type_name) _ i) [
        | inl j ↦ let (k, e) = In-versions_of classes type_name version c j in (inr k, e)
        | inr j ↦
            let (e, f) =
              In-own_version type_name name version c d (name == type_name) d.version_value refl
                refl j in
            (inl e, f)
      ]
