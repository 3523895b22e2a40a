-- ===== src/Cli/Seed.antt =====
-- What `gnr seed-dev` of src/gnr/cli.py does to the tables.
use grid_node_registry.Prelude.{
  ◌≡◌, ◌↔◌, refl, ◌∙◌, codes, All, In, In-filter, In-filter_of, arith, Bool-cases, inl, inr, Bool,
  true, false, some, List, [], ◌∷◌, map, any, filter, none, Text, length, if◌then◌else◌, not, ◌==◌,
  nat_eq,
}
use grid_node_registry.Text.{drop}
use grid_node_registry.Text.Laws.{starts_with-append, starts_with-drop}
use grid_node_registry.Registry.Models.{Tables}
use grid_node_registry.Registry.Session.{ok, pure, ◌>>=◌}
use grid_node_registry.DevUniverse.{build_dev_universe}
use grid_node_registry.DevUniverse.Clean.{seeded_tables}
use grid_node_registry.DevUniverse.Run.{TellsApart, seed_dev_universe-clean}
use grid_node_registry.Cli.{foreign_nodes, seeded, is_foreign, refusal, seed_refusal, run_seed_dev}

abbrev pub aliases : Tables → List Text
aliases t = map (λ n. n.alias) t.g_nodes

filter-none : {A : Type 0} (p : A → Bool) (xs : List A) → any p xs ≡ false → filter p xs ≡ []
filter-none p [] e = refl
filter-none p (x ∷ xs) e = ground (arith, filter-none p xs)

filter-some :
    {A : Type 0} (p : A → Bool) (xs : List A)
    → any p xs ≡ true
    → (x : A) × (ys : List A) × (filter p xs ≡ x ∷ ys)
filter-some p [] e = cc
filter-some p (x ∷ xs) e = elim (Bool-cases (p x)) [
  | inl q ↦ (x, filter p xs, rw q refl)
  | inr q ↦ rw q (filter-some p xs (rw q at e))
]

foreign_refused :
    (rows foreign : List Text) (x : Text) (rest : List Text)
    → foreign ≡ x ∷ rest
    → refusal true rows foreign ≡ some (foreign_nodes foreign)
unfolding refusal
foreign_refused rows foreign x rest e = rw e refl

own_wiped : (rows : List Text) → refusal true rows [] ≡ none
unfolding refusal
own_wiped rows = elim (Bool-cases (not (length rows == 0))) [
  | inl e ↦ rw e refl
  | inr e ↦ rw e refl
]

-- An alias of the development universe begins with `d1.`.
abbrev pub IsOwn : Text → Type 0
IsOwn alias = (rest : Text) × (alias ≡ b'd' ∷ b'1' ∷ b'.' ∷ rest)

is_foreign_own : (alias : Text) → IsOwn alias → is_foreign alias ≡ false
is_foreign_own alias (rest, e) = rw (e, starts_with-append (codes "d1.") rest) refl

is_foreign-false : (alias : Text) → is_foreign alias ≡ false → IsOwn alias
is_foreign-false alias h = (drop 3 alias, starts_with-drop alias (codes "d1.") (ground arith))

is_foreign_iff : (alias : Text) → (is_foreign alias ≡ true) ↔ (IsOwn alias → ⊥)
is_foreign_iff alias = (
  λ h own. cc (h, is_foreign_own alias own),
  λ other. elim (Bool-cases (is_foreign alias)) [
    | inl e ↦ e
    | inr e ↦ absurd (other (is_foreign-false alias e))
  ],
)

any_own : (aliases : List Text) → All IsOwn aliases → any is_foreign aliases ≡ false
any_own [] h = refl
any_own (a ∷ aliases) (own, h) = rw (is_foreign_own a own, any_own aliases h) refl

any_foreign :
    (aliases : List Text) (a : Text) → In a aliases → (IsOwn a → ⊥) → any is_foreign aliases ≡ true
any_foreign (b ∷ aliases) a (inl e) other = rw (← e, (is_foreign_iff a).1 other) refl
any_foreign (b ∷ aliases) a (inr i) other = ground (arith, any_foreign aliases a i other)
any_foreign [] a i other = absurd i

run_seed_dev-cases :
    (uuid : Text → Text) (t : Tables)
    → TellsApart uuid
    → run_seed_dev uuid true t ≡ (
        if any is_foreign (aliases t)
        then (ok (foreign_nodes (filter is_foreign (aliases t))), t)
        else (ok (seeded (build_dev_universe uuid)), seeded_tables uuid t))
unfolding run_seed_dev seed_refusal ◌>>=◌ pure
run_seed_dev-cases uuid t h = elim (Bool-cases (any is_foreign (aliases t))) [
  | inl e ↦
      let (x, rest, found) = filter-some is_foreign (aliases t) e in
      rw (e, foreign_refused (aliases t) (filter is_foreign (aliases t)) x rest found) refl
  | inr e ↦
      rw
        (
          e,
          filter-none is_foreign (aliases t) e,
          own_wiped (aliases t),
          (seed_dev_universe-clean uuid t h).0,
        )
        refl
]

In-filter_iff :
    (aliases : List Text) (a : Text)
    → In a (filter is_foreign aliases) ↔ (In a aliases × (IsOwn a → ⊥))
In-filter_iff aliases a = (
  λ i. let (j, p) = In-filter is_foreign a aliases i in (j, (is_foreign_iff a).0 p),
  λ (j, other). In-filter_of is_foreign a aliases j ((is_foreign_iff a).1 other),
)

pub run_seed_dev-wipe :
    (uuid : Text → Text) (t : Tables)
    → TellsApart uuid
    → (All IsOwn (aliases t)
        → run_seed_dev uuid true t ≡ (ok (seeded (build_dev_universe uuid)), seeded_tables uuid t))
      × ((a : Text)
          → In a (aliases t)
          → (IsOwn a → ⊥)
          → (foreign : List Text) × (run_seed_dev uuid true t ≡ (ok (foreign_nodes foreign), t))
            × ((b : Text) → In b foreign ↔ (In b (aliases t) × (IsOwn b → ⊥))))
run_seed_dev-wipe uuid t h = (
  λ own. run_seed_dev-cases uuid t h ∙ rw (any_own (aliases t) own) refl,
  λ a i other. (
    filter is_foreign (aliases t),
    run_seed_dev-cases uuid t h ∙ rw (any_foreign (aliases t) a i other) refl,
    In-filter_iff (aliases t),
  ),
)
