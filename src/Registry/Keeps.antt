-- ===== src/Registry/Keeps.antt =====
-- Conditions on a session that succeeds: what it needs before and gives after. A session that
-- raises owes nothing, for the transaction that runs it rolls it back.
use grid_node_registry.Prelude.{◌≡◌, refl, Bool, true, false}
use grid_node_registry.Registry.Models.{Tables}
use grid_node_registry.Registry.Session.{
  Result, ok, err, Error, Session, pure, raise, gets, modify, raise_if, ◌>>=◌, continue, settle,
  transaction,
}

abbrev pub After : {A : Type 0} → (Tables → Type 0) → Result A × Tables → Type 0
After Q (ok a, u) = Q u
After Q (err e, u) = Unit

pub record Keeps (P Q : Tables → Type 0) {A : Type 0} (m : Session A) : Type 0 where
  pub at : (t : Tables) → P t → After Q (m t)

module _ {A : Type 0} {P : Tables → Type 0} where
  pub Keeps-pure : (a : A) → Keeps P P (pure a)
  unfolding pure
  Keeps-pure a = record { at = λ t h. h }

  pub Keeps-raise : {Q : Tables → Type 0} → (e : Error) → Keeps P Q (raise {A = A} e)
  unfolding raise
  Keeps-raise e = record { at = λ t h. tt }

  pub Keeps-gets : (f : Tables → A) → Keeps P P (gets f)
  unfolding gets
  Keeps-gets f = record { at = λ t h. h }

  pub Keeps-weaken :
      {P' Q : Tables → Type 0}
      → (m : Session A) → ((t : Tables) → P t → P' t)
      → Keeps P' Q m
      → Keeps P Q m
  Keeps-weaken m h k = record { at = λ t p. k.at t (h t p) }

module _ {P : Tables → Type 0} where
  pub Keeps-raise_if : (b : Bool) (e : Error) → Keeps P P (raise_if b e)
  unfolding raise_if
  Keeps-raise_if true e = Keeps-raise e
  Keeps-raise_if false e = Keeps-pure tt

  pub Keeps-modify :
      {Q : Tables → Type 0}
      → (f : Tables → Tables) → ((t : Tables) → P t → Q (f t))
      → Keeps P Q (modify f)
  unfolding modify
  Keeps-modify f h = record { at = h }

module _ {A B : Type 0} where
  After-bind :
      {R Q : Tables → Type 0}
      → (f : A → Session B) (r : Result A × Tables) → After R r
      → ((a : A) → Keeps R Q (f a))
      → After Q (continue f r)
  After-bind f (ok a, u) h k = (k a).at u h
  After-bind f (err e, u) h k = tt

  pub Keeps-bind :
      {P R Q : Tables → Type 0}
      → (m : Session A) (f : A → Session B) → Keeps P R m
      → ((a : A) → Keeps R Q (f a))
      → Keeps P Q (m >>= f)
  unfolding ◌>>=◌
  Keeps-bind m f g k = record { at = λ t h. After-bind f (m t) (g.at t h) k }

  -- What is read is known in what follows.
  pub Keeps-After-gets :
      {P Q : Tables → Type 0}
      → (g : Tables → A) (f : A → Session B) → ((t : Tables) → P t → After Q (f (g t) t))
      → Keeps P Q (gets g >>= f)
  unfolding ◌>>=◌
  Keeps-After-gets g f k = record { at = k }

module _ {B : Type 0} {P Q : Tables → Type 0} where
  -- A guard that has not raised is known to be false.
  pub Keeps-after_guard :
      (g : Tables → Bool) (e : Error) (k : Session B)
      → Keeps (λ t. P t × (g t ≡ false)) Q k
      → Keeps P Q (gets g >>= λ b. raise_if b e >>= λ _. k)
  unfolding ◌>>=◌
  Keeps-after_guard g e k h = record { at = λ t p. guarded t (g t) p λ q. h.at t (p, q) }
    where
      guarded :
          (t : Tables) (b : Bool)
          → P t
          → (b ≡ false → After Q (k t))
          → After Q (continue (λ _. k) (raise_if b e t))
      guarded t true p f = tt
      guarded t false p f = f refl

module _ {A : Type 0} {P Q : Tables → Type 0} where
  pub Keeps-transaction : (m : Session A) → Keeps P Q m → Keeps P Q (transaction m)
  unfolding transaction
  Keeps-transaction m g = record { at = λ t h. settled t (m t) (g.at t h) }
    where
      settled : (t : Tables) (r : Result A × Tables) → After Q r → After Q (settle t r)
      settled t (ok a, u) h = h
      settled t (err e, u) h = tt

pub ruleset keeping_rules =
    (Keeps-pure, Keeps-raise, Keeps-gets, Keeps-transaction, Keeps-raise_if, Keeps-bind)
