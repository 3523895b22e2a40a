-- ===== src/Registry/Reads.antt =====
-- Sessions that only read: they leave the tables as they are, whether they return or raise.
use grid_node_registry.Prelude.{◌≡◌, refl, sym, subst, ◌∙◌, arith, Bool, true, false, if◌then◌else◌}
use grid_node_registry.Registry.Models.{Tables}
use grid_node_registry.Registry.Session.{
  Result, ok, err, Error, Session, pure, raise, gets, raise_if, ◌>>=◌, continue, transaction,
  settle,
}
use grid_node_registry.Registry.Keeps.{After, Keeps}

pub record Reads {A : Type 0} (m : Session A) : Type 0 where
  pub at : (t : Tables) → (m t).1 ≡ t

module _ {A : Type 0} where
  pub Reads-pure : (a : A) → Reads (pure a)
  unfolding pure
  Reads-pure a = record { at = λ t. refl }

  pub Reads-raise : (e : Error) → Reads (raise {A = A} e)
  unfolding raise
  Reads-raise e = record { at = λ t. refl }

  pub Reads-gets : (f : Tables → A) → Reads (gets f)
  unfolding gets
  Reads-gets f = record { at = λ t. refl }

  kept : (P : Tables → Type 0) (t : Tables) (r : Result A × Tables) → r.1 ≡ t → P t → After P r
  kept P t (ok a, u) e h = subst P (sym e) h
  kept P t (err x, u) e h = tt

  pub Reads-Keeps : (P : Tables → Type 0) (m : Session A) → Reads m → Keeps P P m
  Reads-Keeps P m r = record { at = λ t h. kept P t (m t) (r.at t) h }

pub Reads-raise_if : (b : Bool) (e : Error) → Reads (raise_if b e)
unfolding raise_if
Reads-raise_if true e = Reads-raise e
Reads-raise_if false e = Reads-pure tt

module _ {A B : Type 0} where
  read_on :
      (f : A → Session B) (t : Tables) (r : Result A × Tables)
      → r.1 ≡ t
      → ((a : A) → Reads (f a))
      → (continue f r).1 ≡ t
  read_on f t (ok a, u) e k = (k a).at u ∙ e
  read_on f t (err x, u) e k = e

  pub Reads-bind :
      (m : Session A) (f : A → Session B) → Reads m → ((a : A) → Reads (f a)) → Reads (m >>= f)
  unfolding ◌>>=◌
  Reads-bind m f g k = record { at = λ t. read_on f t (m t) (g.at t) k }

pub Reads-of_if :
    {A : Type 0} (b : Bool) (m n : Session A) → Reads m → Reads n → Reads (if b then m else n)
Reads-of_if true m n g h = g
Reads-of_if false m n g h = h

pub ruleset reading_rules = (Reads-pure, Reads-raise, Reads-gets, Reads-raise_if, Reads-bind)

-- ---- sessions that write all or nothing

-- An exception leaves the tables as they were.
pub record IsAtomic {A : Type 0} (m : Session A) : Type 0 where
  pub at : (t : Tables) (e : Error) → (m t).0 ≡ err e → (m t).1 ≡ t

module _ {A : Type 0} where
  rolled_back :
      (t : Tables) (r : Result A × Tables) (e : Error) → (settle t r).0 ≡ err e → (settle t r).1 ≡ t
  rolled_back t (ok a, u) e h = ground arith
  rolled_back t (err x, u) e h = refl

  pub transaction-IsAtomic : (m : Session A) → IsAtomic (transaction m)
  unfolding transaction
  transaction-IsAtomic m = record { at = λ t e h. rolled_back t (m t) e h }

module _ {A B : Type 0} where
  undone :
      (f : A → Session B) (t : Tables) (r : Result A × Tables) (e : Error)
      → r.1 ≡ t
      → ((a : A) → IsAtomic (f a))
      → (continue f r).0 ≡ err e
      → (continue f r).1 ≡ t
  undone f t (ok a, u) e same k h = (k a).at u e h ∙ same
  undone f t (err x, u) e same k h = same

  pub IsAtomic-after_read :
      (m : Session A) (f : A → Session B)
      → Reads m
      → ((a : A) → IsAtomic (f a))
      → IsAtomic (m >>= f)
  unfolding ◌>>=◌
  IsAtomic-after_read m f r k = record { at = λ t e h. undone f t (m t) e (r.at t) k h }
