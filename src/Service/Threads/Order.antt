-- ===== src/Service/Threads/Order.antt =====
-- The order of what the threads of src/gnr/gnr_rabbit.py send.
use grid_node_registry.Prelude.{
  ℕ, suc, ◌≤◌, ◌≡◌, ◌≢◌, refl, sym, subst, ◌∙◌, arith, Option, some, List, [], ◌∷◌, Text, All,
}
use mathlib.Core.Option.{some-injective}
use grid_node_registry.Registry.Models.{Tables}
use grid_node_registry.Registry.Session.{Refusal}
use grid_node_registry.Authority.{World, Config}
use grid_node_registry.Service.{Outgoing}
use grid_node_registry.Service.Threads.{
  Thread, consumer, snapshots, Phase, outside, entered, finished, ready, Process, handled,
  snapshot_read, Step, consumer_enters, consumer_applies, consumer_sends, consumer_leaves,
  snapshots_enter, snapshots_read, snapshots_send, snapshots_leave, Run, started, then_step,
}

-- A thread that is not outside holds the lock, and what it is about to send is up to date.
abbrev Owned : Thread → Option Thread → ℕ → Phase → Type 0
Owned thread lock writes outside = Unit
Owned thread lock writes entered = lock ≡ some thread
Owned thread lock writes finished = lock ≡ some thread
Owned thread lock writes (ready n sent) = (lock ≡ some thread) × (n ≡ writes)

-- The newest first, each made after no fewer writes than those before it.
abbrev pub Descending : List (ℕ × List Outgoing) → Type 0
Descending [] = Unit
Descending (m ∷ ms) = All (λ (k : ℕ × List Outgoing). k.0 ≤ m.0) ms × Descending ms

record IsOrderly (p : Process) : Type 0 where
  consumer_owned : Owned consumer p.forest_lock p.writes p.consuming
  snapshots_owned : Owned snapshots p.forest_lock p.writes p.snapshotting
  descending : Descending p.published
  seen : All (λ (k : ℕ × List Outgoing). k.0 ≤ p.writes) p.published

-- A thread without the lock is outside, whatever the other one does.
elsewhere :
    (thread : Thread) (lock later : Option Thread) (writes now : ℕ) (phase : Phase)
    → Owned thread lock writes phase
    → (lock ≡ some thread → ⊥)
    → Owned thread later now phase
elsewhere thread lock later writes now outside o h = tt
elsewhere thread lock later writes now entered o h = absurd (h o)
elsewhere thread lock later writes now finished o h = absurd (h o)
elsewhere thread lock later writes now (ready n sent) o h = absurd (h o.0)

other : (lock : Option Thread) (a b : Thread) → a ≢ b → lock ≡ some a → lock ≡ some b → ⊥
other lock a b d e f = d (some-injective a b (sym e ∙ f))

two_threads : consumer ≢ snapshots
two_threads e = cc e

module _ (p : Process) (h : IsOrderly p) where
  consumer_at : (phase : Phase) → p.consuming ≡ phase → Owned consumer p.forest_lock p.writes phase
  consumer_at phase e = subst (Owned consumer p.forest_lock p.writes) e h.consumer_owned

  snapshots_at :
      (phase : Phase) → p.snapshotting ≡ phase → Owned snapshots p.forest_lock p.writes phase
  snapshots_at phase e = subst (Owned snapshots p.forest_lock p.writes) e h.snapshots_owned

  consumer_out :
      (later : Option Thread) (now : ℕ)
      → (p.forest_lock ≡ some consumer → ⊥)
      → Owned consumer later now p.consuming
  consumer_out later now =
      elsewhere consumer p.forest_lock later p.writes now p.consuming h.consumer_owned

  snapshots_out :
      (later : Option Thread) (now : ℕ)
      → (p.forest_lock ≡ some snapshots → ⊥)
      → Owned snapshots later now p.snapshotting
  snapshots_out later now =
      elsewhere snapshots p.forest_lock later p.writes now p.snapshotting h.snapshots_owned

  not_snapshots : p.forest_lock ≡ some consumer → p.forest_lock ≡ some snapshots → ⊥
  not_snapshots = other p.forest_lock consumer snapshots two_threads

  not_consumer : p.forest_lock ≡ some snapshots → p.forest_lock ≡ some consumer → ⊥
  not_consumer e f = not_snapshots f e

  -- A message that is up to date goes to the front.
  sent_last : (n : ℕ) (sent : List Outgoing) → n ≡ p.writes → Descending ((n, sent) ∷ p.published)
  sent_last n sent e = (
    subst (λ m. All (λ (k : ℕ × List Outgoing). k.0 ≤ m) p.published) (sym e) h.seen,
    h.descending,
  )

  sent_seen :
      (n : ℕ) (sent : List Outgoing)
      → n ≡ p.writes
      → All (λ (k : ℕ × List Outgoing). k.0 ≤ p.writes) ((n, sent) ∷ p.published)
  sent_seen n sent e = (omega arith, h.seen)

later_seen :
    (n : ℕ) (ms : List (ℕ × List Outgoing))
    → All (λ (k : ℕ × List Outgoing). k.0 ≤ n) ms
    → All (λ (k : ℕ × List Outgoing). k.0 ≤ suc n) ms
later_seen n [] h = tt
later_seen n (m ∷ ms) (e, h) = (omega arith, later_seen n ms h)

module _ (w : World) (c : Config) (reason_text : Refusal → Text) where
  Step-IsOrderly : (p q : Process) → Step w c reason_text p q → IsOrderly p → IsOrderly q
  unfolding handled snapshot_read
  Step-IsOrderly _ _ (consumer_enters p free idle) h = record {
    consumer_owned = refl;
    snapshots_owned = snapshots_out p h _ _ (λ e. cc e);
    descending = h.descending;
    seen = h.seen;
  }
  Step-IsOrderly _ _ (consumer_applies p envelope cmd chash inside) h = record {
    consumer_owned = (consumer_at p h entered inside, refl);
    snapshots_owned = snapshots_out p h _ _ (not_snapshots p h (consumer_at p h entered inside));
    descending = h.descending;
    seen = later_seen p.writes p.published h.seen;
  }
  Step-IsOrderly _ _ (consumer_sends p n sent inside) h = record {
    consumer_owned = (consumer_at p h (ready n sent) inside).0;
    snapshots_owned = h.snapshots_owned;
    descending = sent_last p h n sent (consumer_at p h (ready n sent) inside).1;
    seen = sent_seen p h n sent (consumer_at p h (ready n sent) inside).1;
  }
  Step-IsOrderly _ _ (consumer_leaves p inside) h = record {
    consumer_owned = tt;
    snapshots_owned = snapshots_out p h _ _ (not_snapshots p h (consumer_at p h finished inside));
    descending = h.descending;
    seen = h.seen;
  }
  Step-IsOrderly _ _ (snapshots_enter p free idle) h = record {
    consumer_owned = consumer_out p h _ _ (λ e. cc e);
    snapshots_owned = refl;
    descending = h.descending;
    seen = h.seen;
  }
  Step-IsOrderly _ _ (snapshots_read p root inside) h = record {
    consumer_owned = h.consumer_owned;
    snapshots_owned = (snapshots_at p h entered inside, refl);
    descending = h.descending;
    seen = h.seen;
  }
  Step-IsOrderly _ _ (snapshots_send p n sent inside) h = record {
    consumer_owned = h.consumer_owned;
    snapshots_owned = (snapshots_at p h (ready n sent) inside).0;
    descending = sent_last p h n sent (snapshots_at p h (ready n sent) inside).1;
    seen = sent_seen p h n sent (snapshots_at p h (ready n sent) inside).1;
  }
  Step-IsOrderly _ _ (snapshots_leave p inside) h = record {
    consumer_owned = consumer_out p h _ _ (not_consumer p h (snapshots_at p h finished inside));
    snapshots_owned = tt;
    descending = h.descending;
    seen = h.seen;
  }

  Run-IsOrderly : (t : Tables) (p : Process) → Run w c reason_text t p → IsOrderly p
  Run-IsOrderly t _ started = record {
    consumer_owned = tt;
    snapshots_owned = tt;
    descending = tt;
    seen = tt;
  }
  Run-IsOrderly t _ (then_step p q r s) = Step-IsOrderly p q s (Run-IsOrderly t p r)

  -- However the two threads interleave, the service never sends what it has read before a write after
  -- what it has read later: in the order of sending, the number of writes seen does not decrease.
  pub published-Descending :
      (t : Tables) (p : Process) → Run w c reason_text t p → Descending p.published
  published-Descending t p r = (Run-IsOrderly t p r).descending
