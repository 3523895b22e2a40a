-- ===== src/Service/Threads.antt =====
-- The two threads of `GnrRabbit` in src/gnr/gnr_rabbit.py, the consumer of messages and the loop of
-- snapshots, and the lock that each holds while it reads or writes the registry and sends. What is sent
-- is kept with the number of writes that the registry had seen, the newest first.
pub mod Order
use grid_node_registry.Prelude.{ℕ, suc, ◌≡◌, Option, none, some, List, [], ◌∷◌, Text}
use grid_node_registry.Registry.Models.{Tables}
use grid_node_registry.Registry.Session.{Result, ok, err, Refusal}
use grid_node_registry.Authority.{World, Config}
use grid_node_registry.Authority.Reachability.{Command}
use grid_node_registry.Service.{RoutingEnvelope, Outgoing, apply_and_broadcast, broadcast_snapshots}

pub data Thread : Type 0 where
  consumer snapshots : Thread

-- Where a thread is: outside of the lock, inside, with messages to send, or done with them.
pub data Phase : Type 0 where
  outside entered finished : Phase
  ready : ℕ → List Outgoing → Phase

pub record Process : Type 0 where
  pub tables : Tables
  pub writes : ℕ
  pub forest_lock : Option Thread
  pub consuming : Phase
  pub snapshotting : Phase
  pub published : List (ℕ × List Outgoing)

-- An exception leaves nothing to send.
abbrev pub to_send : Result (List Outgoing) → List Outgoing
to_send (ok sent) = sent
to_send (err e) = []

module _ (w : World) (c : Config) (reason_text : Refusal → Text) where
  -- with self.forest_lock: self.apply_and_broadcast(envelope, cmd, chash)
  unfoldable pub handled : RoutingEnvelope → Command → Text → Process → Process
  handled envelope cmd chash p =
      let (outcome, u) = apply_and_broadcast w c reason_text envelope cmd chash p.tables in
      record p {
        tables = u;
        writes = suc p.writes;
        consuming = ready (suc p.writes) (to_send outcome);
      }

  -- with self.forest_lock: self.broadcast_snapshot(root)
  unfoldable pub snapshot_read : Text → Process → Process
  snapshot_read root p = record p {
    snapshotting = ready p.writes (broadcast_snapshots w (root ∷ []) p.tables).0;
  }

  pub data Step : Process → Process → Type 0 where
    consumer_enters :
        (p : Process)
        → p.forest_lock ≡ none
        → p.consuming ≡ outside
        → Step p (record p { forest_lock = some consumer; consuming = entered })
    consumer_applies :
        (p : Process) (envelope : RoutingEnvelope) (cmd : Command) (chash : Text)
        → p.consuming ≡ entered
        → Step p (handled envelope cmd chash p)
    consumer_sends :
        (p : Process) (n : ℕ) (sent : List Outgoing)
        → p.consuming ≡ ready n sent
        → Step p (record p { consuming = finished; published = (n, sent) ∷ p.published })
    consumer_leaves :
        (p : Process)
        → p.consuming ≡ finished
        → Step p (record p { forest_lock = none; consuming = outside })
    snapshots_enter :
        (p : Process)
        → p.forest_lock ≡ none
        → p.snapshotting ≡ outside
        → Step p (record p { forest_lock = some snapshots; snapshotting = entered })
    snapshots_read :
        (p : Process) (root : Text) → p.snapshotting ≡ entered → Step p (snapshot_read root p)
    snapshots_send :
        (p : Process) (n : ℕ) (sent : List Outgoing)
        → p.snapshotting ≡ ready n sent
        → Step p (record p { snapshotting = finished; published = (n, sent) ∷ p.published })
    snapshots_leave :
        (p : Process)
        → p.snapshotting ≡ finished
        → Step p (record p { forest_lock = none; snapshotting = outside })

  -- What a process with these tables can come to.
  pub data Run (t : Tables) : Process → Type 0 where
    started : Run t (record {
      tables = t;
      writes = 0;
      forest_lock = none;
      consuming = outside;
      snapshotting = outside;
      published = [];
    })
    then_step : (p q : Process) → Run t p → Step p q → Run t q
