-- ===== src/Tests/Turns.antt =====
-- One turn of the consumer of messages and one of the loop of snapshots, on the sample registry.
use grid_node_registry.Prelude.{refl, none, some, List, [], ◌∷◌, Text, codes}
use grid_node_registry.Registry.Session.{Refusal}
use grid_node_registry.Authority.Reachability.{create}
use grid_node_registry.Service.{RoutingEnvelope, Outgoing, apply_and_broadcast, broadcast_snapshots}
use grid_node_registry.Service.Threads.{
  consumer, snapshots, outside, entered, finished, Process, to_send, handled, snapshot_read,
  consumer_enters, consumer_applies, consumer_sends, consumer_leaves, snapshots_enter,
  snapshots_read, snapshots_send, Run, started, then_step,
}
use grid_node_registry.Service.Threads.Order.{Descending, published-Descending}
use grid_node_registry.Tests.Samples.{world, config, tables, create_ta}

abbrev no_reason : Refusal → Text
no_reason r = codes "refused"

abbrev sender : RoutingEnvelope
sender = record { from_class = none; from_alias = codes "d1.someone" }

abbrev idle : Process
idle = record {
  tables = tables;
  writes = 0;
  forest_lock = none;
  consuming = outside;
  snapshotting = outside;
  published = [];
}

abbrev inside : Process
inside = record idle { forest_lock = some consumer; consuming = entered }

abbrev applied : Process
applied = handled world config no_reason sender (create create_ta) [] inside

abbrev answers : List Outgoing
answers = to_send (apply_and_broadcast world config no_reason sender (create create_ta) [] tables).0

abbrev answered : Process
answered = record applied { consuming = finished; published = (1, answers) ∷ applied.published }

abbrev left : Process
left = record answered { forest_lock = none; consuming = outside }

abbrev waiting : Process
waiting = record left { forest_lock = some snapshots; snapshotting = entered }

abbrev root : Text
root = codes "d1.keene"

abbrev read : Process
read = snapshot_read world config no_reason root waiting

abbrev snapshot : List Outgoing
snapshot = (broadcast_snapshots world (root ∷ []) waiting.tables).0

abbrev told : Process
told = record read { snapshotting = finished; published = (1, snapshot) ∷ read.published }

turns : Run world config no_reason tables told
unfolding handled snapshot_read
turns =
    then_step read told
      (then_step waiting read
        (then_step left waiting
          (then_step answered left
            (then_step applied answered
              (then_step inside applied
                (then_step idle inside started (consumer_enters idle refl refl))
                (consumer_applies inside sender (create create_ta) [] refl))
              (consumer_sends applied 1 answers refl))
            (consumer_leaves answered refl))
          (snapshots_enter left refl refl))
        (snapshots_read waiting root refl))
      (snapshots_send read 1 snapshot refl)

published-Descending_example : Descending told.published
published-Descending_example = published-Descending world config no_reason tables told turns
