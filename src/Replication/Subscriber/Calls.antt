-- ===== src/Replication/Subscriber/Calls.antt =====
-- pkg/vendors/postgres/cdc/subscriber.go: a subscriber that is used in any order.
use gpool.Base.{List, [], ◌∷◌, Bytes}
use gpool.Replication.Subscriber.{Server, Postgres}
use gpool.Replication.Subscriber.Methods.{
  subscribe_from, add_tables, remove_tables, sync_tables, verify_table, create_slot, drop_slot,
  create_publication, drop_publication, close_stream, close,
}

-- A call of a method; `closes_stream` is a consumer's, of the stream it was given.
pub data Call : Type 0 where
  subscribes : Bytes → Call
  adds : List Bytes → Call
  removes : List Bytes → Call
  syncs : List Bytes → Call
  verifies : Bytes → Call
  creates_slot : Bytes → Call
  drops_slot : Bytes → Call
  creates_publication : Bytes → List Bytes → Call
  drops_publication : Bytes → Call
  closes_stream : Call
  closes : Call

module _ {S : Type 0} (srv : Server S) where
  unfoldable pub step : Call → Postgres S → Postgres S
  step (subscribes after) p = (subscribe_from srv after p).0
  step (adds tables) p = (add_tables srv tables p).0
  step (removes tables) p = (remove_tables srv tables p).0
  step (syncs tables) p = (sync_tables srv tables p).0
  step (verifies table) p = (verify_table srv table p).0
  step (creates_slot name) p = (create_slot srv name p).0
  step (drops_slot name) p = (drop_slot srv name p).0
  step (creates_publication name tables) p = (create_publication srv name tables p).0
  step (drops_publication name) p = (drop_publication srv name p).0
  step closes_stream p = close_stream srv p
  step closes p = close srv p

  unfoldable pub run : List Call → Postgres S → Postgres S
  run [] p = p
  run (call ∷ calls) p = run calls (step call p)
