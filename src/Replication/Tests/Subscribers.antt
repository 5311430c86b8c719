-- ===== src/Replication/Tests/Subscribers.antt =====
-- The theorems on the subscriber, with a server that keeps the publications it is told.
use gpool.Base.{
  ℕ, ◌≡◌, ◌≢◌, refl, inl, inr, Bool, true, false, not, ◌&&◌, ◌||◌, List, [], ◌∷◌, some, pos,
  if◌then◌else◌, Bytes, codes, same_bytes, same_bytes_refl, same_bytes→eq, Bool-cases,
}
use gpool.Replication.Catalog.{has, dedupe, dedupe_from}
use gpool.Replication.Statements.{
  Statement, create_for, set_to, add_to, drop_from, drop_whole, Config, with_defaults,
}
use gpool.Replication.Subscriber.{
  done, Server, Postgres, new, close_conn, control_conn, dial_replication, exec,
}
use gpool.Replication.Subscriber.Methods.{
  subscribe_from, subscribe_at, start_of, parse_position, unless_streaming, begin_stream, prepare,
  check_resumable, slot_confirmed, ask_confirmed, start_replication, open_stream, sync_tables,
  sync_to, alter, is_tracking, ensure_slot, ask_slot,
}
use gpool.Replication.Subscriber.Calls.{Call, subscribes, adds, removes, closes_stream, closes, run}
use gpool.Replication.Subscriber.Lifetime.{IsSound, run-IsSound_new}
use gpool.Replication.Subscriber.Resume.{Resumed, subscribe_from-Resumed}
use gpool.Replication.Subscriber.Tracks.{Performs, Publishes}
use gpool.Replication.Subscriber.Histories.{sync_tables-Tracks}

abbrev View : Type 0
View = Bytes → Bytes → Bool

abbrev update : Bytes → (Bytes → Bool) → View → View
update name f old other table = if same_bytes other name then f table else old other table

abbrev perform : Statement → View → View
perform (create_for name tables) s = update name (has tables) s
perform (set_to name tables) s = update name (has tables) s
perform (add_to name tables) s = update name (λ t. s name t || has tables t) s
perform (drop_from name tables) s = update name (λ t. s name t && not (has tables t)) s
perform (drop_whole name) s = update name (λ t. false) s

-- Its slot has confirmed the position "1", which is the number 5, as every position is.
abbrev server : Server View
server = record {
  parses_config = λ text. true;
  parse_lsn = λ text. some 5;
  connect = λ text s. (s, true);
  connect_replication = λ text s. (s, true);
  is_closed = λ s. false;
  close = λ s. (s, true);
  exec = λ statement s. (perform statement s, done);
  confirmed = λ name s. (s, some (49 ∷ []));
  covers = λ name schema table s. (s, some (s name table));
  create_slot = λ name s. (s, done);
  drop_slot = λ name s. (s, done);
  start_replication = λ slot names start s. (s, true);
}

update-same :
    (name : Bytes) (f : Bytes → Bool) (s : View) (table : Bytes)
    → update name f s name table ≡ f table
update-same name f s table = rw (same_bytes_refl name) refl

update_elsewhere :
    (name : Bytes) (f : Bytes → Bool) (s : View) (other table : Bytes)
    → other ≢ name
    → update name f s other table ≡ s other table
update_elsewhere name f s other table h = elim (Bool-cases (same_bytes other name)) [
  | inl e ↦ absurd (h (same_bytes→eq other name e))
  | inr e ↦ rw e refl
]

update-other :
    (name : Bytes) (f : Bytes → Bool) (s : View) (other : Bytes)
    → other ≢ name
    → update name f s other ≡ s other
update-other name f s other h = λ i table. update_elsewhere name f s other table h i

perform-Performs :
    (statement : Statement) (s : View) → Performs s (perform statement s) statement done
perform-Performs (create_for name tables) s =
    (update-same name (has tables) s, update-other name (has tables) s)
perform-Performs (set_to name tables) s =
    (update-same name (has tables) s, update-other name (has tables) s)
perform-Performs (add_to name tables) s = (
  update-same name (λ t. s name t || has tables t) s,
  update-other name (λ t. s name t || has tables t) s,
)
perform-Performs (drop_from name tables) s = (
  update-same name (λ t. s name t && not (has tables t)) s,
  update-other name (λ t. s name t && not (has tables t)) s,
)
perform-Performs (drop_whole name) s =
    (update-same name (λ t. false) s, update-other name (λ t. false) s)

abbrev view : View → View
view s = s

server-Publishes : Publishes server view
server-Publishes = record {
  connecting = λ text s. refl;
  walsender = λ text s. refl;
  closing = λ s. refl;
  reading_slot = λ name s. refl;
  reading_tables = λ name schema table s. refl;
  creating_slot = λ name s. refl;
  dropping_slot = λ name s. refl;
  starting = λ slot names start s. refl;
  executing = perform-Performs;
}

abbrev config : Config
config = record {
  conn_string = codes "db";
  slot_name = codes "slot";
  publication_name = codes "p";
  tables = [];
  create_slot = true;
  create_publication = false;
  start_lsn = 0;
  standby_interval = pos 0;
  buffer = pos 0;
}

abbrev nothing : View
nothing name table = false

abbrev usage : List Call
usage = subscribes [] ∷ subscribes [] ∷ adds (codes "t" ∷ []) ∷ closes_stream ∷ closes ∷ []

run-IsSound_new_example : IsSound (run server usage (new config nothing).1)
run-IsSound_new_example = run-IsSound_new server config nothing usage

abbrev fresh : Postgres View
unfolding new
fresh = (new config nothing).1

abbrev later : List Call
later = adds (codes "b" ∷ []) ∷ removes (codes "a" ∷ []) ∷ closes ∷ []

sync_tables-Tracks_example :
    is_tracking server (codes "b") (run server later (sync_tables server (codes "a" ∷ []) fresh).0)
    ≡ (run server later (sync_tables server (codes "a" ∷ []) fresh).0).server
        (codes "p")
        (codes "b")
unfolding sync_tables sync_to alter exec control_conn dedupe dedupe_from new with_defaults
sync_tables-Tracks_example =
    sync_tables-Tracks server view server-Publishes (codes "a" ∷ []) fresh later (codes "b") refl
      (tt, (tt, (tt, tt)))

subscribe_from-Resumed_example :
    (start : ℕ) × (server.parse_lsn (50 ∷ []) ≡ some start)
    × (fresh.closed ≡ false)
    × (fresh.streaming ≡ false)
    × Resumed server fresh (50 ∷ []) start (subscribe_from server (50 ∷ []) fresh).0
unfolding subscribe_from start_of parse_position subscribe_at unless_streaming begin_stream prepare
    check_resumable slot_confirmed ask_confirmed start_replication open_stream control_conn
    dial_replication ensure_slot ask_slot close_conn new with_defaults
subscribe_from-Resumed_example = subscribe_from-Resumed server 50 [] fresh refl
