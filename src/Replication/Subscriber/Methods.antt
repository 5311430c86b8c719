-- ===== src/Replication/Subscriber/Methods.antt =====
-- pkg/vendors/postgres/cdc/subscriber.go: the methods of a subscriber.
use gpool.Base.{
  ℕ, Bool, true, false, not, List, [], ◌∷◌, ◌++◌, Option, none, some, leb, if◌then◌else◌, Bytes,
}
use gpool.Replication.Catalog.{
  quote_literal, split_qualified_name, has, is_empty, dedupe, difference, intersection,
}
use gpool.Replication.Statements.{
  Statement, Config, create_for, set_to, add_to, drop_from, drop_whole, no_tables,
}
use gpool.Replication.Subscriber.{
  Reply, done, duplicate_object, undefined_object, refused, already_subscribed,
  position_behind_slot, no_tables_error, invalid_config, server_error, Server, Postgres, Result, ok,
  err, M, ◌>>=◌, ◌>>◌, return, fail, when, choose, close_conn, control_conn, dial_replication, exec,
  replied, expect_done, reading, unless_closed, unless_duplicate, unless_undefined,
}

module _ {S : Type 0} (srv : Server S) where
  -- `defer closeConn(conn)`.
  abbrev pub then_close : {A : Type 0} → Postgres S × Result A → Postgres S × Result A
  then_close (p, r) = (close_conn srv p, r)

  abbrev pub deferred : {A : Type 0} → M S A → M S A
  deferred m p = then_close (m p)

  unfoldable pub ask_slot : Bytes → M S Reply
  ask_slot name p = replied srv p (srv.create_slot name p.server)

  unfoldable pub ensure_slot : Bytes → M S (Unit {0})
  ensure_slot name = dial_replication srv >> deferred (ask_slot name >>= unless_duplicate)

  unfoldable pub reconcile_publication : Bytes → List Bytes → Reply → M S (Unit {0})
  reconcile_publication name tables done = return tt
  reconcile_publication name tables duplicate_object = exec srv (set_to name tables) >>= expect_done
  reconcile_publication name tables undefined_object = fail server_error
  reconcile_publication name tables refused = fail server_error

  unfoldable pub publish : Config → M S (Unit {0})
  publish c = choose (no_tables c.tables) (fail no_tables_error) (
      control_conn srv
      >> exec srv (create_for c.publication_name c.tables)
      >>= reconcile_publication c.publication_name c.tables)

  unfoldable pub ensure_publication : M S (Unit {0})
  ensure_publication = reading publish

  -- cdc.NoPosition is the empty text.
  unfoldable pub parse_position : Bytes → Option ℕ
  parse_position [] = some 0
  parse_position (b ∷ text) = srv.parse_lsn (b ∷ text)

  abbrev pub parsed : Option ℕ → M S (Option ℕ)
  parsed none = fail invalid_config
  parsed (some lsn) = return (some lsn)

  abbrev pub confirmed_at : Option Bytes → M S (Option ℕ)
  confirmed_at none = fail server_error
  confirmed_at (some []) = return none
  confirmed_at (some (b ∷ text)) = parsed (parse_position (b ∷ text))

  unfoldable pub ask_confirmed : M S (Option Bytes)
  ask_confirmed p = replied srv p (srv.confirmed p.config.slot_name p.server)

  -- The slot's confirmed position, if it has one; the text is empty for NULL and for no slot.
  unfoldable pub slot_confirmed : M S (Option ℕ)
  slot_confirmed = control_conn srv >> ask_confirmed >>= confirmed_at

  abbrev pub not_behind : ℕ → Option ℕ → M S (Unit {0})
  not_behind start none = return tt
  not_behind start (some lsn) = choose (leb lsn start) (return tt) (fail position_behind_slot)

  unfoldable pub check_resumable : ℕ → M S (Unit {0})
  check_resumable start = slot_confirmed >>= not_behind start

  unfoldable pub start_replication : ℕ → M S Bool
  start_replication start p = replied srv p (
      srv.start_replication p.config.slot_name (quote_literal p.config.publication_name) start
        p.server)

  -- What follows a START_REPLICATION that was accepted, or not.
  unfoldable pub open_stream : ℕ → Bool → M S (Unit {0})
  open_stream start false p = (close_conn srv p, err server_error)
  open_stream start true p =
      (record p { stream = true; streaming = true; live = some start }, ok tt)

  -- `SubscribeFrom` up to the replication connection, and then all of it.
  unfoldable pub prepare : Bytes → ℕ → Config → M S (Unit {0})
  prepare after start c =
      when c.create_publication ensure_publication
      >> when c.create_slot (ensure_slot c.slot_name)
      >> when (not (is_empty after)) (check_resumable start)

  unfoldable pub begin_stream : Bytes → ℕ → M S (Unit {0})
  begin_stream after start =
      reading (prepare after start)
      >> dial_replication srv
      >> start_replication start
      >>= open_stream start

  unfoldable pub unless_streaming : M S (Unit {0}) → M S (Unit {0})
  unless_streaming m p = choose p.streaming (fail already_subscribed) m p

  -- Where the stream starts: the position asked for, or the configured one.
  unfoldable pub start_of : Config → Bytes → Option ℕ
  start_of c [] = some c.start_lsn
  start_of c (b ∷ after) = parse_position (b ∷ after)

  unfoldable pub subscribe_at : Bytes → Option ℕ → M S (Unit {0})
  subscribe_at after none = fail invalid_config
  subscribe_at after (some start) = unless_closed (unless_streaming (begin_stream after start))

  unfoldable pub subscribe_from : Bytes → M S (Unit {0})
  subscribe_from after = reading λ c. subscribe_at after (start_of c after)

  unfoldable pub subscribe : M S (Unit {0})
  subscribe = subscribe_from []

  abbrev pub set_tables : List Bytes → M S (Unit {0})
  set_tables tables p = (record p { config = record p.config { tables = tables } }, ok tt)

  -- A statement, and the local list once the server has accepted it.
  unfoldable pub alter : Statement → List Bytes → M S (Unit {0})
  alter statement tables =
      control_conn srv >> exec srv statement >>= expect_done >> set_tables tables

  unfoldable pub add_missing : List Bytes → Config → M S (Unit {0})
  add_missing tables c =
      let missing : List Bytes = difference (dedupe tables) c.tables in
      choose (no_tables missing) (return tt)
        (alter (add_to c.publication_name missing) (c.tables ++ missing))

  unfoldable pub add_tables : List Bytes → M S (Unit {0})
  add_tables tables = unless_closed (reading (add_missing tables))

  unfoldable pub remove_present : List Bytes → Config → M S (Unit {0})
  remove_present tables c =
      let present : List Bytes = intersection (dedupe tables) c.tables in
      choose (no_tables present) (return tt)
        (alter (drop_from c.publication_name present) (difference c.tables present))

  unfoldable pub remove_tables : List Bytes → M S (Unit {0})
  remove_tables tables = unless_closed (reading (remove_present tables))

  unfoldable pub sync_to : List Bytes → Config → M S (Unit {0})
  sync_to wanted c = alter (set_to c.publication_name wanted) wanted

  unfoldable pub sync_tables : List Bytes → M S (Unit {0})
  sync_tables tables =
      let wanted : List Bytes = dedupe tables in
      choose (no_tables wanted) (fail no_tables_error) (unless_closed (reading (sync_to wanted)))

  unfoldable pub is_tracking : Bytes → Postgres S → Bool
  is_tracking table p = has p.config.tables table

  unfoldable pub get_tables : Postgres S → List Bytes
  get_tables p = p.config.tables

  abbrev pub found : Option Bool → M S Bool
  found none = fail server_error
  found (some b) = return b

  unfoldable pub ask_covers : Bytes → M S (Option Bool)
  ask_covers table p = replied srv p (
      srv.covers p.config.publication_name (split_qualified_name table).0
        (split_qualified_name table).1 p.server)

  unfoldable pub verify_table : Bytes → M S Bool
  verify_table table = unless_closed (control_conn srv >> ask_covers table >>= found)

  unfoldable pub create_slot : Bytes → M S (Unit {0})
  create_slot name = unless_closed (ensure_slot name)

  unfoldable pub ask_drop : Bytes → M S Reply
  ask_drop name p = replied srv p (srv.drop_slot name p.server)

  unfoldable pub drop_slot : Bytes → M S (Unit {0})
  drop_slot name =
      unless_closed (dial_replication srv >> deferred (ask_drop name >>= unless_undefined))

  unfoldable pub create_publication : Bytes → List Bytes → M S (Unit {0})
  create_publication name tables =
      let wanted : List Bytes = dedupe tables in
      choose (no_tables wanted) (fail no_tables_error)
        (unless_closed (control_conn srv >> exec srv (create_for name wanted) >>= unless_duplicate))

  unfoldable pub drop_publication : Bytes → M S (Unit {0})
  drop_publication name =
      unless_closed (control_conn srv >> exec srv (drop_whole name) >>= expect_done)

  unfoldable pub release_stream : Postgres S → Postgres S
  release_stream p = record p { stream = false; streaming = false }

  -- `Close` of the stream, by its consumer or by the subscriber: once.
  unfoldable pub close_stream : Postgres S → Postgres S
  close_stream p = elim p.live [
    | none ↦ p
    | some start ↦ release_stream (close_conn srv (record p { live = none }))
  ]

  unfoldable pub close_control : Bool → Postgres S → Postgres S
  close_control held p = if held then close_conn srv p else p

  -- `Close`, less what it reports of errors from closing.
  unfoldable pub close : Postgres S → Postgres S
  close p =
      let q : Postgres S = record p { closed = true; stream = false; ctrl = false } in
      let r : Postgres S = (if p.stream then close_stream q else q) in
      if p.closed then p else close_control p.ctrl r
