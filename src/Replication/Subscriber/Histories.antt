-- ===== src/Replication/Subscriber/Histories.antt =====
-- pkg/vendors/postgres/cdc/subscriber.go: a subscriber that tracks exactly what the server publishes.
use gpool.Base.{◌≢◌, sym, ap, subst, ◌≡◌, refl, ◌∙◌, Bool, List, [], ◌∷◌, Bytes}
use gpool.Replication.Statements.{
  Statement, create_for, drop_whole, no_tables, drop_whole, create_for,
}
use gpool.Replication.Catalog.{dedupe}
use gpool.Replication.Subscriber.{
  no_tables_error, closed_error, Server, Postgres, ok, M, ◌>>=◌, ◌>>◌, reading, unless_closed,
  expect_done, unless_duplicate, unless_undefined, control_conn, dial_replication, exec,
}
use gpool.Replication.Subscriber.Methods.{
  ask_drop, ask_covers, deferred, start_of, subscribe_from, is_tracking, add_missing, add_tables,
  remove_present, remove_tables, sync_to, sync_tables, found, verify_table, ensure_slot,
  create_slot, drop_slot, create_publication, drop_publication, close_stream, close,
}
use gpool.Replication.Subscriber.Outcomes.{
  ok-Ends, choose-ok, expect_done-Ends, unless_duplicate-Ends,
}
use gpool.Replication.Subscriber.Steps.{ensure_slot-Ends, drop_slot-Ends}
use gpool.Replication.Subscriber.Calls.{
  Call, subscribes, adds, removes, syncs, verifies, creates_slot, drops_slot, creates_publication,
  drops_publication, closes_stream, closes, step, run,
}
use gpool.Replication.Subscriber.Configured.{configured}
use gpool.Replication.Subscriber.Tracks.{Publishes, moved, tracking, Listed, Listed-Tracking}
use gpool.Replication.Subscriber.Published.{
  T-moved, add_missing-Listed, remove_present-Listed, sync_to-Listed,
}
use gpool.Replication.Subscriber.Agreement.{
  Agrees, Lists, of_agreeing, listed, agreed, unless_Lists, other-Agrees, subscribe_at-Lists,
  close_stream-published, close-published, close_stream-config, close-config, verify-Agrees,
}

-- A call that leaves alone the publication of this name, but for its tables.
abbrev pub Spares : Bytes → Call → Type 0
Spares name (creates_publication other tables) = other ≢ name
Spares name (drops_publication other) = other ≢ name
Spares name call = Unit {0}

abbrev pub AllSpare : Bytes → List Call → Type 0
AllSpare name [] = Unit {0}
AllSpare name (call ∷ calls) = Spares name call × AllSpare name calls

module _ {S : Type 0} (srv : Server S) (published : S → Bytes → Bytes → Bool)
    (laws : Publishes srv published) where
  step-Lists :
      (call : Call) (p : Postgres S)
      → Agrees srv published laws p.config p
      → Spares p.config.publication_name call
      → Lists srv published laws p.config (step srv call p)
  unfolding step subscribe_from add_tables remove_tables sync_tables verify_table create_slot
      drop_slot create_publication drop_publication
  step-Lists (subscribes after) p h _ =
      subscribe_at-Lists srv published laws p.config after (start_of srv p.config after) p h
  step-Lists (adds tables) p h _ =
      unless_Lists srv published laws p.config p.closed closed_error
        (reading (add_missing srv tables)) p h
        (listed srv published laws p.config _
          (add_missing-Listed srv published laws tables p.config p h))
  step-Lists (removes tables) p h _ =
      unless_Lists srv published laws p.config p.closed closed_error
        (reading (remove_present srv tables)) p h
        (listed srv published laws p.config _
          (remove_present-Listed srv published laws tables p.config p h))
  step-Lists (syncs tables) p h _ =
      let wanted : List Bytes = dedupe tables in
      unless_Lists srv published laws p.config (no_tables wanted) no_tables_error
        (unless_closed (reading (sync_to srv wanted))) p h
        (unless_Lists srv published laws p.config p.closed closed_error
          (reading (sync_to srv wanted)) p h
          (listed srv published laws p.config _ (
            sync_to-Listed srv published laws (Agrees srv published laws p.config) wanted p.config
              (tracking srv published laws p.config) (T-moved srv published laws p.config) p h)))
  step-Lists (verifies table) p h _ =
      let m : M S Bool = control_conn srv >> ask_covers srv table >>= found srv in
      unless_Lists srv published laws p.config p.closed closed_error m p h (
        agreed srv published laws p.config (m p)
          (verify-Agrees srv published laws p.config table p h))
  step-Lists (creates_slot name) p h _ =
      unless_Lists srv published laws p.config p.closed closed_error (ensure_slot srv name) p h (
        agreed srv published laws p.config _ (
          ensure_slot-Ends srv p.config (Agrees srv published laws p.config)
            (Agrees srv published laws p.config) (tracking srv published laws p.config) name p h))
  step-Lists (drops_slot name) p h _ =
      let m : M S (Unit {0}) =
        dial_replication srv >> deferred srv (ask_drop srv name >>= unless_undefined) in
      unless_Lists srv published laws p.config p.closed closed_error m p h (
        agreed srv published laws p.config (m p) (
          drop_slot-Ends srv p.config (Agrees srv published laws p.config)
            (Agrees srv published laws p.config) (tracking srv published laws p.config) name p h))
  step-Lists (creates_publication name tables) p h other =
      let statement : Statement = create_for name (dedupe tables) in
      let m : M S (Unit {0}) = control_conn srv >> exec srv statement >>= unless_duplicate in
      unless_Lists srv published laws p.config (no_tables (dedupe tables)) no_tables_error
        (unless_closed m) p h
        (unless_Lists srv published laws p.config p.closed closed_error m p h (
          agreed srv published laws p.config (m p) (
            other-Agrees srv published laws p.config statement unless_duplicate p other h
              (unless_duplicate-Ends (Agrees srv published laws p.config)))))
  step-Lists (drops_publication name) p h other =
      let m : M S (Unit {0}) = control_conn srv >> exec srv (drop_whole name) >>= expect_done in
      unless_Lists srv published laws p.config p.closed closed_error m p h (
        agreed srv published laws p.config (m p) (
          other-Agrees srv published laws p.config (drop_whole name) expect_done p other h
            (expect_done-Ends (Agrees srv published laws p.config))))
  step-Lists closes_stream p h _ = of_agreeing srv published laws p.config (close_stream srv p) (
    moved srv published laws p.config p.server _ (close_stream-published srv published laws p) h.0,
    close_stream-config srv published laws p,
  )
  step-Lists closes p h _ = of_agreeing srv published laws p.config (close srv p) (
    moved srv published laws p.config p.server _ (close-published srv published laws p) h.0,
    close-config srv published laws p,
  )

  run-Listed :
      (name : Bytes) (calls : List Call) (p : Postgres S)
      → Listed srv published laws name p
      → AllSpare name calls
      → Listed srv published laws name (run srv calls p)
  unfolding run
  run-Listed name [] p h _ = h
  run-Listed name (call ∷ calls) p h spare =
      let before = Listed-Tracking srv published laws name p h in
      let here = subst (λ n. Spares n call) (sym h.named_so) spare.0 in
      let after =
        subst (λ n. Listed srv published laws n (step srv call p)) h.named_so
          (step-Lists call p before here) in
      run-Listed name calls (step srv call p) after spare.1

  sync_tables-Lists :
      (tables : List Bytes) (p : Postgres S)
      → (sync_tables srv tables p).1 ≡ ok tt
      → Lists srv published laws p.config (sync_tables srv tables p).0
  unfolding sync_tables
  sync_tables-Lists tables p good =
      let c = p.config in
      let wanted : List Bytes = dedupe tables in
      let inner : M S (Unit {0}) = reading (sync_to srv wanted) in
      let a = choose-ok (no_tables wanted) no_tables_error (unless_closed inner) p good in
      let b = choose-ok p.closed closed_error inner p (ap (λ r. r.1) (sym a) ∙ good) in
      let e = a ∙ b in
      subst (λ r. Lists srv published laws c r.0) (sym e)
        (ok-Ends (λ q. q.config ≡ c) (Lists srv published laws c) (inner p)
          (sync_to-Listed srv published laws (λ q. q.config ≡ c) wanted c (configured srv c)
            (λ q t k _. k) p refl)
          (ap (λ r. r.1) (sym e) ∙ good))

  -- Once SyncTables has succeeded, the subscriber tracks exactly the tables that its publication has
  -- on the server, through every later sequence of calls that does not create or drop that
  -- publication as a whole, whichever of them fail, closing included. The server is taken to perform
  -- a statement that it accepts and to leave its publications alone on one that fails, so no
  -- connection is lost between a statement and its answer, and to spell a table in one way.
  pub sync_tables-Tracks :
      (tables : List Bytes) (p : Postgres S) (calls : List Call) (table : Bytes)
      → (sync_tables srv tables p).1 ≡ ok tt
      → AllSpare p.config.publication_name calls
      → let q : Postgres S = run srv calls (sync_tables srv tables p).0 in
        is_tracking srv table q ≡ published q.server p.config.publication_name table
  unfolding is_tracking
  sync_tables-Tracks tables p calls table good spare =
      (run-Listed p.config.publication_name calls (sync_tables srv tables p).0
          (sync_tables-Lists tables p good) spare).listed
        table
