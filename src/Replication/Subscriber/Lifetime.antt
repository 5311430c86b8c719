-- ===== src/Replication/Subscriber/Lifetime.antt =====
-- pkg/vendors/postgres/cdc/subscriber.go: the connections of a subscriber over its lifetime.
use gpool.Base.{
  ℕ, ◌+◌, ◌≡◌, refl, ◌&&◌, ◌||◌, ◌==◌, Bool, true, false, not, List, [], ◌∷◌, Option, none, some,
  arith, Bytes,
}
use gpool.Replication.Statements.{Statement, Config, no_tables, drop_whole, create_for}
use gpool.Replication.Catalog.{dedupe}
use gpool.Replication.Subscriber.{
  Error, no_tables_error, closed_error, already_subscribed, Server, Postgres, Result, M, ◌>>=◌,
  ◌>>◌, fail, choose, reading, unless_closed, expect_done, unless_duplicate, unless_undefined,
  close_conn, control_conn, dial_replication, exec, new,
}
use gpool.Replication.Subscriber.Methods.{
  ask_drop, ask_covers, open_stream, begin_stream, deferred, unless_streaming, subscribe_at,
  start_of, subscribe_from, add_missing, add_tables, remove_present, remove_tables, sync_to,
  sync_tables, found, verify_table, ensure_slot, create_slot, drop_slot, create_publication,
  drop_publication, release_stream, close_stream, close_control, close,
}
use gpool.Replication.Subscriber.Outcomes.{
  Ends, expect_done-Ends, unless_duplicate-Ends, map-Ends, either-Ends,
}
use gpool.Replication.Subscriber.Steps.{ensure_slot-Ends, drop_slot-Ends, begin_stream-Ends}
use gpool.Replication.Subscriber.Calls.{
  Call, subscribes, adds, removes, syncs, verifies, creates_slot, drops_slot, creates_publication,
  drops_publication, closes_stream, closes, step, run,
}
use gpool.Replication.Subscriber.Sound.{
  one, is_some, Holds, close_conn-Holds, Sized, sized, statement-Ends, alter-Ends, add_missing-Ends,
  remove_present-Ends, verify-Ends,
}

-- As many connections were closed as dialled, but for the control connection and that of the one
-- stream; the subscriber's record of its stream is right; and a closed one has none left open.
pub record IsSound {S : Type 0} (p : Postgres S) : Type 0 where
  pub balanced : p.dialled ≡ p.hung_up + (one p.ctrl + one (is_some p.live))
  pub pointed : p.stream ≡ is_some p.live
  pub guarded : p.streaming ≡ is_some p.live
  pub quiet : (p.closed && (p.ctrl || is_some p.live)) ≡ false
  pub settled_up : (p.closed && not (p.dialled == p.hung_up)) ≡ false

module _ {S : Type 0} (srv : Server S) where
  held : (p : Postgres S) → IsSound p → p.closed ≡ false → Holds false p.live 0 p
  held p h usable = record {
    closed_is = usable;
    live_is = refl;
    balanced = omega (arith, h.balanced);
    pointed = h.pointed;
    guarded = h.guarded;
  }

  Holds-IsSound : (at : Option ℕ) (p : Postgres S) → Holds false at 0 p → IsSound p
  Holds-IsSound at p h = record {
    balanced = ground (arith, h);
    pointed = ground (arith, h);
    guarded = ground (arith, h);
    quiet = ground (arith, h);
    settled_up = ground (arith, h);
  }

  settled :
      {A : Type 0} (at : Option ℕ) (r : Postgres S × Result A)
      → Ends (Holds false at 0) (Holds false at 0) r
      → IsSound r.0
  settled at r h =
      either-Ends (Holds false at 0) (Holds false at 0) IsSound r h (Holds-IsSound at)
        (Holds-IsSound at)

  choose_open :
      {A : Type 0} (b : Bool) (e : Error) (m : M S A) (p : Postgres S)
      → IsSound p
      → (b ≡ false → IsSound (m p).0)
      → IsSound (choose b (fail e) m p).0
  choose_open true e m p h g = h
  choose_open false e m p h g = g refl

  -- A method that runs only on an open subscriber, and leaves its stream as it is.
  unless_closed-IsSound :
      {A : Type 0} (m : M S A) (p : Postgres S)
      → IsSound p
      → (Holds false p.live 0 p → Ends (Holds false p.live 0) (Holds false p.live 0) (m p))
      → IsSound (unless_closed m p).0
  unless_closed-IsSound m p h g =
      choose_open p.closed closed_error m p h (λ usable. settled p.live (m p) (g (held p h usable)))

  -- With a stream open or not, there is one exactly if the last step accepted it.
  open_stream-Sound :
      (c : Config) (start : ℕ) (accepted : Bool) (q : Postgres S)
      → Sized srv false none c 1 q
      → Ends
          (Sized srv false none c 0)
          (Holds false (some start) 0)
          (open_stream srv start accepted q)
  unfolding open_stream close_conn
  open_stream-Sound c start false q h = (close_conn-Holds srv false none 0 q h.0, h.1)
  open_stream-Sound c start true q h = ground (arith, h)

  begin_stream-IsSound :
      (after : Bytes) (start : ℕ) (p : Postgres S)
      → Holds false none 0 p
      → IsSound (begin_stream srv after start p).0
  begin_stream-IsSound after start p h =
      let c = p.config in
      either-Ends (Sized srv false none c 0) (Holds false (some start) 0) IsSound
        (begin_stream srv after start p)
        (begin_stream-Ends srv c (Sized srv false none c 0) (Sized srv false none c 1)
          (sized srv false none c) (Holds false (some start) 0) after start p (h, refl)
          (open_stream-Sound c start))
        (λ q k. Holds-IsSound none q k.0) (λ q k. Holds-IsSound (some start) q k)

  unstarted :
      (p : Postgres S) → IsSound p → p.closed ≡ false → p.streaming ≡ false → Holds false none 0 p
  unstarted p h usable idle = ground (arith, h, usable, idle)

  subscribe_at-IsSound :
      (after : Bytes) (start : Option ℕ) (p : Postgres S)
      → IsSound p
      → IsSound (subscribe_at srv after start p).0
  unfolding subscribe_at unless_streaming
  subscribe_at-IsSound after none p h = h
  subscribe_at-IsSound after (some start) p h =
      choose_open p.closed closed_error (unless_streaming srv (begin_stream srv after start)) p h
        (λ usable.
          choose_open p.streaming already_subscribed (begin_stream srv after start) p h
            (λ idle. begin_stream-IsSound after start p (unstarted p h usable idle)))

  close_stream-IsSound : (p : Postgres S) → IsSound p → IsSound (close_stream srv p)
  unfolding close_stream release_stream close_conn
  close_stream-IsSound p h = ground (arith, h)

  close-IsSound : (p : Postgres S) → IsSound p → IsSound (close srv p)
  unfolding close close_stream release_stream close_control close_conn
  close-IsSound p h = ground (arith, h)

  unless_empty :
      {A : Type 0} (b : Bool) (e : Error) (m : M S A) (p : Postgres S)
      → IsSound p
      → IsSound (m p).0
      → IsSound (choose b (fail e) m p).0
  unless_empty b e m p h g = choose_open b e m p h (λ _. g)

  ensure_slot-Holds :
      (name : Bytes) (p : Postgres S)
      → Holds false p.live 0 p
      → Ends (Holds false p.live 0) (Holds false p.live 0) (ensure_slot srv name p)
  ensure_slot-Holds name p h =
      let at = p.live in
      let c = p.config in
      map-Ends (Sized srv false at c 0) (Holds false at 0) (ensure_slot srv name p)
        (ensure_slot-Ends srv c (Sized srv false at c 0) (Sized srv false at c 1)
          (sized srv false at c) name p (h, refl))
        (λ q k. k.0)

  abbrev drop_open : Bytes → M S (Unit {0})
  drop_open name = dial_replication srv >> deferred srv (ask_drop srv name >>= unless_undefined)

  drop_open-Holds :
      (name : Bytes) (p : Postgres S)
      → Holds false p.live 0 p
      → Ends (Holds false p.live 0) (Holds false p.live 0) (drop_open name p)
  drop_open-Holds name p h =
      let at = p.live in
      let c = p.config in
      map-Ends (Sized srv false at c 0) (Holds false at 0) (drop_open name p)
        (drop_slot-Ends srv c (Sized srv false at c 0) (Sized srv false at c 1)
          (sized srv false at c) name p (h, refl))
        (λ q k. k.0)

  step-IsSound : (call : Call) (p : Postgres S) → IsSound p → IsSound (step srv call p)
  unfolding step subscribe_from add_tables remove_tables sync_tables sync_to verify_table
      create_slot drop_slot create_publication drop_publication
  step-IsSound (subscribes after) p h = subscribe_at-IsSound after (start_of srv p.config after) p h
  step-IsSound (adds tables) p h =
      unless_closed-IsSound (reading (add_missing srv tables)) p h
        (add_missing-Ends srv false p.live tables p.config p)
  step-IsSound (removes tables) p h =
      unless_closed-IsSound (reading (remove_present srv tables)) p h
        (remove_present-Ends srv false p.live tables p.config p)
  step-IsSound (syncs tables) p h =
      unless_empty (no_tables (dedupe tables)) no_tables_error
        (unless_closed (reading (sync_to srv (dedupe tables)))) p h
        (unless_closed-IsSound (reading (sync_to srv (dedupe tables))) p h
          (alter-Ends srv false p.live _ _ p))
  step-IsSound (verifies table) p h =
      unless_closed-IsSound (control_conn srv >> ask_covers srv table >>= found srv) p h
        (verify-Ends srv false p.live table p)
  step-IsSound (creates_slot name) p h =
      unless_closed-IsSound (ensure_slot srv name) p h (ensure_slot-Holds name p)
  step-IsSound (drops_slot name) p h =
      unless_closed-IsSound (drop_open name) p h (drop_open-Holds name p)
  step-IsSound (creates_publication name tables) p h =
      let statement : Statement = create_for name (dedupe tables) in
      let send : M S (Unit {0}) = control_conn srv >> exec srv statement >>= unless_duplicate in
      unless_empty (no_tables (dedupe tables)) no_tables_error (unless_closed send) p h (
        unless_closed-IsSound send p h (λ k.
          statement-Ends srv false p.live statement unless_duplicate p k
            (unless_duplicate-Ends (Holds false p.live 0))))
  step-IsSound (drops_publication name) p h =
      let statement : Statement = drop_whole name in
      unless_closed-IsSound (control_conn srv >> exec srv statement >>= expect_done) p h (λ k.
        statement-Ends srv false p.live statement expect_done p k
          (expect_done-Ends (Holds false p.live 0)))
  step-IsSound closes_stream p h = close_stream-IsSound p h
  step-IsSound closes p h = close-IsSound p h

  run-IsSound : (calls : List Call) (p : Postgres S) → IsSound p → IsSound (run srv calls p)
  unfolding run
  run-IsSound [] p h = h
  run-IsSound (call ∷ calls) p h = run-IsSound calls (step srv call p) (step-IsSound call p h)

  -- However a new subscriber is used, and whatever fails on the way: as many connections are closed
  -- as it dialled, but for its control connection and that of the one stream that is open; it counts
  -- itself as streaming exactly while one is; and once it is closed it holds neither, so that every
  -- connection it dialled is closed.
  pub run-IsSound_new :
      (config : Config) (s : S) (calls : List Call) → IsSound (run srv calls (new config s).1)
  unfolding new
  run-IsSound_new config s calls = run-IsSound calls (new config s).1 (record {
    balanced = omega arith;
    pointed = refl;
    guarded = refl;
    quiet = refl;
    settled_up = refl;
  })
