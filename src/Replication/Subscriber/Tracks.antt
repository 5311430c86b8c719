-- ===== src/Replication/Subscriber/Tracks.antt =====
-- pkg/vendors/postgres/cdc/subscriber.go: the local list of tables and the server's publication.
use gpool.Base.{ℕ, ◌≡◌, ◌≢◌, refl, sym, ap, ◌∙◌, Bool, false, not, ◌&&◌, ◌||◌, List, arith, Bytes}
use gpool.Replication.Catalog.{has}
use gpool.Replication.Statements.{
  Statement, Config, create_for, set_to, add_to, drop_from, drop_whole,
}
use gpool.Replication.Subscriber.{
  Reply, done, duplicate_object, undefined_object, refused, Server, Postgres, ◌>>=◌, ◌>>◌,
  expect_done, control_conn, dial_replication, close_conn, exec,
}
use gpool.Replication.Subscriber.Methods.{
  reconcile_publication, set_tables, alter, ask_slot, ask_drop, ask_confirmed, start_replication,
}
use gpool.Replication.Subscriber.Outcomes.{Ends, bind-Ends, all-Ends}
use gpool.Replication.Subscriber.Steps.{Kept, on_control-Ends}
use gpool.Replication.Subscriber.Configured.{control_conn-config, dial_replication-config}

-- From one view of the publications to the next, by a statement and the reply to it.
abbrev pub Performed : (Bytes → Bytes → Bool) → (Bytes → Bytes → Bool) → Statement → Type 0
Performed old new (create_for name tables) = (table : Bytes) → new name table ≡ has tables table
Performed old new (set_to name tables) = (table : Bytes) → new name table ≡ has tables table
Performed old new (add_to name tables) =
    (table : Bytes) → new name table ≡ (old name table || has tables table)
Performed old new (drop_from name tables) =
    (table : Bytes) → new name table ≡ (old name table && not (has tables table))
Performed old new (drop_whole name) = (table : Bytes) → new name table ≡ false

abbrev pub named : Statement → Bytes
named (create_for name tables) = name
named (set_to name tables) = name
named (add_to name tables) = name
named (drop_from name tables) = name
named (drop_whole name) = name

abbrev pub Performs : (Bytes → Bytes → Bool) → (Bytes → Bytes → Bool) → Statement → Reply → Type 0
Performs old new statement done =
    Performed old new statement
    × ((other : Bytes) → other ≢ named statement → new other ≡ old other)
Performs old new statement duplicate_object = new ≡ old
Performs old new statement undefined_object = new ≡ old
Performs old new statement refused = new ≡ old

-- What a server does with a publication, `published s name table` saying that it covers the table.
-- Only the statements touch it. One that is accepted does what it says to the publication that it
-- names, and to no other. One that fails changes nothing: PostgreSQL undoes a statement that ends in
-- an error, and a statement that was carried out but whose answer was lost with the connection is
-- not described. A table is spelled in one way only.
pub record Publishes {S : Type 0} (srv : Server S) (published : S → Bytes → Bytes → Bool)
    : Type 0 where
  pub connecting : (text : Bytes) (s : S) → published (srv.connect text s).0 ≡ published s
  pub walsender :
      (text : Bytes) (s : S) → published (srv.connect_replication text s).0 ≡ published s
  pub closing : (s : S) → published (srv.close s).0 ≡ published s
  pub reading_slot : (name : Bytes) (s : S) → published (srv.confirmed name s).0 ≡ published s
  pub reading_tables :
      (name schema table : Bytes) (s : S)
      → published (srv.covers name schema table s).0 ≡ published s
  pub creating_slot : (name : Bytes) (s : S) → published (srv.create_slot name s).0 ≡ published s
  pub dropping_slot : (name : Bytes) (s : S) → published (srv.drop_slot name s).0 ≡ published s
  pub starting :
      (slot names : Bytes) (start : ℕ) (s : S)
      → published (srv.start_replication slot names start s).0 ≡ published s
  pub executing :
      (statement : Statement) (s : S)
      → Performs
          (published s)
          (published (srv.exec statement s).0)
          statement
          (srv.exec statement s).1

module _ {S : Type 0} (srv : Server S) (published : S → Bytes → Bytes → Bool)
    (laws : Publishes srv published) where
  -- The local list is what the server publishes under the configured name.
  abbrev pub Tracks : Config → S → Type 0
  Tracks c s = (table : Bytes) → has c.tables table ≡ published s c.publication_name table

  abbrev pub Tracking : Config → Postgres S → Type 0
  Tracking c p = Tracks c p.server × (p.config ≡ c)

  pub moved : (c : Config) (s t : S) → published t ≡ published s → Tracks c s → Tracks c t
  moved c s t e h table = h table ∙ ap (λ f. f c.publication_name table) (sym e)

  pub control_conn-published :
      (p : Postgres S) → published (control_conn srv p).0.server ≡ published p.server
  unfolding control_conn close_conn
  control_conn-published p =
      let a = laws.connecting p.config.conn_string p.server in
      let b = laws.connecting p.config.conn_string (srv.close p.server).0 in
      let d = laws.closing p.server in ground (arith, a, b, d)

  dial_replication-published :
      (p : Postgres S) → published (dial_replication srv p).0.server ≡ published p.server
  unfolding dial_replication
  dial_replication-published p =
      let a = laws.walsender p.config.conn_string p.server in ground (arith, a)

  set_done-Tracks :
      (c : Config) (r : Reply) (p : Postgres S) (t : S)
      → Tracking c p
      → Performs (published p.server) (published t) (set_to c.publication_name c.tables) r
      → Ends (Tracking c) (Tracking c) (expect_done r (record p { server = t }))
  set_done-Tracks c done p t h l = (λ table. sym (l.0 table), h.1)
  set_done-Tracks c duplicate_object p t h l = (moved c p.server t l h.0, h.1)
  set_done-Tracks c undefined_object p t h l = (moved c p.server t l h.0, h.1)
  set_done-Tracks c refused p t h l = (moved c p.server t l h.0, h.1)

  created-Tracking :
      (c : Config) (r : Reply) (p : Postgres S) (t : S)
      → Tracking c p
      → Performs (published p.server) (published t) (create_for c.publication_name c.tables) r
      → Ends
          (Tracking c)
          (Tracking c)
          (reconcile_publication srv c.publication_name c.tables r (record p { server = t }))
  unfolding reconcile_publication exec
  created-Tracking c done p t h l = (λ table. sym (l.0 table), h.1)
  created-Tracking c duplicate_object p t h l =
      set_done-Tracks c _ (record p { server = t }) _ (moved c p.server t l h.0, h.1)
        (laws.executing (set_to c.publication_name c.tables) t)
  created-Tracking c undefined_object p t h l = (moved c p.server t l h.0, h.1)
  created-Tracking c refused p t h l = (moved c p.server t l h.0, h.1)

  pub tracking : (c : Config) → Kept srv c (Tracking c) (Tracking c)
  unfolding close_conn ask_slot ask_drop start_replication ask_confirmed exec
  tracking c = record {
    config_is = λ p h. h.1;
    control = λ p h.
        all-Ends (Tracking c) (control_conn srv p)
          (moved c p.server _ (control_conn-published p) h.0, control_conn-config srv p ∙ h.1);
    dial = λ p h. all-Ends (Tracking c) (dial_replication srv p) (
      moved c p.server _ (dial_replication-published p) h.0,
      dial_replication-config srv p ∙ h.1,
    );
    hang_up = λ p h. (moved c p.server _ (laws.closing p.server) h.0, h.1);
    create = λ name p h. (moved c p.server _ (laws.creating_slot name p.server) h.0, h.1);
    drop = λ name p h. (moved c p.server _ (laws.dropping_slot name p.server) h.0, h.1);
    begin = λ start p h. (moved c p.server _ (laws.starting _ _ start p.server) h.0, h.1);
    confirm = λ p h. (moved c p.server _ (laws.reading_slot _ p.server) h.0, h.1);
    publish = λ p h. created-Tracking c _ p _ h (laws.executing _ p.server);
  }

  -- The list that a subscriber has is what the server publishes under this name.
  pub record Listed (name : Bytes) (p : Postgres S) : Type 0 where
    pub named_so : p.config.publication_name ≡ name
    pub listed : (table : Bytes) → has p.config.tables table ≡ published p.server name table

  pub Tracking-Listed : (c : Config) (p : Postgres S) → Tracking c p → Listed c.publication_name p
  Tracking-Listed c p h = record {
    named_so = ap (λ (k : Config). k.publication_name) h.1;
    listed = λ table. ap (λ (k : Config). has k.tables table) h.1 ∙ h.0 table;
  }

  pub Listed-Tracking : (name : Bytes) (p : Postgres S) → Listed name p → Tracking p.config p
  Listed-Tracking name p h =
      (λ table. h.listed table ∙ ap (λ n. published p.server n table) (sym h.named_so), refl)

  -- `alter`, when every outcome of its statement is provided for.
  pub alter-Ends :
      (c : Config) (P R : Postgres S → Type 0) (statement : Statement) (tables : List Bytes)
      → Kept srv c P P
      → ((q : Postgres S) (t : S)
          → P q
          → published t ≡ published q.server
          → P (record q { server = t }))
      → ((q : Postgres S) (t : S)
          → P q
          → Performed (published q.server) (published t) statement
          → R (record q { server = t; config = record q.config { tables = tables } }))
      → (p : Postgres S) → P p
      → Ends P R (alter srv statement tables p)
  unfolding alter exec
  alter-Ends c P R statement tables kept no_change change p h =
      bind-Ends P Changed R (control_conn srv >> exec srv statement >>= expect_done)
        (λ _. set_tables srv tables) p
        (on_control-Ends srv c P P kept Changed (exec srv statement) expect_done p h
          (λ q k. by_reply q _ _ k (laws.executing statement q.server)))
        (λ _ q k. k)
    where
      Changed : Postgres S → Type 0
      Changed q = R (record q { config = record q.config { tables = tables } })

      by_reply :
          (q : Postgres S) (t : S) (r : Reply)
          → P q
          → Performs (published q.server) (published t) statement r
          → Ends P Changed (expect_done r (record q { server = t }))
      by_reply q t done k l = change q t k l.0
      by_reply q t duplicate_object k l = no_change q t k l
      by_reply q t undefined_object k l = no_change q t k l
      by_reply q t refused k l = no_change q t k l
