-- ===== src/Replication/Subscriber/Agreement.antt =====
-- pkg/vendors/postgres/cdc/subscriber.go: each method leaves the local list right.
use gpool.Base.{◌≢◌, sym, ap, ℕ, ◌≡◌, ◌∙◌, Bool, true, false, Option, none, some, arith, Bytes}
use gpool.Replication.Statements.{Statement, Config}
use gpool.Replication.Subscriber.{
  Error, Reply, done, duplicate_object, undefined_object, refused, closed_error, already_subscribed,
  Server, Postgres, Result, M, ◌>>=◌, ◌>>◌, fail, choose, close_conn, control_conn, exec,
}
use gpool.Replication.Subscriber.Methods.{
  ask_covers, open_stream, begin_stream, unless_streaming, subscribe_at, found, release_stream,
  close_stream, close_control, close,
}
use gpool.Replication.Subscriber.Outcomes.{Ends, either-Ends}
use gpool.Replication.Subscriber.Steps.{on_control-Ends, begin_stream-Ends}
use gpool.Replication.Subscriber.Tracks.{named, Performs, Publishes, tracking, Tracking-Listed}
use gpool.Replication.Subscriber.Published.{T, L, T-moved}

module _ {S : Type 0} (srv : Server S) (published : S → Bytes → Bytes → Bool)
    (laws : Publishes srv published) where
  abbrev pub Agrees : Config → Postgres S → Type 0
  Agrees c = T srv published laws c

  abbrev pub Lists : Config → Postgres S → Type 0
  Lists c = L srv published laws c

  pub of_agreeing : (c : Config) (p : Postgres S) → Agrees c p → Lists c p
  of_agreeing c p h = Tracking-Listed srv published laws c p h

  pub listed :
      {A : Type 0} (c : Config) (r : Postgres S × Result A)
      → Ends (Agrees c) (Lists c) r
      → Lists c r.0
  listed c r h = either-Ends (Agrees c) (Lists c) (Lists c) r h (of_agreeing c) (λ p k. k)

  pub agreed :
      {A : Type 0} (c : Config) (r : Postgres S × Result A)
      → Ends (Agrees c) (Agrees c) r
      → Lists c r.0
  agreed c r h = either-Ends (Agrees c) (Agrees c) (Lists c) r h (of_agreeing c) (of_agreeing c)

  pub unless_Lists :
      {A : Type 0} (c : Config) (b : Bool) (e : Error) (m : M S A) (p : Postgres S)
      → Agrees c p
      → Lists c (m p).0
      → Lists c (choose b (fail e) m p).0
  unless_Lists c true e m p h g = of_agreeing c p h
  unless_Lists c false e m p h g = g

  -- A statement on another publication.
  pub other-Agrees :
      (c : Config) (statement : Statement) (f : Reply → M S (Unit {0})) (p : Postgres S)
      → named statement ≢ c.publication_name
      → Agrees c p
      → ((r : Reply) (q : Postgres S) → Agrees c q → Ends (Agrees c) (Agrees c) (f r q))
      → Ends (Agrees c) (Agrees c) ((control_conn srv >> exec srv statement >>= f) p)
  unfolding exec
  other-Agrees c statement f p other h after =
      on_control-Ends srv c (Agrees c) (Agrees c) (tracking srv published laws c) (Agrees c)
        (exec srv statement) f p h
        (λ q k. after _ _ (by_reply q _ _ k (laws.executing statement q.server)))
    where
      by_reply :
          (q : Postgres S) (t : S) (r : Reply)
          → Agrees c q
          → Performs (published q.server) (published t) statement r
          → Agrees c (record q { server = t })
      by_reply q t done k l = (
        λ table. k.0 table ∙ ap (λ g. g table) (sym (l.1 c.publication_name (λ e. other (sym e)))),
        k.1,
      )
      by_reply q t duplicate_object k l = T-moved srv published laws c q t k l
      by_reply q t undefined_object k l = T-moved srv published laws c q t k l
      by_reply q t refused k l = T-moved srv published laws c q t k l

  pub begin_stream-Agrees :
      (c : Config) (after : Bytes) (start : ℕ) (p : Postgres S)
      → Agrees c p
      → Ends (Agrees c) (Agrees c) (begin_stream srv after start p)
  unfolding open_stream close_conn
  begin_stream-Agrees c after start p h =
      begin_stream-Ends srv c (Agrees c) (Agrees c) (tracking srv published laws c) (Agrees c) after
        start p h opened
    where
      opened :
          (accepted : Bool) (q : Postgres S)
          → Agrees c q
          → Ends (Agrees c) (Agrees c) (open_stream srv start accepted q)
      opened false q k = T-moved srv published laws c q _ k (laws.closing q.server)
      opened true q k = k

  pub subscribe_at-Lists :
      (c : Config) (after : Bytes) (start : Option ℕ) (p : Postgres S)
      → Agrees c p
      → Lists c (subscribe_at srv after start p).0
  unfolding subscribe_at unless_streaming
  subscribe_at-Lists c after none p h = of_agreeing c p h
  subscribe_at-Lists c after (some start) p h =
      unless_Lists c p.closed closed_error (unless_streaming srv (begin_stream srv after start)) p h
        (unless_Lists c p.streaming already_subscribed (begin_stream srv after start) p h
          (agreed c (begin_stream srv after start p) (begin_stream-Agrees c after start p h)))

  pub close_stream-published :
      (p : Postgres S) → published (close_stream srv p).server ≡ published p.server
  unfolding close_stream release_stream close_conn
  close_stream-published p = ground (arith, laws.closing p.server)

  pub close-published : (p : Postgres S) → published (close srv p).server ≡ published p.server
  unfolding close close_stream release_stream close_control close_conn
  close-published p = ground (arith, laws.closing p.server, laws.closing (srv.close p.server).0)

  pub close_stream-config : (p : Postgres S) → (close_stream srv p).config ≡ p.config
  unfolding close_stream release_stream close_conn
  close_stream-config p = ground arith

  pub close-config : (p : Postgres S) → (close srv p).config ≡ p.config
  unfolding close close_stream release_stream close_control close_conn
  close-config p = ground arith

  pub verify-Agrees :
      (c : Config) (table : Bytes) (p : Postgres S)
      → Agrees c p
      → Ends (Agrees c) (Agrees c) ((control_conn srv >> ask_covers srv table >>= found srv) p)
  unfolding ask_covers
  verify-Agrees c table p h =
      on_control-Ends srv c (Agrees c) (Agrees c) (tracking srv published laws c) (Agrees c)
        (ask_covers srv table) (found srv) p h
        (λ q k.
          answered _ _ (T-moved srv published laws c q _ k (laws.reading_tables _ _ _ q.server)))
    where
      answered :
          (r : Option Bool) (q : Postgres S)
          → Agrees c q
          → Ends (Agrees c) (Agrees c) (found srv r q)
      answered none q k = k
      answered (some b) q k = k
