-- ===== src/Replication/Subscriber/Configured.antt =====
-- pkg/vendors/postgres/cdc/subscriber.go: the steps leave the configuration alone.
use gpool.Base.{◌≡◌, ◌∙◌, arith}
use gpool.Replication.Statements.{Config}
use gpool.Replication.Subscriber.{
  Reply, done, duplicate_object, undefined_object, refused, Server, Postgres, control_conn,
  dial_replication, close_conn, exec,
}
use gpool.Replication.Subscriber.Methods.{
  reconcile_publication, ask_slot, ask_drop, ask_confirmed, start_replication,
}
use gpool.Replication.Subscriber.Outcomes.{Ends, expect_done-Ends, all-Ends}
use gpool.Replication.Subscriber.Steps.{Kept}

module _ {S : Type 0} (srv : Server S) where
  pub control_conn-config : (p : Postgres S) → (control_conn srv p).0.config ≡ p.config
  unfolding control_conn close_conn
  control_conn-config p = ground arith

  pub dial_replication-config : (p : Postgres S) → (dial_replication srv p).0.config ≡ p.config
  unfolding dial_replication
  dial_replication-config p = ground arith

  configured_publish :
      (c : Config) (r : Reply) (p : Postgres S)
      → p.config ≡ c
      → Ends
          (λ q. q.config ≡ c)
          (λ q. q.config ≡ c)
          (reconcile_publication srv c.publication_name c.tables r p)
  unfolding reconcile_publication exec
  configured_publish c done p h = h
  configured_publish c duplicate_object p h = expect_done-Ends (λ q. q.config ≡ c) _ _ h
  configured_publish c undefined_object p h = h
  configured_publish c refused p h = h

  -- All that the steps need to keep of the configuration.
  pub configured : (c : Config) → Kept srv c (λ p. p.config ≡ c) (λ p. p.config ≡ c)
  unfolding close_conn ask_slot ask_drop start_replication ask_confirmed exec
  configured c = record {
    config_is = λ p h. h;
    control = λ p h. all-Ends (λ q. q.config ≡ c) (control_conn srv p) (control_conn-config p ∙ h);
    dial = λ p h.
        all-Ends (λ q. q.config ≡ c) (dial_replication srv p) (dial_replication-config p ∙ h);
    hang_up = λ p h. h;
    create = λ name p h. h;
    drop = λ name p h. h;
    begin = λ start p h. h;
    confirm = λ p h. h;
    publish = λ p h. configured_publish c _ _ h;
  }
