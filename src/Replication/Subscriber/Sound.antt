-- ===== src/Replication/Subscriber/Sound.antt =====
-- pkg/vendors/postgres/cdc/subscriber.go: no connection is lost, whatever fails.
use gpool.Base.{ℕ, suc, ◌+◌, ◌≡◌, ◌∙◌, Bool, true, false, List, Option, none, some, arith, Bytes}
use gpool.Replication.Statements.{Statement, Config}
use gpool.Replication.Subscriber.{
  Reply, done, duplicate_object, undefined_object, refused, Server, Postgres, M, ◌>>=◌, ◌>>◌,
  return, expect_done, close_conn, control_conn, dial_replication, exec,
}
use gpool.Replication.Subscriber.Methods.{
  ask_slot, ask_drop, ask_confirmed, ask_covers, start_replication, reconcile_publication,
  set_tables, alter, add_missing, remove_present, found,
}
use gpool.Replication.Subscriber.Outcomes.{Ends, bind-Ends, choose-Ends, expect_done-Ends, and-Ends}
use gpool.Replication.Subscriber.Steps.{Kept}
use gpool.Replication.Subscriber.Configured.{control_conn-config, dial_replication-config}

abbrev pub one : Bool → ℕ
one true = 1
one false = 0

abbrev pub is_some {ℓ} : {A : Type ℓ} → Option A → Bool
is_some none = false
is_some (some a) = true

-- So many connections more than the control connection and the stream's are open.
pub record Holds {S : Type 0} (shut : Bool) (at : Option ℕ) (k : ℕ) (p : Postgres S) : Type 0 where
  pub closed_is : p.closed ≡ shut
  pub live_is : p.live ≡ at
  pub balanced : p.dialled ≡ p.hung_up + (one p.ctrl + (one (is_some at) + k))
  pub pointed : p.stream ≡ is_some at
  pub guarded : p.streaming ≡ is_some at

module _ {S : Type 0} (srv : Server S) (shut : Bool) (at : Option ℕ) where
  pub close_conn-Holds :
      (k : ℕ) (p : Postgres S) → Holds shut at (suc k) p → Holds shut at k (close_conn srv p)
  unfolding close_conn
  close_conn-Holds k p h = ground arith

  pub control_conn-Ends :
      (k : ℕ) (p : Postgres S)
      → Holds shut at k p
      → Ends (Holds shut at k) (Holds shut at k) (control_conn srv p)
  unfolding control_conn close_conn
  control_conn-Ends k p h = ground arith

  dial_replication-Ends :
      (k : ℕ) (p : Postgres S)
      → Holds shut at k p
      → Ends (Holds shut at k) (Holds shut at (suc k)) (dial_replication srv p)
  unfolding dial_replication
  dial_replication-Ends k p h = ground arith

  -- What replaces the server's state and nothing else.
  pub replied-Holds :
      (k : ℕ) (p : Postgres S) (s : S)
      → Holds shut at k p
      → Holds shut at k (record p { server = s })
  replied-Holds k p s h = ground arith

  -- The same, with a configuration that stays.
  abbrev pub Sized : Config → ℕ → Postgres S → Type 0
  Sized c k p = Holds shut at k p × (p.config ≡ c)

  expect_done-Sized :
      (c : Config) (k : ℕ) (name : Bytes) (tables : List Bytes) (r : Reply) (p : Postgres S)
      → Sized c k p
      → Ends (Sized c k) (Sized c k) (reconcile_publication srv name tables r p)
  unfolding reconcile_publication exec
  expect_done-Sized c k name tables done p h = h
  expect_done-Sized c k name tables duplicate_object p h =
      expect_done-Ends (Sized c k) _ _ (replied-Holds k p _ h.0, h.1)
  expect_done-Sized c k name tables undefined_object p h = h
  expect_done-Sized c k name tables refused p h = h

  pub sized : (c : Config) → Kept srv c (Sized c 0) (Sized c 1)
  unfolding close_conn ask_slot ask_drop start_replication ask_confirmed exec
  sized c = record {
    config_is = λ p h. h.1;
    control = λ p h.
        and-Ends (Holds shut at 0) (Holds shut at 0) (λ q. q.config ≡ c) _
          (control_conn-Ends 0 p h.0) (control_conn-config srv p ∙ h.1);
    dial = λ p h.
        and-Ends (Holds shut at 0) (Holds shut at 1) (λ q. q.config ≡ c) _
          (dial_replication-Ends 0 p h.0) (dial_replication-config srv p ∙ h.1);
    hang_up = λ p h. (close_conn-Holds 0 p h.0, h.1);
    create = λ name p h. (replied-Holds 1 p _ h.0, h.1);
    drop = λ name p h. (replied-Holds 1 p _ h.0, h.1);
    begin = λ start p h. (replied-Holds 1 p _ h.0, h.1);
    confirm = λ p h. (replied-Holds 0 p _ h.0, h.1);
    publish = λ p h. expect_done-Sized c 0 _ _ _ _ (replied-Holds 0 p _ h.0, h.1);
  }

  abbrev pub Free : Postgres S → Type 0
  Free = Holds shut at 0

  -- What comes after the reply to a statement on the control connection.
  pub statement-Ends :
      (statement : Statement) (f : Reply → M S (Unit {0})) (p : Postgres S)
      → Free p
      → ((r : Reply) (q : Postgres S) → Free q → Ends Free Free (f r q))
      → Ends Free Free ((control_conn srv >> exec srv statement >>= f) p)
  unfolding exec
  statement-Ends statement f p h g =
      bind-Ends Free Free Free (control_conn srv >> exec srv statement) f p
        (bind-Ends Free Free Free (control_conn srv) (λ _. exec srv statement) p
          (control_conn-Ends 0 p h) (λ _ q k. replied-Holds 0 q _ k))
        g

  pub alter-Ends :
      (statement : Statement) (tables : List Bytes) (p : Postgres S)
      → Free p
      → Ends Free Free (alter srv statement tables p)
  unfolding alter
  alter-Ends statement tables p h =
      bind-Ends Free Free Free (control_conn srv >> exec srv statement >>= expect_done)
        (λ _. set_tables srv tables) p
        (statement-Ends statement expect_done p h (λ r q k. expect_done-Ends Free r q k))
        (λ _ q k. ground (arith, k))

  pub add_missing-Ends :
      (tables : List Bytes) (c : Config) (p : Postgres S)
      → Free p
      → Ends Free Free (add_missing srv tables c p)
  unfolding add_missing
  add_missing-Ends tables c p h =
      choose-Ends Free Free _ (return tt) (alter srv _ _) p (λ _. h) (λ _. alter-Ends _ _ p h)

  pub remove_present-Ends :
      (tables : List Bytes) (c : Config) (p : Postgres S)
      → Free p
      → Ends Free Free (remove_present srv tables c p)
  unfolding remove_present
  remove_present-Ends tables c p h =
      choose-Ends Free Free _ (return tt) (alter srv _ _) p (λ _. h) (λ _. alter-Ends _ _ p h)

  found-Ends : (r : Option Bool) (p : Postgres S) → Free p → Ends Free Free (found srv r p)
  found-Ends none p h = h
  found-Ends (some b) p h = h

  pub verify-Ends :
      (table : Bytes) (p : Postgres S)
      → Free p
      → Ends Free Free ((control_conn srv >> ask_covers srv table >>= found srv) p)
  unfolding ask_covers
  verify-Ends table p h =
      bind-Ends Free Free Free (control_conn srv >> ask_covers srv table) (found srv) p
        (bind-Ends Free Free Free (control_conn srv) (λ _. ask_covers srv table) p
          (control_conn-Ends 0 p h) (λ _ q k. replied-Holds 0 q _ k))
        found-Ends
