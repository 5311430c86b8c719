-- ===== src/Replication/Subscriber/Steps.antt =====
-- pkg/vendors/postgres/cdc/subscriber.go: what every method keeps that its steps keep.
use gpool.Base.{ℕ, ◌≡◌, sym, subst, [], ◌∷◌, Bool, not, Option, none, some, leb, Bytes}
use gpool.Replication.Catalog.{is_empty}
use gpool.Replication.Statements.{Config, create_for, no_tables}
use gpool.Replication.Subscriber.{
  Reply, no_tables_error, position_behind_slot, Server, Postgres, Result, ok, err, M, then_with,
  ◌>>=◌, ◌>>◌, return, fail, when, unless_duplicate, unless_undefined, reading, close_conn,
  control_conn, dial_replication, exec,
}
use gpool.Replication.Subscriber.Methods.{
  then_close, deferred, ask_slot, ensure_slot, reconcile_publication, ensure_publication, parsed,
  confirmed_at, ask_confirmed, slot_confirmed, not_behind, check_resumable, start_replication,
  open_stream, begin_stream, publish, prepare, ask_drop, parse_position,
}
use gpool.Replication.Subscriber.Outcomes.{
  Ends, bind-Ends, choose-Ends, unless_duplicate-Ends, unless_undefined-Ends,
}

-- `P` holds between the steps, and `Q` while a walsender connection is open beside; both say that
-- the configuration is `c`.
pub record Kept {S : Type 0} (srv : Server S) (c : Config) (P Q : Postgres S → Type 0)
    : Type 0 where
  pub config_is : (p : Postgres S) → P p → p.config ≡ c
  pub control : (p : Postgres S) → P p → Ends P P (control_conn srv p)
  pub dial : (p : Postgres S) → P p → Ends P Q (dial_replication srv p)
  pub hang_up : (p : Postgres S) → Q p → P (close_conn srv p)
  pub create : (name : Bytes) (p : Postgres S) → Q p → Q (ask_slot srv name p).0
  pub drop : (name : Bytes) (p : Postgres S) → Q p → Q (ask_drop srv name p).0
  pub begin : (start : ℕ) (p : Postgres S) → Q p → Q (start_replication srv start p).0
  pub confirm : (p : Postgres S) → P p → P (ask_confirmed srv p).0
  pub publish :
      (p : Postgres S)
      → P p
      → Ends P P (
          then_with
            (reconcile_publication srv c.publication_name c.tables)
            (exec srv (create_for c.publication_name c.tables) p))

module _ {S : Type 0} (srv : Server S) (c : Config) (P Q : Postgres S → Type 0)
    (kept : Kept srv c P Q) where
  pub reading-Ends :
      {A : Type 0} (R : Postgres S → Type 0) (f : Config → M S A) (p : Postgres S)
      → P p
      → Ends P R (f c p)
      → Ends P R (reading f p)
  reading-Ends R f p h g = subst (λ k. Ends P R (f k p)) (sym (kept.config_is p h)) g

  -- What is asked on the control connection, and what follows the reply.
  pub on_control-Ends :
      {A B : Type 0} (R : Postgres S → Type 0) (m : M S B) (f : B → M S A) (p : Postgres S)
      → P p
      → ((q : Postgres S) → P q → Ends P R (then_with f (m q)))
      → Ends P R ((control_conn srv >> m >>= f) p)
  on_control-Ends {A} R m f p h g = dialled (control_conn srv p) (kept.control p h)
    where
      dialled :
          (r : Postgres S × Result (Unit {0}))
          → Ends P P r
          → Ends P R (then_with f (then_with (λ _. m) r))
      dialled (q, ok a) k = g q k
      dialled (q, err e) k = k

  then_close-Ends :
      {A : Type 0} (r : Postgres S × Result A) → Ends Q Q r → Ends P P (then_close srv r)
  then_close-Ends (p, ok a) h = kept.hang_up p h
  then_close-Ends (p, err e) h = kept.hang_up p h

  pub on_walsender-Ends :
      (m : M S Reply) (f : Reply → M S (Unit {0})) (p : Postgres S)
      → P p
      → ((q : Postgres S) → Q q → Ends Q Q ((m >>= f) q))
      → Ends P P ((dial_replication srv >> deferred srv (m >>= f)) p)
  on_walsender-Ends m f p h g =
      bind-Ends P Q P (dial_replication srv) (λ _. deferred srv (m >>= f)) p (kept.dial p h)
        (λ _ q k. then_close-Ends ((m >>= f) q) (g q k))

  pub ensure_slot-Ends : (name : Bytes) (p : Postgres S) → P p → Ends P P (ensure_slot srv name p)
  unfolding ensure_slot ask_slot
  ensure_slot-Ends name p h =
      on_walsender-Ends (ask_slot srv name) unless_duplicate p h
        (λ q k. unless_duplicate-Ends Q _ _ (kept.create name q k))

  pub drop_slot-Ends :
      (name : Bytes) (p : Postgres S)
      → P p
      → Ends P P ((dial_replication srv >> deferred srv (ask_drop srv name >>= unless_undefined)) p)
  unfolding ask_drop
  drop_slot-Ends name p h =
      on_walsender-Ends (ask_drop srv name) unless_undefined p h
        (λ q k. unless_undefined-Ends Q _ _ (kept.drop name q k))

  publish-Ends : (p : Postgres S) → P p → Ends P P (publish srv c p)
  unfolding publish
  publish-Ends p h =
      choose-Ends P P (no_tables c.tables) (fail no_tables_error)
        (control_conn srv
          >> exec srv (create_for c.publication_name c.tables)
          >>= reconcile_publication srv c.publication_name c.tables)
        p (λ _. h)
        (λ _.
          on_control-Ends P (exec srv (create_for c.publication_name c.tables))
            (reconcile_publication srv c.publication_name c.tables) p h kept.publish)

  ensure_publication-Ends : (p : Postgres S) → P p → Ends P P (ensure_publication srv p)
  unfolding ensure_publication
  ensure_publication-Ends p h = reading-Ends P (publish srv) p h (publish-Ends p h)

  parsed-Ends : (r : Option ℕ) (p : Postgres S) → P p → Ends P P (parsed srv r p)
  parsed-Ends none p h = h
  parsed-Ends (some lsn) p h = h

  confirmed_at-Ends : (r : Option Bytes) (p : Postgres S) → P p → Ends P P (confirmed_at srv r p)
  confirmed_at-Ends none p h = h
  confirmed_at-Ends (some []) p h = h
  confirmed_at-Ends (some (b ∷ text)) p h = parsed-Ends (parse_position srv (b ∷ text)) p h

  not_behind-Ends :
      (start : ℕ) (r : Option ℕ) (p : Postgres S) → P p → Ends P P (not_behind srv start r p)
  not_behind-Ends start none p h = h
  not_behind-Ends start (some lsn) p h =
      choose-Ends P P (leb lsn start) (return tt) (fail position_behind_slot) p (λ _. h) (λ _. h)

  slot_confirmed-Ends : (p : Postgres S) → P p → Ends P P (slot_confirmed srv p)
  unfolding slot_confirmed ask_confirmed
  slot_confirmed-Ends p h =
      on_control-Ends P (ask_confirmed srv) (confirmed_at srv) p h
        (λ q k. confirmed_at-Ends _ _ (kept.confirm q k))

  check_resumable-Ends : (start : ℕ) (p : Postgres S) → P p → Ends P P (check_resumable srv start p)
  unfolding check_resumable
  check_resumable-Ends start p h =
      bind-Ends P P P (slot_confirmed srv) (not_behind srv start) p (slot_confirmed-Ends p h)
        (λ r q k. not_behind-Ends start r q k)

  when-Ends :
      (b : Bool) (m : M S (Unit {0})) (p : Postgres S)
      → P p
      → Ends P P (m p)
      → Ends P P (when b m p)
  when-Ends b m p h g = choose-Ends P P b m (return tt) p (λ _. g) (λ _. h)

  -- The publication and the slot, where the configuration asks for them.
  pub provided-Ends :
      (p : Postgres S)
      → P p
      → Ends P P (
          (when c.create_publication (ensure_publication srv)
              >> when c.create_slot (ensure_slot srv c.slot_name))
            p)
  provided-Ends p h =
      bind-Ends P P P (when c.create_publication (ensure_publication srv))
        (λ _. when c.create_slot (ensure_slot srv c.slot_name)) p
        (when-Ends c.create_publication (ensure_publication srv) p h (ensure_publication-Ends p h))
        (λ _ q k.
          when-Ends c.create_slot (ensure_slot srv c.slot_name) q k
            (ensure_slot-Ends c.slot_name q k))

  pub prepare-Ends :
      (after : Bytes) (start : ℕ) (p : Postgres S) → P p → Ends P P (prepare srv after start c p)
  unfolding prepare
  prepare-Ends after start p h =
      bind-Ends P P P
        (when c.create_publication (ensure_publication srv)
          >> when c.create_slot (ensure_slot srv c.slot_name))
        (λ _. when (not (is_empty after)) (check_resumable srv start)) p (provided-Ends p h)
        (λ _ q k.
          when-Ends (not (is_empty after)) (check_resumable srv start) q k
            (check_resumable-Ends start q k))

  -- All of `SubscribeFrom` on a subscriber that may.
  pub begin_stream-Ends :
      (R : Postgres S → Type 0) (after : Bytes) (start : ℕ) (p : Postgres S)
      → P p
      → ((accepted : Bool) (q : Postgres S) → Q q → Ends P R (open_stream srv start accepted q))
      → Ends P R (begin_stream srv after start p)
  unfolding begin_stream start_replication
  begin_stream-Ends R after start p h g =
      let prepared : M S (Unit {0}) = reading (prepare srv after start) in
      bind-Ends P Q R (prepared >> dial_replication srv >> start_replication srv start)
        (open_stream srv start) p
        (bind-Ends P Q Q (prepared >> dial_replication srv) (λ _. start_replication srv start) p
          (bind-Ends P P Q prepared (λ _. dial_replication srv) p
            (reading-Ends P (prepare srv after start) p h (prepare-Ends after start p h))
            (λ _ q k. kept.dial q k))
          (λ _ q k. kept.begin start q k))
        g
