-- ===== src/Replication/Subscriber/Resume.antt =====
-- pkg/vendors/postgres/cdc/subscriber.go: where a stream that resumes begins.
use gpool.Base.{
  ℕ, ◌≤◌, ◌≡◌, ◌≢◌, refl, inl, inr, Option-cases, sym, ap, subst, ◌∙◌, Bool, true, false, [], ◌∷◌,
  Option, none, some, arith, Bytes,
}
use gpool.Replication.Catalog.{quote_literal}
use gpool.Replication.Statements.{Config}
use gpool.Replication.Subscriber.{
  Error, fail, closed_error, already_subscribed, Server, Postgres, ok, M, ◌>>◌, reading, choose,
  when, control_conn, dial_replication,
}
use gpool.Replication.Subscriber.Methods.{
  ensure_slot, ensure_publication, parse_position, parsed, confirmed_at, ask_confirmed,
  slot_confirmed, not_behind, check_resumable, start_replication, open_stream, prepare,
  begin_stream, unless_streaming, subscribe_at, start_of, subscribe_from,
}
use gpool.Replication.Subscriber.Outcomes.{bind-ok, either-Ends, choose-ok}
use gpool.Replication.Subscriber.Configured.{
  configured, control_conn-config, dial_replication-config,
}
use gpool.Replication.Subscriber.Steps.{provided-Ends, prepare-Ends}

module _ {S : Type 0} (srv : Server S) where
  -- What the server answers about the slot does not lie past this position: it has no confirmed
  -- position, or one that is not greater.
  abbrev pub NotPast : ℕ → Option Bytes → Type 0
  NotPast start none = ⊥
  NotPast start (some []) = Unit {0}
  NotPast start (some (b ∷ text)) =
      (lsn : ℕ) × (srv.parse_lsn (b ∷ text) ≡ some lsn) × (lsn ≤ start)

  not_behind-le :
      (start lsn : ℕ) (p : Postgres S) → (not_behind srv start (some lsn) p).1 ≡ ok tt → lsn ≤ start
  not_behind-le start lsn p h = ground (arith, h)

  confirmed_at-NotPast :
      (start : ℕ) (r : Option Bytes) (o : Option ℕ) (p q : Postgres S)
      → (confirmed_at srv r p).1 ≡ ok o
      → (not_behind srv start o q).1 ≡ ok tt
      → NotPast start r
  unfolding parse_position
  confirmed_at-NotPast start none o p q h g = cc
  confirmed_at-NotPast start (some []) o p q h g = tt
  confirmed_at-NotPast start (some (b ∷ text)) o p q h g = at (srv.parse_lsn (b ∷ text)) refl h
    where
      at :
          (l : Option ℕ)
          → srv.parse_lsn (b ∷ text) ≡ l
          → (parsed srv l p).1 ≡ ok o
          → NotPast start (some (b ∷ text))
      at none e k = cc
      at (some lsn) e k =
          let same : some lsn ≡ o = ground (arith, k) in
          (
            lsn,
            e,
            subst (λ (x : Option ℕ). (not_behind srv start x q).1 ≡ ok tt → lsn ≤ start) same
                (not_behind-le start lsn q) g,
          )

  -- The check, on a subscriber with this configuration: what the slot answered when it was asked.
  check_resumable-NotPast :
      (c : Config) (start : ℕ) (p : Postgres S)
      → p.config ≡ c
      → (check_resumable srv start p).1 ≡ ok tt
      → NotPast start (srv.confirmed c.slot_name (control_conn srv p).0.server).1
  unfolding check_resumable slot_confirmed ask_confirmed
  check_resumable-NotPast c start p e h =
      let (o, confirmed, compared) = bind-ok (slot_confirmed srv) (not_behind srv start) p h in
      let (r, answered, read) =
        bind-ok (control_conn srv >> ask_confirmed srv) (confirmed_at srv) p confirmed in
      let (_, _, asked) = bind-ok (control_conn srv) (λ _. ask_confirmed srv) p answered in
      let q : Postgres S = (control_conn srv p).0 in
      let same : ok (srv.confirmed q.config.slot_name q.server).1 ≡ ok r =
        ap (λ x. x.1) (sym asked) ∙ answered in
      let reply : r ≡ (srv.confirmed q.config.slot_name q.server).1 = ground (arith, same) in
      let slot : q.config.slot_name ≡ c.slot_name =
        ap (λ (k : Config). k.slot_name) (control_conn-config srv p ∙ e) in
      subst (λ name. NotPast start (srv.confirmed name q.server).1) slot
        (subst (NotPast start) reply (
          confirmed_at-NotPast start r o _ _ (ap (λ x. x.1) (sym read) ∙ confirmed)
            (ap (λ x. x.1) (sym compared) ∙ h)))

  -- What a call provides on the server before it asks about the slot: publication and slot.
  abbrev pub provides : Config → M S (Unit {0})
  provides c =
      when c.create_publication (ensure_publication srv)
      >> when c.create_slot (ensure_slot srv c.slot_name)

  -- What a call does before it sends START_REPLICATION.
  abbrev pub readies : Bytes → ℕ → M S (Unit {0})
  readies after start = reading (prepare srv after start) >> dial_replication srv

  -- A call on the subscriber `p` that opened a stream at an explicit position, and left `q`. Asked in
  -- the course of this call, after it provided for the slot, the server had confirmed no more; and
  -- where the call was ready, START_REPLICATION was accepted at just that position.
  pub record Resumed (p : Postgres S) (after : Bytes) (start : ℕ) (q : Postgres S) : Type 0 where
    pub begins : q.live ≡ some start
    pub not_past :
        NotPast start
          (srv.confirmed p.config.slot_name (control_conn srv (provides p.config p).0).0.server).1
    pub accepted :
        srv.start_replication p.config.slot_name
          (quote_literal p.config.publication_name)
          start
          (readies after start p).0.server
        ≡ (q.server, true)

  abbrev Same : Config → Postgres S → Type 0
  Same c q = q.config ≡ c

  opened :
      (start : ℕ) (accepted : Bool) (q : Postgres S)
      → (open_stream srv start accepted q).1 ≡ ok tt
      → (accepted ≡ true)
        × (open_stream srv start accepted q
            ≡ (record q { stream = true; streaming = true; live = some start }, ok tt))
  unfolding open_stream
  opened start true q h = (refl, refl)
  opened start false q h = cc

  begin_stream-Resumed :
      (b : ℕ) (text : Bytes) (start : ℕ) (p : Postgres S)
      → (begin_stream srv (b ∷ text) start p).1 ≡ ok tt
      → Resumed p (b ∷ text) start (begin_stream srv (b ∷ text) start p).0
  unfolding begin_stream start_replication prepare
  begin_stream-Resumed b text start p h =
      let c = p.config in
      let prepared : M S (Unit {0}) = reading (prepare srv (b ∷ text) start) in
      let dialled : M S (Unit {0}) = prepared >> dial_replication srv in
      let provided : M S (Unit {0}) = provides c in
      let (a, started, opening) =
        bind-ok (dialled >> start_replication srv start) (open_stream srv start) p h in
      let (_, dial_ok, starting) = bind-ok dialled (λ _. start_replication srv start) p started in
      let (_, prepare_ok, dialling) = bind-ok prepared (λ _. dial_replication srv) p dial_ok in
      let (_, provide_ok, checking) =
        bind-ok provided (λ _. check_resumable srv start) p prepare_ok in
      let kept : (prepared p).0.config ≡ c =
        either-Ends (Same c) (Same c) (Same c) (prepared p)
          (prepare-Ends srv c (Same c) (Same c) (configured srv c) (b ∷ text) start p refl)
          (λ _ k. k) (λ _ k. k) in
      let provided_config : (provided p).0.config ≡ c =
        either-Ends (Same c) (Same c) (Same c) (provided p)
          (provided-Ends srv c (Same c) (Same c) (configured srv c) p refl) (λ _ k. k) (λ _ k. k) in
      let q : Postgres S = (dialled p).0 in
      let config : q.config ≡ c =
        ap (λ r. r.0.config) dialling ∙ (dial_replication-config srv (prepared p).0 ∙ kept) in
      let checked =
        check_resumable-NotPast c start (provided p).0 provided_config
          (ap (λ r. r.1) (sym checking) ∙ prepare_ok) in
      let answer : S × Bool =
        srv.start_replication q.config.slot_name (quote_literal q.config.publication_name) start
          q.server in
      let replied_so : ok answer.1 ≡ ok a = ap (λ r. r.1) (sym starting) ∙ started in
      let open_now =
        opened start a ((dialled >> start_replication srv start) p).0
          (ap (λ r. r.1) (sym opening) ∙ h) in
      let accepted : answer.1 ≡ true =
        (let same : answer.1 ≡ a = ground (arith, replied_so) in same ∙ open_now.0) in
      let result = opening ∙ open_now.1 in
      let at_server : answer.0 ≡ (begin_stream srv (b ∷ text) start p).0.server =
        ap (λ r. r.0.server) (sym starting) ∙ ap (λ r. r.0.server) (sym result) in
      record {
        begins = ap (λ r. r.0.live) result;
        not_past = checked;
        accepted =
            ap
              (λ (k : Config).
                srv.start_replication k.slot_name (quote_literal k.publication_name) start q.server)
              (sym config)
            ∙ λ i. (at_server i, accepted i);
      }

  passes :
      (b : Bool) (e : Error) (m : M S (Unit {0})) (p : Postgres S)
      → (choose b (fail e) m p).1 ≡ ok tt
      → b ≡ false
  passes true e m p h = cc
  passes false e m p h = refl

  subscribe_at-Resumed :
      (b : ℕ) (text : Bytes) (start : ℕ) (p : Postgres S)
      → (subscribe_at srv (b ∷ text) (some start) p).1 ≡ ok tt
      → (p.closed ≡ false)
        × (p.streaming ≡ false)
        × Resumed p (b ∷ text) start (subscribe_at srv (b ∷ text) (some start) p).0
  unfolding subscribe_at unless_streaming
  subscribe_at-Resumed b text start p h =
      let begin : M S (Unit {0}) = begin_stream srv (b ∷ text) start in
      let once : M S (Unit {0}) = unless_streaming srv begin in
      let a = choose-ok p.closed closed_error once p h in
      let good = ap (λ r. r.1) (sym a) ∙ h in
      let d = choose-ok p.streaming already_subscribed begin p good in
      (
        passes p.closed closed_error once p h,
        passes p.streaming already_subscribed begin p good,
        subst (λ r. Resumed p (b ∷ text) start r.0) (sym (a ∙ d))
            (begin_stream-Resumed b text start p (ap (λ r. r.1) (sym (a ∙ d)) ∙ h)),
      )

  no_position :
      (b : ℕ) (text : Bytes) (p : Postgres S) → (subscribe_at srv (b ∷ text) none p).1 ≢ ok tt
  unfolding subscribe_at
  no_position b text p h = cc

  -- SubscribeFrom at an explicit position succeeds only on an open subscriber with no stream, for a
  -- position that is one, and gives a stream that the server agreed to start at just that position.
  -- Before that, and after the call provided for the publication and the slot, the server had
  -- answered in the same call that the slot has no confirmed position, or none above it.
  pub subscribe_from-Resumed :
      (b : ℕ) (text : Bytes) (p : Postgres S)
      → (subscribe_from srv (b ∷ text) p).1 ≡ ok tt
      → (start : ℕ) × (srv.parse_lsn (b ∷ text) ≡ some start)
        × (p.closed ≡ false)
        × (p.streaming ≡ false)
        × Resumed p (b ∷ text) start (subscribe_from srv (b ∷ text) p).0
  unfolding subscribe_from start_of parse_position
  subscribe_from-Resumed b text p h = elim (Option-cases (srv.parse_lsn (b ∷ text))) [
    | inl e ↦
        absurd (no_position b text p (subst (λ l. (subscribe_at srv (b ∷ text) l p).1 ≡ ok tt) e h))
    | inr (start, e) ↦
        let resumed =
          subscribe_at-Resumed b text start p
            (subst (λ l. (subscribe_at srv (b ∷ text) l p).1 ≡ ok tt) e h) in
        (
          start,
          e,
          resumed.0,
          resumed.1,
          subst (λ l. Resumed p (b ∷ text) start (subscribe_at srv (b ∷ text) l p).0) (sym e)
              resumed.2,
        )
  ]
