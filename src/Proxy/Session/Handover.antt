-- ===== src/Proxy/Session/Handover.antt =====
-- examples/gpoolproxy/session.go: a backend goes back to the pool when its client is fully answered.
use gpool.Base.{
  ℕ, ◌+◌, ◌≡◌, inl, inr, refl, Bool, true, not, ◌&&◌, List, [], ◌∷◌, ◌++◌, Option, none, some,
  arith, ◌==◌, if◌then◌else◌, if_both, Bytes, map, Bool-cases,
}
use gpool.Proxy.Wire.{names_statement}
use gpool.Proxy.Relay.{
  Result, ok, err, Sink, Header, read_header, read_body, ends_transaction_unit, msg_terminate,
  msg_ready_for_query,
}
use gpool.Proxy.Relay.Chunks.{Result-cases}
use gpool.Proxy.Backend.{Backend}
use gpool.Proxy.Session.{Link, reconcile}
use gpool.Proxy.Statements.View.{view}
use gpool.Proxy.Session.Replay.{Effect, parsed, closed, completion_of}
use gpool.Proxy.Session.Reconcile.{reconcile-Reconciled}
use gpool.Proxy.Session.Rounds.{
  Session, ensure_backend, link_of, unlink, count_unit, forward_named, forward_bulk, forward,
  goes_on, pump_round,
}

-- How many answers of ReadyForQuery a message of a kind will have.
abbrev pub units : ℕ → ℕ
units kind = if ends_transaction_unit kind then 1 else 0

-- A step that succeeds has counted `k` more.
abbrev Counts : ℕ → Session × Result (Unit {0}) → Type 0
Counts n r = r.1 ≡ ok tt → r.0.pending ≡ n

count_unit-Counts :
    (kind : ℕ) (flushed : Bool) (target : Backend) (s : Session)
    → Counts (s.pending + units kind) (count_unit kind flushed target s)
unfolding count_unit
count_unit-Counts kind flushed target s = ground arith

forward_named-Counts :
    (kind : ℕ) (message : Bytes) (flushed : Bool) (target : Backend) (s : Session)
    → Counts (s.pending + units kind) (forward_named kind message flushed target s)
unfolding forward_named
forward_named-Counts kind message flushed target s =
    let l = (reconcile kind message (link_of s target)).0 in
    ground (
      arith,
      λ (sink : Sink).
          count_unit-Counts kind flushed (record (l.target) { writer = sink }) (unlink s l),
    )

forward_bulk-Counts :
    (h : Header) (body_len : ℕ) (flushed : Bool) (target : Backend) (s : Session)
    → Counts (s.pending + units h.kind) (forward_bulk h body_len flushed target s)
unfolding forward_bulk
forward_bulk-Counts h body_len flushed target s = ground (
  arith,
  λ (rest : Bytes) (sink : Sink).
      count_unit-Counts h.kind flushed (record target { writer = sink })
        (record s { reader = rest }),
)

ensure_backend_pending :
    (acquired : Option Backend) (s : Session) → (ensure_backend acquired s).0.pending ≡ s.pending
unfolding ensure_backend
ensure_backend_pending acquired s = ground arith

forward-Counts :
    (acquired : Option Backend) (flushed : Bool) (h : Header) (body_len : ℕ) (s : Session)
    → Counts (s.pending + units h.kind) (forward acquired flushed h body_len s)
unfolding forward
forward-Counts acquired flushed h body_len s =
    grind (arith, forward_named-Counts, forward_bulk-Counts, ensure_backend_pending)

-- The kind of the message that a stream of bytes starts with, if it is a whole header.
abbrev pub next_kind : Bytes → Option ℕ
next_kind src = elim (read_header src) [ err e ↦ none | ok (h, body_len, rest) ↦ some h.kind ]

abbrev pub units_next : Option ℕ → ℕ
units_next none = 0
units_next (some kind) = units kind

pub pump_round-Counts :
    (acquired : Option Backend) (flushed : Bool) (s : Session)
    → (pump_round acquired flushed s).1 ≡ goes_on
    → (pump_round acquired flushed s).0.pending ≡ s.pending + units_next (next_kind s.reader)
unfolding pump_round
pump_round-Counts acquired flushed s = grind (arith, forward-Counts)

-- Nothing that is owed for an injected message is a ReadyForQuery.
abbrev pub no_ready : List ℕ → Bool
no_ready [] = true
no_ready (k ∷ ks) = not (k == msg_ready_for_query) && no_ready ks

no_ready-completions :
    (ks : List ℕ) (es : List Effect)
    → no_ready ks ≡ true
    → no_ready (ks ++ map completion_of es) ≡ true
no_ready-completions [] [] n = refl
no_ready-completions [] (parsed name message ∷ es) n = no_ready-completions [] es refl
no_ready-completions [] (closed name ∷ es) n = no_ready-completions [] es refl
no_ready-completions (k ∷ ks) es n = ground (arith, n, no_ready-completions ks es)

-- A step that succeeds owes no ReadyForQuery if it owed none.
abbrev Spares : Bool → Session × Result (Unit {0}) → Type 0
Spares before r = r.1 ≡ ok tt → before ≡ true → no_ready r.0.expect ≡ true

reconcile-Spares :
    (kind : ℕ) (message : Bytes) (l : Link)
    → (reconcile kind message l).1 ≡ ok tt
    → no_ready l.expect ≡ true
    → no_ready (reconcile kind message l).0.expect ≡ true
reconcile-Spares kind message l h n =
    let r = (reconcile-Reconciled kind message (view l.target.prepared) l (λ j. refl) h).0 in
    rw r.sent.owes (no_ready-completions l.expect r.injected n)

count_unit_expect :
    (kind : ℕ) (flushed : Bool) (target : Backend) (s : Session)
    → (count_unit kind flushed target s).0.expect ≡ s.expect
unfolding count_unit
count_unit_expect kind flushed target s = ground arith

forward_named-Spares :
    (kind : ℕ) (message : Bytes) (flushed : Bool) (target : Backend) (s : Session)
    → Spares (no_ready s.expect) (forward_named kind message flushed target s)
unfolding forward_named
forward_named-Spares kind message flushed target s =
    let l = (reconcile kind message (link_of s target)).0 in
    ground (
      arith,
      reconcile-Spares kind message (link_of s target),
      λ (sink : Sink).
          count_unit_expect kind flushed (record (l.target) { writer = sink }) (unlink s l),
    )

forward_bulk-Spares :
    (h : Header) (body_len : ℕ) (flushed : Bool) (target : Backend) (s : Session)
    → Spares (no_ready s.expect) (forward_bulk h body_len flushed target s)
unfolding forward_bulk count_unit
forward_bulk-Spares h body_len flushed target s = ground arith

ensure_backend_expect :
    (acquired : Option Backend) (s : Session) → (ensure_backend acquired s).0.expect ≡ s.expect
unfolding ensure_backend
ensure_backend_expect acquired s = ground arith

forward-Spares :
    (acquired : Option Backend) (flushed : Bool) (h : Header) (body_len : ℕ) (s : Session)
    → Spares (no_ready s.expect) (forward acquired flushed h body_len s)
unfolding forward
forward-Spares acquired flushed h body_len s =
    let before : Bool = no_ready s.expect in
    if_both (Spares before) (names_statement h.kind) _ _
      (λ _. elim (Result-cases (read_body h body_len s.reader)) [
        | inl (e, q) ↦ rw q (λ f. cc)
        | inr ((message, rest), q) ↦
            let a = ensure_backend acquired (record s { reader = rest }) in
            let same = ensure_backend_expect acquired (record s { reader = rest }) in
            rw q (elim (Result-cases a.1) [
              | inl (e, t) ↦ rw t (λ f. cc)
              | inr (target, t) ↦
                  let r = forward_named-Spares h.kind message flushed target a.0 in
                  rw t (λ f n. r f (rw same n))
            ])
      ])
      (λ _.
        let a = ensure_backend acquired s in
        let same = ensure_backend_expect acquired s in
        elim (Result-cases a.1) [
          | inl (e, t) ↦ rw t (λ f. cc)
          | inr (target, t) ↦
              let r = forward_bulk-Spares h body_len flushed target a.0 in
              rw t (λ f n. r f (rw same n))
        ])

pub pump_round-Spares :
    (acquired : Option Backend) (flushed : Bool) (s : Session)
    → (pump_round acquired flushed s).1 ≡ goes_on
    → no_ready s.expect ≡ true
    → no_ready (pump_round acquired flushed s).0.expect ≡ true
unfolding pump_round
pump_round-Spares acquired flushed s = elim (Result-cases (read_header s.reader)) [
  | inl (e, q) ↦ rw (q, pump_round) (λ h. cc)
  | inr ((h, body_len, rest), q) ↦
      let s' : Session = record s { reader = rest } in
      let r = forward acquired flushed h body_len s' in
      let spares = forward-Spares acquired flushed h body_len s' in
      rw (q, pump_round)
        (elim (Bool-cases (h.kind == msg_terminate)) [
          | inl t ↦ rw t (λ f. cc)
          | inr t ↦ rw t (elim (Result-cases r.1) [
            | inl (e, u) ↦ rw u (λ f. cc)
            | inr (_, u) ↦ rw u (λ f n. spares u n)
          ])
        ])
]
