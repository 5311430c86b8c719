-- ===== src/Proxy/Session/Answered.antt =====
-- examples/gpoolproxy/session.go: the relay counts answers, and a backend is handed on when there is
-- none left to come.
use gpool.Base.{
  ℕ, suc, ◌+◌, ◌-◌, ◌≤◌, ◌≡◌, ◌≢◌, ◌⊎◌, inl, inr, refl, ap, sym, subst, ◌∙◌, Bool, true, false, not,
  ◌&&◌, ◌||◌, Option, none, some, arith, ltb, ◌==◌, if◌then◌else◌, if_both, length, Bytes,
  Bool-cases, ℤ,
}
use gpool.Proxy.Relay.{
  Result, ok, err, Sink, Header, held_header, read_header, forward_body, discard_body,
  msg_ready_for_query, tx_idle, ends_transaction_unit,
}
use gpool.Proxy.Relay.Chunks.{Result-cases, length-take}
use gpool.Proxy.Backend.{Backend}
use gpool.Proxy.Backend.Draining.{read_full-cases}
use gpool.Proxy.Session.Rounds.{
  Session, new_session, Outcome, goes_on, handed_on, ended, pump_round, swallows, complete_unit,
  relay_message, relay_round, after_unit, give_up,
}
use gpool.Proxy.Session.Handover.{
  no_ready, units_next, next_kind, pump_round-Counts, pump_round-Spares,
}

-- A body comes back with one byte exactly when it has one.
forward_body_one :
    (h : Header) (n : ℕ) (src body rest : Bytes) (dst sink : Sink)
    → forward_body h n src dst ≡ ok (body, rest, sink)
    → (length body == 1) ≡ (n == 1)
unfolding forward_body
forward_body_one h n src body rest dst sink e = elim (read_full-cases n src) [
  | inl q ↦ ground (arith, q, e)
  | inr (there, q) ↦ ground (arith, q, e, length-take n src there)
]

-- How many answers the next message of a backend is: one for a ReadyForQuery with its status.
abbrev is_ready : Result (Header × ℕ × Bytes) → Bool
is_ready (err e) = false
is_ready (ok (h, body_len, rest)) = h.kind == msg_ready_for_query && (body_len == 1)

abbrev pub answers : Bytes → ℕ
answers src = if is_ready (read_header src) then 1 else 0

-- What a round of the relay does to the count: while it goes on, the answer is counted off; where
-- it hands the backend on, this was the last answer, and it left no transaction open.
abbrev pub Relayed : ℕ → ℕ → Session × Outcome → Type 0
Relayed pending ready r =
    (r.1 ≡ goes_on → (r.0.pending ≡ pending - ready) × (no_ready r.0.expect ≡ true))
    × ((b : Backend) (flushed : Bool)
        → r.1 ≡ handed_on b flushed
        → (ready ≡ 1)
          × (pending ≤ 1)
          × (b.tx_status ≡ tx_idle)
          × (r.0.held ≡ none)
          × (r.0.pending ≡ 0)
          × (no_ready r.0.expect ≡ true))

no_ready-swallows :
    (kind : ℕ) (s : Session)
    → no_ready s.expect ≡ true
    → ((swallows kind s).0.pending ≡ s.pending)
      × (no_ready (swallows kind s).0.expect ≡ true)
      × ((kind == msg_ready_for_query) ≡ true → (swallows kind s).1 ≡ false)
unfolding swallows
no_ready-swallows kind s n = ground (arith, n)

Relayed-ended : (pending ready : ℕ) (s : Session) → Relayed pending ready (s, ended)
Relayed-ended pending ready s = (λ e. cc, λ b f e. cc)

-- A message that is no answer, or one that is swallowed.
Relayed-other :
    (pending : ℕ) (flushed : Bool) (s : Session)
    → s.pending ≡ pending
    → no_ready s.expect ≡ true
    → Relayed pending 0 (if flushed then (s, goes_on) else (record s { stopped = true }, ended))
Relayed-other pending true s e n = (λ _. (omega arith, n), λ b f q. cc)
Relayed-other pending false s e n = (λ q. cc, λ b f q. cc)

-- An answer: what `completeUnit` and the flush after it make of the count.
Relayed-unit :
    (flushed : Bool) (source : Backend) (status : ℕ) (s : Session)
    → no_ready s.expect ≡ true
    → Relayed s.pending 1 (after_unit flushed (complete_unit source status s))
unfolding complete_unit
Relayed-unit flushed source status s n =
    if_both (λ (r : Session × Option Backend). Relayed s.pending 1 (after_unit flushed r))
      (ltb 0 (s.pending - 1) || not (status == tx_idle)) _ _
      (λ _. elim (Bool-cases flushed) [
        | inl f ↦ rw f (λ _. (refl, n), λ b g q. cc)
        | inr f ↦ rw f (λ q. cc, λ b g q. cc)
      ])
      (λ e. (
        λ q. cc,
        λ b g q.
            let same : record source { tx_status = status } ≡ b = cc in
            (
              refl,
              ground (arith, e),
              ap (λ (t : Backend). t.tx_status) (sym same) ∙ ground (arith, e),
              refl,
              ground (arith, e),
              n,
            ),
      ))

relay_message-Relayed :
    (flushed : Bool) (source : Backend) (h : Header) (body_len : ℕ) (rest : Bytes)
    (r : Session × Bool)
    → no_ready r.0.expect ≡ true
    → ((h.kind == msg_ready_for_query) ≡ true → r.1 ≡ false)
    → Relayed r.0.pending
        (if h.kind == msg_ready_for_query && (body_len == 1) then 1 else 0)
        (relay_message flushed source h body_len rest r)
unfolding relay_message
relay_message-Relayed flushed source h body_len rest (s, true) n own =
    let other : (h.kind == msg_ready_for_query) ≡ false = ground (arith, own) in
    rw other (elim (Result-cases (discard_body (suc body_len) body_len rest)) [
      | inl (e, t) ↦ rw (t, relay_message) (Relayed-ended s.pending 0 (give_up source s).0)
      | inr (rest', t) ↦
          let s' : Session = record s { held = some (record source { reader = rest' }) } in
          rw (t, relay_message) (Relayed-other s.pending true s' refl n)
    ])
relay_message-Relayed flushed source h body_len rest (s, false) n own =
    elim (Result-cases (forward_body h body_len rest s.writer)) [
      | inl (e, t) ↦ rw (t, relay_message) (Relayed-ended s.pending _ (give_up source s).0)
      | inr ((body, rest', sink), t) ↦
          let source' : Backend = record source { reader = rest' } in
          let s' : Session = record s { held = some source'; writer = sink } in
          rw (t, relay_message)
            (rw (forward_body_one h body_len rest body rest' s.writer sink t)
              (elim (Bool-cases (h.kind == msg_ready_for_query && (body_len == 1))) [
                | inl u ↦ rw u (Relayed-unit flushed source' (held_header body).kind s' n)
                | inr u ↦ rw u (Relayed-other s.pending flushed s' refl n)
              ]))
    ]

relay_round-Relayed :
    (flushed : Bool) (source : Backend) (s : Session)
    → no_ready s.expect ≡ true
    → Relayed s.pending (answers source.reader) (relay_round flushed source s)
unfolding relay_round
relay_round-Relayed flushed source s n = elim (Result-cases (read_header source.reader)) [
  | inl (e, q) ↦ rw (q, relay_round) (Relayed-ended s.pending 0 (give_up source s).0)
  | inr ((h, body_len, rest), q) ↦
      let (counted, spared, own) = no_ready-swallows h.kind s n in
      rw (q, relay_round)
        (subst
          (λ (p : ℕ).
            Relayed p (if h.kind == msg_ready_for_query && (body_len == 1) then 1 else 0)
              (relay_message flushed source h body_len rest (swallows h.kind s)))
          counted
          (relay_message-Relayed flushed source h body_len rest (swallows h.kind s) spared own))
]

-- The messages that a PostgreSQL server answers with a ReadyForQuery: Query ('Q'), Sync ('S') and
-- FunctionCall ('F').
abbrev pub asks : Option ℕ → ℕ
asks none = 0
asks (some kind) = if kind == 81 then 1 else if kind == 83 then 1 else if kind == 70 then 1 else 0

asks-units_next : (kind : Option ℕ) → asks kind ≡ units_next kind
unfolding ends_transaction_unit
asks-units_next none = refl
asks-units_next (some kind) = ground arith

-- A session's history with two counts: of the messages it forwarded that the server answers with a
-- ReadyForQuery, and of those answers. The pump and the relay take their rounds in any order. The
-- server answers no more than it was asked, which is a condition of a round that relays an answer.
pub data Serves (limit : ℤ) (reader : Bytes) (writer : Sink) : Session → ℕ → ℕ → Type 0 where
  starts :
      {s : Session} {n : ℕ}
      → s ≡ new_session limit reader writer
      → n ≡ 0
      → Serves limit reader writer s n n
  pumps :
      {s : Session} {asked answered : ℕ} (acquired : Option Backend) (flushed : Bool)
      → Serves limit reader writer s asked answered
      → (pump_round acquired flushed s).1 ≡ goes_on
      → Serves limit reader writer
          (pump_round acquired flushed s).0
          (asked + asks (next_kind s.reader))
          answered
  relays :
      {s : Session} {asked answered : ℕ} (flushed : Bool) (source : Backend)
      → Serves limit reader writer s asked answered
      → s.held ≡ some source
      → answered + answers source.reader ≤ asked
      → (relay_round flushed source s).1 ≢ ended
      → Serves limit reader writer
          (relay_round flushed source s).0
          asked
          (answered + answers source.reader)

Outcome-cases :
    (o : Outcome) → (o ≡ goes_on) ⊎ ((b : Backend) × (f : Bool) × (o ≡ handed_on b f)) ⊎ (o ≡ ended)
Outcome-cases goes_on = inl refl
Outcome-cases (handed_on b f) = inr (inl (b, f, refl))
Outcome-cases ended = inr (inr refl)

-- However the two goroutines take turns, `pending` is the number of answers still to come.
pub Serves-pending :
    {limit : ℤ} {reader : Bytes} {writer : Sink} {s : Session} {asked answered : ℕ}
    → Serves limit reader writer s asked answered
    → (s.pending + answered ≡ asked) × (no_ready s.expect ≡ true)
unfolding new_session
Serves-pending {limit} {reader} {writer} {s} (starts e z) = (
  ground (arith, z, ap (λ (t : Session). t.pending) e),
  ap (λ (t : Session). no_ready t.expect) e,
)
Serves-pending (pumps {s} acquired flushed r go) =
    let (p, n) = Serves-pending r in
    (
      omega
          (arith, p, asks-units_next (next_kind s.reader), pump_round-Counts acquired flushed s go),
      pump_round-Spares acquired flushed s go n,
    )
Serves-pending (relays {s} flushed source r held owed alive) =
    let (p, n) = Serves-pending r in
    let (on, handed) = relay_round-Relayed flushed source s n in
    elim (Outcome-cases (relay_round flushed source s).1) [
      | inl e ↦ (omega (arith, p, owed, (on e).0), (on e).1)
      | inr (inl (b, f, e)) ↦
          let (one, few, _, _, none_left, spared) = handed b f e in
          (omega (arith, p, owed, one, few, none_left), spared)
      | inr (inr e) ↦ absurd (alive e)
    ]

-- A backend is handed on only when its client is fully answered. However the pump and the relay take
-- turns, and whatever bytes come in: when a round of the relay gives the backend back to the pool,
-- it has just relayed as many of ReadyForQuery as the client sent messages that a server answers with
-- one, the last of them said that no transaction is open, and the session holds no backend any more.
-- The server is taken to give no more of those answers than it was asked for.
pub handed_on-answered :
    {limit : ℤ} {reader : Bytes} {writer : Sink} {s : Session} {asked answered : ℕ}
    (flushed f : Bool) (source b : Backend)
    → Serves limit reader writer s asked answered
    → s.held ≡ some source
    → answered + answers source.reader ≤ asked
    → (relay_round flushed source s).1 ≡ handed_on b f
    → (answered + answers source.reader ≡ asked)
      × (b.tx_status ≡ tx_idle)
      × ((relay_round flushed source s).0.held ≡ none)
handed_on-answered {s} flushed f source b r held owed e =
    let (p, n) = Serves-pending r in
    let (one, few, idle, gone, _, _) = (relay_round-Relayed flushed source s n).1 b f e in
    (omega (arith, p, owed, one, few), idle, gone)
