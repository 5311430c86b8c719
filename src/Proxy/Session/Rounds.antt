-- ===== src/Proxy/Session/Rounds.antt =====
-- examples/gpoolproxy/session.go: the rounds of the pump and of the relay, and the session's end.
--
-- A channel hands the attached backend to the relay, so the backend that the relay reads is the one
-- that is held. What a flush gives, if a round makes one, is an argument, and so is what the pool
-- gives when it is asked for a backend.
use gpool.Base.{
  ℕ, zero, suc, ◌+◌, ◌-◌, Bool, true, false, not, ◌&&◌, ◌||◌, List, [], ◌∷◌, Option, none, some,
  ltb, ◌==◌, if◌then◌else◌, length, ℤ, Bytes,
}
use gpool.Proxy.Statements.{Statements, new_statements}
use gpool.Proxy.Wire.{names_statement}
use gpool.Proxy.Relay.{
  no_backend, write_failed, Result, ok, err, Sink, write, Header, held_header, read_header,
  read_body, forward_body, discard_body, ends_transaction_unit, msg_terminate, msg_ready_for_query,
  tx_idle,
}
use gpool.Proxy.Backend.{Backend, fail}
use gpool.Proxy.Session.{Link, reconcile}

-- The fields of `session`; `held` is set while `attached`, and `stopped` once its context ended.
pub record Session : Type 0 where
  pub reader : Bytes
  pub writer : Sink
  pub held : Option Backend
  pub statements : Statements
  pub expect : List ℕ
  pub pending : ℕ
  pub stopped : Bool

unfoldable pub new_session : ℤ → Bytes → Sink → Session
new_session max_prepared reader writer = record {
  reader = reader;
  writer = writer;
  held = none;
  statements = new_statements max_prepared;
  expect = [];
  pending = 0;
  stopped = false;
}

unfoldable pub ensure_backend : Option Backend → Session → Session × Result Backend
ensure_backend acquired s = elim s.held [
  | some target ↦ (s, ok target)
  | none ↦ elim acquired [
    | none ↦ (s, err no_backend)
    | some target ↦ (record s { held = some target }, ok target)
  ]
]

abbrev pub link_of : Session → Backend → Link
link_of s target = record { target = target; statements = s.statements; expect = s.expect }

abbrev pub unlink : Session → Link → Session
unlink s l = record s { held = some l.target; statements = l.statements; expect = l.expect }

-- The end of `forward`: the message is counted, then the backend's writer flushed.
unfoldable pub count_unit : ℕ → Bool → Backend → Session → Session × Result (Unit {0})
count_unit kind flushed target s =
    let s' : Session = record s {
      held = some target;
      pending = if ends_transaction_unit kind then s.pending + 1 else s.pending;
    } in
    if flushed then (s', ok tt) else (record s' { held = some (fail target) }, err write_failed)

-- `forward` of a message that names a statement, once it is read.
unfoldable pub forward_named : ℕ → Bytes → Bool → Backend → Session → Session × Result (Unit {0})
unfolding reconcile count_unit
forward_named kind message flushed target s =
    let r = reconcile kind message (link_of s target) in
    let l = r.0 in
    elim r.1 [
      | err e ↦ (unlink s l, err e)
      | ok _ ↦ elim (write message l.target.writer) [
        | err e ↦ (record (unlink s l) { held = some (fail l.target) }, err e)
        | ok sink ↦ count_unit kind flushed (record (l.target) { writer = sink }) (unlink s l)
      ]
    ]

unfoldable pub forward_bulk : Header → ℕ → Bool → Backend → Session → Session × Result (Unit {0})
unfolding count_unit
forward_bulk h body_len flushed target s = elim (forward_body h body_len s.reader target.writer) [
  | err e ↦ (record s { held = some (fail target) }, err e)
  | ok (_, rest, sink) ↦
      count_unit h.kind flushed (record target { writer = sink }) (record s { reader = rest })
]

-- `forward`; the mutex is taken once a message that has to be read whole is read.
unfoldable pub forward : Option Backend → Bool → Header → ℕ → Session → Session × Result (Unit {0})
unfolding forward_named forward_bulk ensure_backend
forward acquired flushed h body_len s =
    if names_statement h.kind
    then elim (read_body h body_len s.reader) [
      | err e ↦ (s, err e)
      | ok (message, rest) ↦
          let a = ensure_backend acquired (record s { reader = rest }) in
          elim a.1 [
            | err e ↦ (a.0, err e)
            | ok target ↦ forward_named h.kind message flushed target a.0
          ]
    ]
    else (let a = ensure_backend acquired s in
        elim a.1 [ err e ↦ (a.0, err e) | ok target ↦ forward_bulk h body_len flushed target a.0 ])

-- Whether a loop goes on, or ends: with its backend back in the pool, and then whether the relay may
-- wait for another, or for good.
pub data Outcome : Type 0 where
  goes_on : Outcome
  handed_on : Backend → Bool → Outcome
  ended : Outcome

abbrev outcome_of : Result (Unit {0}) → Outcome
outcome_of (ok _) = goes_on
outcome_of (err _) = ended

-- One round of `pump`.
unfoldable pub pump_round : Option Backend → Bool → Session → Session × Outcome
unfolding forward
pump_round acquired flushed s = elim (read_header s.reader) [
  | err e ↦ (s, ended)
  | ok (h, body_len, rest) ↦
      let r = forward acquired flushed h body_len (record s { reader = rest }) in
      if h.kind == msg_terminate then (record s { reader = rest }, ended) else (r.0, outcome_of r.1)
]

abbrev pub head_is : List ℕ → ℕ → Bool
head_is [] kind = false
head_is (k ∷ ks) kind = k == kind

abbrev pub tail : List ℕ → List ℕ
tail [] = []
tail (k ∷ ks) = ks

unfoldable pub swallows : ℕ → Session → Session × Bool
swallows kind s =
    if head_is s.expect kind then (record s { expect = tail s.expect }, true) else (s, false)

-- `completeUnit`, with the backend that goes back to the pool, if it does.
unfoldable pub complete_unit : Backend → ℕ → Session → Session × Option Backend
complete_unit source status s =
    let source' : Backend = record source { tx_status = status } in
    let s' : Session = record s { held = some source'; pending = s.pending - 1 } in
    if ltb 0 s'.pending || not (status == tx_idle)
    then (s', none)
    else (record s' { held = none }, some source')

-- A read or a write failed: the backend is spoiled, and the session's context ends.
abbrev pub give_up : Backend → Session → Session × Outcome
give_up source s = (record s { held = some (fail source); stopped = true }, ended)

abbrev pub after_flush : Bool → Session → Session × Outcome
after_flush flushed s = if flushed then (s, goes_on) else (record s { stopped = true }, ended)

-- After ReadyForQuery.
abbrev pub after_unit : Bool → Session × Option Backend → Session × Outcome
after_unit flushed (s, none) = after_flush flushed s
after_unit flushed (s, some b) = (s, handed_on b flushed)

-- A message of the backend whose header is read, with what `swallows` made of it.
unfoldable pub relay_message :
    Bool → Backend → Header → ℕ → Bytes → Session × Bool → Session × Outcome
relay_message flushed source h body_len rest (s, true) =
    elim (discard_body (suc body_len) body_len rest) [
      | err e ↦ give_up source s
      | ok rest' ↦ (record s { held = some (record source { reader = rest' }) }, goes_on)
    ]
relay_message flushed source h body_len rest (s, false) =
    elim (forward_body h body_len rest s.writer) [
      | err e ↦ give_up source s
      | ok (body, rest', sink) ↦
          let source' : Backend = record source { reader = rest' } in
          let s' : Session = record s { held = some source'; writer = sink } in
          if h.kind == msg_ready_for_query && (length body == 1)
          then after_unit flushed (complete_unit source' (held_header body).kind s')
          else after_flush flushed s'
    ]

-- One round of `relayFrom`. The mutex is free between `swallows` and `completeUnit`.
unfoldable pub relay_round : Bool → Backend → Session → Session × Outcome
unfolding relay_message
relay_round flushed source s = elim (read_header source.reader) [
  | err e ↦ give_up source s
  | ok (h, body_len, rest) ↦ relay_message flushed source h body_len rest (swallows h.kind s)
]

-- `relayFrom`: rounds on the backend that is held, until one does not go on; `fuel` is how many
-- messages it gets to.
unfoldable pub relay_from : ℕ → Bool → Session → Session × Outcome
relay_from zero flushed s = (s, goes_on)
relay_from (suc fuel) flushed s = elim s.held [
  | none ↦ (s, ended)
  | some source ↦
      let (s', o) = relay_round flushed source s in
      elim o [
        | goes_on ↦ relay_from fuel flushed s'
        | handed_on b on ↦ (s', handed_on b on)
        | ended ↦ (s', ended)
      ]
]

-- `detach`, once the client is gone: the relay's read is interrupted, so that of the server's bytes
-- only those that were already buffered are read.
unfoldable pub detach : Bytes → Session → Session
detach buffered s = elim s.held [
  | none ↦ s
  | some b ↦ record s { held = some (fail (record b { reader = buffered })) }
]

unfoldable pub release_backend : Session → Session × Option Backend
release_backend s = (record s { held = none }, s.held)

abbrev pub current_backend : Session → Option Backend
current_backend s = s.held
