-- ===== src/Proxy/Session.antt =====
-- examples/gpoolproxy/session.go: one client connection, past its startup.
--
-- `Link` is what the steps that are given a backend touch: that backend, the client's prepared
-- statements, and the completions that the backend owes for injected messages, oldest first. A step
-- may fail after it has written something, so it is a function from a link to a link and a result.
-- The pump and the relay each hold the session's mutex from a lock to its unlock; a function here is
-- what one of them does in between, or a whole round whose parts say where the mutex is released.
pub mod Rounds
pub mod Replay
pub mod Agreement
pub mod Reconcile
pub mod Swallow
pub mod Delivery
pub mod Ready
pub mod Handover
pub mod Answered
use gpool.Base.{
  ℕ, zero, suc, ◌+◌, ◌-◌, Bool, true, false, not, ◌&&◌, ◌||◌, List, [], ◌∷◌, ◌++◌, Option, none,
  some, ltb, ◌==◌, if◌then◌else◌, length, ℤ, Bytes, same_bytes,
}
use gpool.Proxy.Statements.{Statements, new_statements, remember, forget, lookup}
use gpool.Proxy.Wire.{
  msg_parse, msg_bind, msg_describe, msg_close, parse_name, statement_name_of, names_statement,
  close_statement,
}
use gpool.Proxy.Relay.{
  Fault, no_backend, write_failed, Result, ok, err, Sink, write, drop, header_size, Header,
  header_bytes, read_header, read_body, forward_body, discard_body, ends_transaction_unit,
  msg_terminate, msg_ready_for_query, tx_idle,
}
use gpool.Proxy.Backend.{Backend, fail}

-- The letters 1 and 3.
abbrev pub msg_parse_complete : ℕ
msg_parse_complete = 49

abbrev pub msg_close_complete : ℕ
msg_close_complete = 51

pub record Link : Type 0 where
  pub target : Backend
  pub statements : Statements
  pub expect : List ℕ

abbrev pub Step : Type 0
Step = Link → Link × Result (Unit {0})

abbrev pub done : Step
done l = (l, ok tt)

infixl 5 ◌>>◌
abbrev pub ◌>>◌ : Step → Step → Step
◌>>◌ m k l = elim (m l).1 [ ok _ ↦ k (m l).0 | err e ↦ ((m l).0, err e) ]

unfoldable pub inject : Bytes → ℕ → Step
inject message completion l = elim (write message l.target.writer) [
  | err e ↦ (record l { target = fail l.target }, err e)
  | ok sink ↦ (
    record l { target = record (l.target) { writer = sink }; expect = l.expect ++ completion ∷ [] },
    ok tt,
  )
]

-- `hold`: what the backend's set discards to make room is closed on the server.
unfoldable pub hold : Bytes → Bytes → Step
unfolding inject
hold name message l =
    let (prepared, evicted) = remember name message l.target.prepared in
    let l' : Link = record l { target = record (l.target) { prepared = prepared } } in
    elim evicted [
      | none ↦ (l', ok tt)
      | some old ↦ inject (close_statement old) msg_close_complete l'
    ]

-- A look at the backend's set, which counts as a use.
abbrev pub touch : Bytes → Link → Link
touch name l = record l {
  target = record (l.target) { prepared = (lookup name l.target.prepared).0 };
}

unfoldable pub ensure_prepared : Bytes → Step
unfolding hold inject
ensure_prepared name l =
    let (statements, known) = lookup name l.statements in
    let l' : Link = record l { statements = statements } in
    elim known [
      | none ↦ (l', ok tt)
      | some remembered ↦
          let replay : Step = inject remembered msg_parse_complete >> hold name remembered in
          elim (lookup name l'.target.prepared).1 [
            | none ↦ replay (touch name l')
            | some held ↦
                if same_bytes held remembered
                then (touch name l', ok tt)
                else (inject (close_statement name) msg_close_complete >> replay) (touch name l')
          ]
    ]

-- A name that the backend holds is closed on it, whoever put it there.
unfoldable pub free_name : Bytes → Step
free_name name l = elim (lookup name l.target.prepared).1 [
  | none ↦ (touch name l, ok tt)
  | some held ↦ inject (close_statement name) msg_close_complete (touch name l)
]

-- The client's set remembers the message, and what that set then finds is held.
unfoldable pub keep : Bytes → Bytes → Step
keep name message l =
    let (statements, remembered) = lookup name (remember name message l.statements).0 in
    let l' : Link = record l { statements = statements } in
    elim remembered [ none ↦ hold name [] l' | some m ↦ hold name m l' ]

-- A Parse of a named statement.
unfoldable pub reconcile_parse : Bytes → Bytes → Step
unfolding free_name keep
reconcile_parse name message = free_name name >> keep name message

unfoldable pub forget_both : Bytes → Step
forget_both name l = (
  record l {
    target = record (l.target) { prepared = forget name l.target.prepared };
    statements = forget name l.statements;
  },
  ok tt,
)

-- The cases of `reconcile` for a message that names no statement, or the unnamed one, do nothing.
abbrev for_name : Option Bytes → (Bytes → Step) → Step
for_name none k l = (l, ok tt)
for_name (some []) k l = (l, ok tt)
for_name (some (b ∷ name)) k l = k (b ∷ name) l

unfoldable pub reconcile : ℕ → Bytes → Step
unfolding reconcile_parse forget_both ensure_prepared
reconcile kind message l =
    let body : Bytes = drop header_size message in
    if kind == msg_parse
    then for_name (parse_name body) (λ name. reconcile_parse name message) l
    else if kind == msg_bind || (kind == msg_describe || kind == msg_close)
    then for_name (statement_name_of kind body)
        (λ name. if kind == msg_close then forget_both name else ensure_prepared name) l
    else (l, ok tt)
