-- ===== src/Proxy/Backend.antt =====
-- examples/gpoolproxy: backend.go and driver.go, one server connection and what the pool asks of it.
--
-- The reader is what the server will still send. Setting a deadline and flushing can fail; whether
-- they do, and the encoded message that asks for a rollback, are arguments.
pub mod Draining
pub mod Clean
use gpool.Base.{
  ℕ, zero, suc, ◌+◌, ◌-◌, Bool, true, false, not, ◌||◌, List, [], ◌∷◌, Option, none, some, ltb,
  ◌==◌, if◌then◌else◌, length, Bytes, ℤ,
}
use gpool.Pooling.Conn.{Driver}
use gpool.Proxy.Statements.{Statements, new_statements}
use gpool.Proxy.Relay.{
  Fault, out_of_range, out_of_fuel, write_failed, not_idle, Result, ok, err, Sink, read_full, write,
  header_size, max_message_len, msg_ready_for_query, tx_idle, Header, held_header, uint32,
}

pub record Backend : Type 0 where
  pub reader : Bytes
  pub writer : Sink
  pub pid : ℕ
  pub secret : Bytes
  pub tx_status : ℕ
  pub prepared : Statements
  pub broken : Bool

-- The part of `Connect` that is not pgconn's: it refuses a connection that has bytes left over from
-- the handshake.
unfoldable pub take_over : ℤ → ℕ → ℕ → Bytes → Bytes → Sink → Option Backend
take_over max_prepared buffered pid secret reader writer =
    if buffered == 0
    then some (record {
      reader = reader;
      writer = writer;
      pid = pid;
      secret = secret;
      tx_status = tx_idle;
      prepared = new_statements max_prepared;
      broken = false;
    })
    else none

abbrev pub fail : Backend → Backend
fail b = record b { broken = true }

-- After the header of ReadyForQuery: one byte of status, whatever the message's length says.
unfoldable pub read_status : Backend → Bytes → Backend × Result (Unit {0})
read_status b src = elim (read_full 1 src) [
  | err e ↦ (b, err e)
  | ok (bytes, rest) ↦
      let status : ℕ = (held_header bytes).kind in
      let b' : Backend = record b { reader = rest; tx_status = status } in
      if status == tx_idle then (b', ok tt) else (b', err (not_idle status))
]

unfoldable pub drain_to_ready : ℕ → Backend → Backend × Result (Unit {0})
drain_to_ready zero b = (b, err out_of_fuel)
drain_to_ready (suc fuel) b = elim (read_full header_size b.reader) [
  | err e ↦ (b, err e)
  | ok (bytes, rest) ↦
      let h = held_header bytes in
      let n : ℕ = uint32 h.spelled in
      let skipped : Backend × Result (Unit {0}) = elim (read_full (n - 4) rest) [
        | err e ↦ (b, err e)
        | ok (_, rest') ↦ drain_to_ready fuel (record b { reader = rest' })
      ] in
      if ltb n 4 || ltb max_message_len (n - 4)
      then (b, err (out_of_range n))
      else if not (h.kind == msg_ready_for_query)
      then skipped
      else read_status b rest
]

-- `rollback`, with the answers of SetDeadline and Flush. One round more than there are bytes is
-- enough for the drain.
unfoldable pub rollback : Bytes → Bool → Bool → Backend → Backend × Result (Unit {0})
rollback encoded deadline_set flushes b = elim (write encoded b.writer) [
  | err e ↦ (b, err (if deadline_set then e else write_failed))
  | ok sink ↦
      let b' : Backend = record b { writer = sink } in
      let drained = drain_to_ready (suc (length b.reader)) b' in
      if not deadline_set
      then (b, err write_failed)
      else if not flushes
      then (b', err write_failed)
      else drained
]

abbrev pub dead : Backend → Bool
dead b = b.broken

abbrev pub needs_cleanup : Backend → Bool
needs_cleanup b = not (b.tx_status == tx_idle)

abbrev pub succeeded : Result (Unit {0}) → Bool
succeeded (ok _) = true
succeeded (err _) = false

unfoldable pub recyclable : Bytes → Bool → Bool → Backend → Backend × Bool
recyclable encoded deadline_set flushes b =
    let (b', result) = rollback encoded deadline_set flushes b in
    if succeeded result then (b', true) else (fail b', false)

-- `Close`: a broken connection is not told, any other is sent the encoded Terminate.
unfoldable pub close : Bytes → Backend → Backend × Result (Unit {0})
close encoded b = elim (write encoded b.writer) [
  | err e ↦ (b, if b.broken then ok tt else err e)
  | ok sink ↦ (if b.broken then b else record b { writer = sink }, ok tt)
]

-- The vendor's callbacks that the pooling engine is given.
unfoldable pub backend_driver : Bytes → Bool → Bool → Driver Backend
unfolding recyclable
backend_driver encoded deadline_set flushes = record {
  dead = dead;
  needs_cleanup = needs_cleanup;
  recyclable = recyclable encoded deadline_set flushes;
  ready = none;
}
