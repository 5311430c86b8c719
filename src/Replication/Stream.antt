-- ===== src/Replication/Stream.antt =====
-- pkg/vendors/postgres/cdc/event_stream.go and pending_event.go: a live replication stream.
--
-- The reader goroutine and the consumer's loop run concurrently. A move is one handler of the
-- reader, run without interruption up to the `select` in which it hands an event over, or one step
-- of the consumer. Nothing that the consumer does can change what `catchUp` decides between its
-- reads: it stores a position only if the channel is empty and no event is unconfirmed.
--
-- pglogrepl parses the messages; a message that it cannot parse is `none`. A position is a uint64.
pub mod Moves
pub mod Confirms
pub mod Handlers
pub mod Delivery
use gpool.Base.{
  ℕ, ◌+◌, ◌%◌, ◌^◌, ◌≡◌, Bool, true, false, not, ◌||◌, List, [], ◌∷◌, ◌++◌, Option, none, some,
  ◌==◌, ltb, leb, max, min, if◌then◌else◌, length, Bytes, get, put,
}
use gpool.Replication.Decode.{
  Relation, Tuple, Transaction, Event, decode_insert, decode_update, decode_delete,
}

pub record Pending : Type 0 where
  pub event : Event
  pub lsn : ℕ

pub data Logical : Type 0 where
  begins : ℕ → ℕ → Logical
  relates : ℕ → Relation → Logical
  inserts : ℕ → Option Tuple → Logical
  updates : ℕ → Option Tuple → Option Tuple → Logical
  deletes : ℕ → Option Tuple → Logical
  others : Logical

-- One record of the log: where it starts, its length, and its message.
pub record WalData : Type 0 where
  pub start : ℕ
  pub size : ℕ
  pub logical : Option Logical

pub data StreamError : Type 0 where
  parse_error receive_error status_error : StreamError

-- What the reader confirms to the server; the apply position is the flush position.
pub record Status : Type 0 where
  pub write : ℕ
  pub flush : ℕ

-- Where the reader is: in its loop, in the `select` of `emit`, or gone, with the event that it
-- could not hand over.
pub data Reader : Type 0 where
  reading : Reader
  sending : Pending → Reader
  exited : Option Pending → Reader

-- `events` is the channel, `in_hand` the event on which the consumer's loop body runs, and
-- `consuming` says that the loop has not been left. `sent` records the status updates, the latest
-- first; `emitted` and `processed` record the events given to `emit` and those whose loop body
-- has returned, both in order.
pub record Stream : Type 0 where
  pub events : List Pending
  pub buffer : ℕ
  pub received : ℕ
  pub last_pushed : ℕ
  pub flushed : ℕ
  pub error : Option StreamError
  pub cancelled : Bool
  pub reader : Reader
  pub relations : List (ℕ × Relation)
  pub current : Transaction
  pub in_hand : Option Pending
  pub consuming : Bool
  pub sent : List Status
  pub emitted : List Pending
  pub processed : List Pending

abbrev pub word : ℕ
word = 2 ^ 64

-- `advance`: the loop ends with the larger of the two.
abbrev pub advance : ℕ → ℕ → ℕ
advance current value = if leb value current then current else value

unfoldable pub set_error : StreamError → Stream → Stream
set_error e s = elim s.error [ none ↦ record s { error = some e } | some e' ↦ s ]

-- `writeStatus`, and whether the server took it.
unfoldable pub write_status : Bool → Stream → Stream
write_status ok s =
    if ok
    then record s {
      sent = record { write = s.received; flush = min s.flushed s.received } ∷ s.sent;
    }
    else s

unfoldable pub send_status : Bool → Stream → Stream × Bool
unfolding write_status set_error
send_status ok s =
    if ok
    then (write_status ok s, true)
    else if s.cancelled
    then (s, false)
    else (set_error status_error s, false)

unfoldable pub catch_up : ℕ → Stream → Stream
catch_up server_end s =
    if not (length s.events == 0)
    then s
    else if not (s.last_pushed == s.flushed) || leb server_end s.last_pushed
    then s
    else record s { flushed = server_end; last_pushed = server_end }

-- A keepalive's WAL end, and whether it asks for a reply. The result says whether to go on.
unfoldable pub handle_keepalive : Option (ℕ × Bool) → Bool → Stream → Stream × Bool
unfolding catch_up send_status
handle_keepalive none ok s = (set_error parse_error s, false)
handle_keepalive (some (server_end, reply)) ok s =
    let t = catch_up server_end (record s { received = advance s.received server_end }) in
    if reply then send_status ok t else (t, true)

-- `emit` up to its `select`.
unfoldable pub emit : Pending → Stream → Stream
emit p s = record s { last_pushed = p.lsn; reader = sending p; emitted = s.emitted ++ p ∷ [] }

-- A row change of a relation that was never described is passed over.
unfoldable pub emit_row : Option Relation → (Relation → Event) → ℕ → Stream → Stream
emit_row none decode end s = s
emit_row (some rel) decode end s = emit (record { event = decode rel; lsn = end }) s

unfoldable pub handle_logical : (ℕ → Bytes) → Logical → ℕ → Stream → Stream
unfolding emit_row
handle_logical render (begins final_lsn commit_time) end s = record s {
  current = record { position = render final_lsn; committed = commit_time };
}
handle_logical render (relates id rel) end s = record s { relations = put ◌==◌ s.relations id rel }
handle_logical render (inserts id tuple) end s =
    emit_row (get ◌==◌ s.relations id) (λ rel. decode_insert render rel tuple end s.current) end s
handle_logical render (updates id before after) end s =
    emit_row (get ◌==◌ s.relations id) (λ rel. decode_update render rel before after end s.current)
      end s
handle_logical render (deletes id tuple) end s =
    emit_row (get ◌==◌ s.relations id) (λ rel. decode_delete render rel tuple end s.current) end s
handle_logical render others end s = s

abbrev pub wal_end : WalData → ℕ
wal_end x = (x.start + x.size) % word

unfoldable pub handle_wal_data : (ℕ → Bytes) → Option WalData → Stream → Stream × Bool
handle_wal_data render none s = (set_error parse_error s, false)
handle_wal_data render (some x) s =
    let t = record s { received = advance s.received (wal_end x) } in
    elim x.logical [
      | none ↦ (set_error parse_error t, false)
      | some m ↦ (handle_logical render m (wal_end x) t, true)
    ]

-- What `receive` gives. `ignored` is a message that carries no copy data.
pub data Message : Type 0 where
  keepalive : Option (ℕ × Bool) → Message
  wal_data : Option WalData → Message
  ignored : Message
  timed_out : Message
  broken : Message

unfoldable pub handle_message : (ℕ → Bytes) → Message → Bool → Stream → Stream × Bool
handle_message render (keepalive k) ok s = handle_keepalive k ok s
handle_message render (wal_data x) ok s = handle_wal_data render x s
handle_message render ignored ok s = (s, true)
handle_message render timed_out ok s = (s, not s.cancelled)
handle_message render broken ok s = (if s.cancelled then s else set_error receive_error s, false)
