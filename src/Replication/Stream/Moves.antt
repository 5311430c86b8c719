-- ===== src/Replication/Stream/Moves.antt =====
-- pkg/vendors/postgres/cdc/event_stream.go: run, the select of emit, and the consumer's loop in All.
use gpool.Base.{
  ℕ, Bool, true, false, List, [], ◌∷◌, ◌++◌, Option, none, some, ltb, if◌then◌else◌, length, Bytes,
}
use gpool.Replication.Stream.{
  Stream, Pending, Reader, reading, sending, exited, Message, handle_message, write_status,
  send_status, advance,
}

-- The reader handles a message, its ticker fires, it hands its event over, or it sees that its
-- context has ended; the last Boolean says whether the final status reaches the server. The consumer takes
-- an event, its loop body returns, it leaves the loop; and anyone may call Close.
pub data Move : Type 0 where
  handles : Message → Bool → Bool → Move
  ticks : Bool → Bool → Move
  delivers : Move
  ends : Bool → Move
  takes : Move
  returns : Move
  breaks : Move
  closes : Move

-- The event that the reader cannot hand over any more.
abbrev pub undelivered : Reader → Option Pending
undelivered reading = none
undelivered (sending p) = some p
undelivered (exited o) = o

-- The deferred calls of `run`.
unfoldable pub exit : Bool → Stream → Stream
unfolding write_status
exit final s = write_status final (record s { reader = exited (undelivered s.reader) })

abbrev pub go_on : Bool → Stream × Bool → Stream
go_on final (s, true) = s
go_on final (s, false) = exit final s

unfoldable pub handles_in : (ℕ → Bytes) → Message → Bool → Bool → Reader → Stream → Stream
handles_in render m ok final reading s = go_on final (handle_message render m ok s)
handles_in render m ok final (sending p) s = s
handles_in render m ok final (exited o) s = s

unfoldable pub ticks_in : Bool → Bool → Reader → Stream → Stream
ticks_in ok final reading s = go_on final (send_status ok s)
ticks_in ok final (sending p) s = go_on final (send_status ok s)
ticks_in ok final (exited o) s = s

unfoldable pub delivers_in : Reader → Stream → Stream
delivers_in reading s = s
delivers_in (sending p) s =
    if ltb (length s.events) s.buffer
    then record s { events = s.events ++ p ∷ []; reader = reading }
    else s
delivers_in (exited o) s = s

unfoldable pub ends_in : Bool → Reader → Stream → Stream
ends_in final reading s = exit final s
ends_in final (sending p) s = exit final s
ends_in final (exited o) s = s

unfoldable pub takes_from : List Pending → Option Pending → Stream → Stream
takes_from [] o s = s
takes_from (p ∷ ps) (some q) s = s
takes_from (p ∷ ps) none s = record s { events = ps; in_hand = some p }

-- The loop body returned true: the position of its event is confirmed.
unfoldable pub returns_with : Option Pending → Stream → Stream
returns_with none s = s
returns_with (some p) s = record s {
  in_hand = none;
  flushed = advance s.flushed p.lsn;
  processed = s.processed ++ p ∷ [];
}

unfoldable pub move : (ℕ → Bytes) → Stream → Move → Stream
move render s (handles m ok final) = handles_in render m ok final s.reader s
move render s (ticks ok final) = ticks_in ok final s.reader s
move render s delivers = delivers_in s.reader s
move render s (ends final) = if s.cancelled then ends_in final s.reader s else s
move render s takes = if s.consuming then takes_from s.events s.in_hand s else s
move render s returns = if s.consuming then returns_with s.in_hand s else s
move render s breaks = record s { consuming = false; cancelled = true }
move render s closes = record s { cancelled = true }

unfoldable pub run : (ℕ → Bytes) → Stream → List Move → Stream
run render s [] = s
run render s (x ∷ xs) = run render (move render s x) xs

-- A stream that was just started, `buffer` events deep.
abbrev pub start : ℕ → Stream
start buffer = record {
  events = [];
  buffer = buffer;
  received = 0;
  last_pushed = 0;
  flushed = 0;
  error = none;
  cancelled = false;
  reader = reading;
  relations = [];
  current = record { position = []; committed = 0 };
  in_hand = none;
  consuming = true;
  sent = [];
  emitted = [];
  processed = [];
}
