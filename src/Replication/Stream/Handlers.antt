-- ===== src/Replication/Stream/Handlers.antt =====
-- pkg/vendors/postgres/cdc/event_stream.go: the handlers of run keep to what the consumer finished.

use gpool.Base.{ℕ, ◌≡◌, refl, Bool, Option, none, some, if_both, Bytes}
use gpool.Replication.Stream.{
  Stream, reading, Message, keepalive, wal_data, ignored, timed_out, broken, handle_message,
  handle_wal_data, handle_logical, WalData, wal_end, Logical, begins, relates, inserts, updates,
  deletes, others, receive_error, parse_error,
}
use gpool.Replication.Stream.Confirms.{
  Confirms, Rises, beside-Confirms, received-Confirms, set_error-Confirms, emit_row-Confirms,
  handle_keepalive-Confirms,
}

handle_logical-Confirms :
    (render : ℕ → Bytes) (m : Logical) (end : ℕ) (s : Stream)
    → s.reader ≡ reading
    → Rises m s.last_pushed end
    → Confirms s
    → Confirms (handle_logical render m end s)
unfolding handle_logical
handle_logical-Confirms render (begins l t) end s r h c =
    beside-Confirms s s.received s.error s.cancelled s.relations _ s.consuming c
handle_logical-Confirms render (relates id rel) end s r h c =
    beside-Confirms s s.received s.error s.cancelled _ s.current s.consuming c
handle_logical-Confirms render (inserts id t) end s r h c = emit_row-Confirms _ _ end s r h c
handle_logical-Confirms render (updates id t u) end s r h c = emit_row-Confirms _ _ end s r h c
handle_logical-Confirms render (deletes id t) end s r h c = emit_row-Confirms _ _ end s r h c
handle_logical-Confirms render others end s r h c = c

-- A row change in a message is newer than what was handed over before it.
abbrev pub RisesIn : Option Logical → ℕ → ℕ → Type 0
RisesIn none last end = Unit {0}
RisesIn (some m) last end = Rises m last end

abbrev pub Ahead : Stream → Option WalData → Type 0
Ahead s none = Unit {0}
Ahead s (some x) = RisesIn x.logical s.last_pushed (wal_end x)

handle_wal_data-Confirms :
    (render : ℕ → Bytes) (x : WalData) (o : Option Logical) (s : Stream)
    → x.logical ≡ o
    → s.reader ≡ reading
    → RisesIn o s.last_pushed (wal_end x)
    → Confirms s
    → Confirms (handle_wal_data render (some x) s).0
unfolding handle_wal_data
handle_wal_data-Confirms render x none s e r h c =
    rw (e, handle_wal_data) (set_error-Confirms parse_error _ (received-Confirms s _ c))
handle_wal_data-Confirms render x (some m) s e r h c =
    rw (e, handle_wal_data)
      (handle_logical-Confirms render m (wal_end x) _ r h (received-Confirms s _ c))

-- What a message may not do: announce a row change older than one before it.
abbrev pub Newer : Stream → Message → Type 0
Newer s (keepalive k) = Unit {0}
Newer s (wal_data x) = Ahead s x
Newer s ignored = Unit {0}
Newer s timed_out = Unit {0}
Newer s broken = Unit {0}

pub handle_message-Confirms :
    (render : ℕ → Bytes) (m : Message) (ok : Bool) (s : Stream)
    → s.reader ≡ reading
    → Newer s m
    → Confirms s
    → Confirms (handle_message render m ok s).0
unfolding handle_message
handle_message-Confirms render (keepalive k) ok s r h c = handle_keepalive-Confirms k ok s c
handle_message-Confirms render (wal_data none) ok s r h c =
    unfold handle_wal_data in set_error-Confirms parse_error s c
handle_message-Confirms render (wal_data (some x)) ok s r h c =
    handle_wal_data-Confirms render x x.logical s refl r h c
handle_message-Confirms render ignored ok s r h c = c
handle_message-Confirms render timed_out ok s r h c = c
handle_message-Confirms render broken ok s r h c =
    if_both Confirms s.cancelled _ _ (λ _. c) (λ _. set_error-Confirms receive_error s c)
