-- ===== src/Replication/Stream/Delivery.antt =====
-- pkg/vendors/postgres/cdc/event_stream.go: every history of a stream delivers in order and
-- confirms only what was processed.
use mathlib.Core.List.{append-nil, append_assoc}
use gpool.Base.{
  ℕ, ◌≤◌, ◌≡◌, refl, sym, ap, subst, ◌∙◌, Bool, true, false, List, [], ◌∷◌, ◌++◌, Option, none,
  some, arith, ltb, if_both, length, Bytes,
}
use gpool.Replication.Stream.{
  Stream, Pending, Status, Reader, reading, sending, exited, Message, advance,
}
use gpool.Replication.Stream.Moves.{
  Move, handles, ticks, delivers, ends, takes, returns, breaks, closes, undelivered, exit, go_on,
  handles_in, ticks_in, delivers_in, ends_in, takes_from, returns_with, move, run, start,
}
use gpool.Replication.Stream.Handlers.{Newer, handle_message-Confirms}
use gpool.Replication.Stream.Confirms.{
  Confirms, Above, AllWithin, AllWithin-mono, queued, one, last_lsn, beside-Confirms,
  send_status-Confirms, write_status-Confirms,
}

exit-Confirms : (final : Bool) (s : Stream) → Confirms s → Confirms (exit final s)
unfolding exit
exit-Confirms final s c =
    write_status-Confirms final _
      record { rising = c.rising; newest = c.newest; within = c.within; in_order = c.in_order }

go_on-Confirms : (final : Bool) (r : Stream × Bool) → Confirms r.0 → Confirms (go_on final r)
go_on-Confirms final (s, true) c = c
go_on-Confirms final (s, false) c = exit-Confirms final s c

handles_in-Confirms :
    (render : ℕ → Bytes) (m : Message) (ok final : Bool) (r : Reader) (s : Stream)
    → s.reader ≡ r
    → Newer s m
    → Confirms s
    → Confirms (handles_in render m ok final r s)
unfolding handles_in
handles_in-Confirms render m ok final reading s e h c =
    go_on-Confirms final _ (handle_message-Confirms render m ok s e h c)
handles_in-Confirms render m ok final (sending p) s e h c = c
handles_in-Confirms render m ok final (exited o) s e h c = c

ticks_in-Confirms :
    (ok final : Bool) (r : Reader) (s : Stream) → Confirms s → Confirms (ticks_in ok final r s)
unfolding ticks_in
ticks_in-Confirms ok final reading s c = go_on-Confirms final _ (send_status-Confirms ok s c)
ticks_in-Confirms ok final (sending p) s c = go_on-Confirms final _ (send_status-Confirms ok s c)
ticks_in-Confirms ok final (exited o) s c = c

delivers_in-Confirms :
    (r : Reader) (s : Stream) → s.reader ≡ r → Confirms s → Confirms (delivers_in r s)
unfolding delivers_in
delivers_in-Confirms reading s e c = c
delivers_in-Confirms (exited o) s e c = c
delivers_in-Confirms (sending p) s e c =
    if_both Confirms (ltb (length s.events) s.buffer) _ _ (λ _. delivered) (λ _. c)
  where
    same : one s.in_hand ++ ((s.events ++ p ∷ []) ++ []) ≡ queued s
    same = rw (append-nil (s.events ++ p ∷ [])) (rw e refl)

    delivered : Confirms (record s { events = s.events ++ p ∷ []; reader = reading })
    delivered = record {
      rising = rw same c.rising;
      newest = rw same c.newest;
      within = c.within;
      in_order = rw same c.in_order;
    }

ends_in-Confirms :
    (final : Bool) (r : Reader) (s : Stream) → Confirms s → Confirms (ends_in final r s)
unfolding ends_in
ends_in-Confirms final reading s c = exit-Confirms final s c
ends_in-Confirms final (sending p) s c = exit-Confirms final s c
ends_in-Confirms final (exited o) s c = c

takes_from-Confirms :
    (ps : List Pending) (o : Option Pending) (s : Stream)
    → s.events ≡ ps
    → s.in_hand ≡ o
    → Confirms s
    → Confirms (takes_from ps o s)
unfolding takes_from
takes_from-Confirms [] o s e f c = c
takes_from-Confirms (p ∷ ps) (some q) s e f c = c
takes_from-Confirms (p ∷ ps) none s e f c = record {
  rising = subst (λ q. Above s.flushed q) same c.rising;
  newest = subst (λ q. last_lsn s.flushed q ≤ s.last_pushed) same c.newest;
  within = c.within;
  in_order = c.in_order ∙ ap (λ q. s.processed ++ q) same;
}
  where
    same : queued s ≡ p ∷ (ps ++ one (undelivered s.reader))
    same = rw (e, f) refl

returns_with-Confirms :
    (o : Option Pending) (s : Stream) → s.in_hand ≡ o → Confirms s → Confirms (returns_with o s)
unfolding returns_with
returns_with-Confirms none s e c = c
returns_with-Confirms (some p) s e c =
    let rest = s.events ++ one (undelivered s.reader) in
    let same : queued s ≡ p ∷ rest = rw e refl in
    let (above, up) = subst (λ q. Above s.flushed q) same c.rising in
    let moved : advance s.flushed p.lsn ≡ p.lsn = ground (arith, above) in
    record {
      rising = rw moved up;
      newest = rw moved (subst (λ q. last_lsn s.flushed q ≤ s.last_pushed) same c.newest);
      within = rw moved (AllWithin-mono s.flushed p.lsn s.sent (omega (arith, above)) c.within);
      in_order =
          c.in_order
          ∙ ap (λ q. s.processed ++ q) same
          ∙ sym (append_assoc s.processed (p ∷ []) rest);
    }

-- What a move may not do.
abbrev pub InOrder : Stream → Move → Type 0
InOrder s (handles m ok final) = Newer s m
InOrder s (ticks ok final) = Unit {0}
InOrder s delivers = Unit {0}
InOrder s (ends final) = Unit {0}
InOrder s takes = Unit {0}
InOrder s returns = Unit {0}
InOrder s breaks = Unit {0}
InOrder s closes = Unit {0}

move-Confirms :
    (render : ℕ → Bytes) (s : Stream) (x : Move)
    → InOrder s x
    → Confirms s
    → Confirms (move render s x)
unfolding move
move-Confirms render s (handles m ok final) h c =
    handles_in-Confirms render m ok final s.reader s refl h c
move-Confirms render s (ticks ok final) h c = ticks_in-Confirms ok final s.reader s c
move-Confirms render s delivers h c = delivers_in-Confirms s.reader s refl c
move-Confirms render s (ends final) h c =
    if_both Confirms s.cancelled _ _ (λ _. ends_in-Confirms final s.reader s c) (λ _. c)
move-Confirms render s takes h c =
    if_both Confirms s.consuming _ _ (λ _. takes_from-Confirms s.events s.in_hand s refl refl c)
      (λ _. c)
move-Confirms render s returns h c =
    if_both Confirms s.consuming _ _ (λ _. returns_with-Confirms s.in_hand s refl c) (λ _. c)
move-Confirms render s breaks h c =
    beside-Confirms s s.received s.error true s.relations s.current false c
move-Confirms render s closes h c =
    beside-Confirms s s.received s.error true s.relations s.current s.consuming c

-- A history in which each row change is newer than what was handed over before it, and than
-- whatever position the stream has confirmed as quiet.
unfoldable pub AllInOrder : (ℕ → Bytes) → Stream → List Move → Type 0
AllInOrder render s [] = Unit {0}
AllInOrder render s (x ∷ xs) = InOrder s x × AllInOrder render (move render s x) xs

run-Confirms :
    (render : ℕ → Bytes) (s : Stream) (xs : List Move)
    → AllInOrder render s xs
    → Confirms s
    → Confirms (run render s xs)
unfolding run AllInOrder
run-Confirms render s [] h c = c
run-Confirms render s (x ∷ xs) h c =
    run-Confirms render (move render s x) xs h.1 (move-Confirms render s x h.0 c)

-- Nothing that a confirmation covers is still to be processed.
abbrev pub NothingLost : List Status → List Pending → Type 0
NothingLost [] ps = Unit {0}
NothingLost (t ∷ ts) ps = Above t.flush ps × (t.flush ≤ t.write) × NothingLost ts ps

Above-mono : (l m : ℕ) (ps : List Pending) → l ≤ m → Above m ps → Above l ps
Above-mono l m [] h a = tt
Above-mono l m (p ∷ ps) h a = (omega (arith, a.0), a.1)

within-NothingLost :
    (l : ℕ) (ts : List Status) (ps : List Pending) → AllWithin l ts → Above l ps → NothingLost ts ps
within-NothingLost l [] ps w a = tt
within-NothingLost l (t ∷ ts) ps w a =
    (Above-mono t.flush l ps w.0 a, w.1, within-NothingLost l ts ps w.2 a)

-- At-least-once delivery. However the reader, the consumer and Close are interleaved, and wherever
-- the history stops: the events that `emit` was given are, in their order, those that the consumer
-- finished and those still queued; and every position that was ever confirmed to the server lies
-- below each queued event, and no higher than what had been received. It holds for histories in
-- which each row change is newer than every one that was handed over before it, and than every
-- position that a keepalive gave while nothing was outstanding, which the stream takes for confirmed.
pub run_from_start :
    (render : ℕ → Bytes) (buffer : ℕ) (xs : List Move)
    → AllInOrder render (start buffer) xs
    → let s = run render (start buffer) xs in
      (s.emitted ≡ s.processed ++ queued s) × NothingLost s.sent (queued s)
run_from_start render buffer xs h =
    let c =
      run-Confirms render (start buffer) xs h
        (record { rising = tt; newest = omega arith; within = tt; in_order = refl }) in
    (c.in_order, within-NothingLost _ _ _ c.within c.rising)
