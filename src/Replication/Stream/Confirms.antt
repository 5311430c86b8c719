-- ===== src/Replication/Stream/Confirms.antt =====
-- pkg/vendors/postgres/cdc/event_stream.go: what the stream confirms to the server, the consumer
-- has finished.
use mathlib.Core.List.{append-nil, append_assoc}
use gpool.Base.{
  ℕ, ◌≤◌, ◌<◌, ◌≡◌, refl, inl, inr, Bool, true, false, not, ◌||◌, List, [], ◌∷◌, ◌++◌, Option, none,
  some, arith, leb, ◌==◌, if_both, length, Option-cases,
}
use gpool.Replication.Decode.{Event, Relation, Transaction}
use gpool.Replication.Stream.{
  Stream, Pending, Status, StreamError, reading, handle_keepalive, emit_row, emit, catch_up,
  write_status, send_status, set_error, advance, Logical, begins, relates, inserts, updates,
  deletes, others, parse_error, status_error,
}
use gpool.Replication.Stream.Moves.{undelivered}

abbrev pub one : Option Pending → List Pending
one none = []
one (some p) = p ∷ []

-- The events given to `emit` that the consumer has not finished, the oldest first.
abbrev pub queued : Stream → List Pending
queued s = one s.in_hand ++ (s.events ++ one (undelivered s.reader))

-- Positions that rise, from above `l`, and the last of them.
abbrev pub Above : ℕ → List Pending → Type 0
Above l [] = Unit {0}
Above l (p ∷ ps) = (l < p.lsn) × Above p.lsn ps

abbrev pub last_lsn : ℕ → List Pending → ℕ
last_lsn l [] = l
last_lsn l (p ∷ ps) = last_lsn p.lsn ps

-- Every confirmation is of no more than the position `l`, and of no more than was received.
abbrev pub AllWithin : ℕ → List Status → Type 0
AllWithin l [] = Unit {0}
AllWithin l (t ∷ ts) = (t.flush ≤ l) × (t.flush ≤ t.write) × AllWithin l ts

last_lsn-le : (l : ℕ) (ps : List Pending) → Above l ps → l ≤ last_lsn l ps
last_lsn-le l [] a = omega arith
last_lsn-le l (p ∷ ps) a = omega (arith, a.0, last_lsn-le p.lsn ps a.1)

Above-append :
    (l : ℕ) (ps : List Pending) (p : Pending)
    → Above l ps
    → last_lsn l ps < p.lsn
    → Above l (ps ++ p ∷ []) × (last_lsn l (ps ++ p ∷ []) ≡ p.lsn)
Above-append l [] p a h = ((h, tt), refl)
Above-append l (q ∷ ps) p a h = let (b, e) = Above-append q.lsn ps p a.1 h in ((a.0, b), e)

pub AllWithin-mono : (l m : ℕ) (ts : List Status) → l ≤ m → AllWithin l ts → AllWithin m ts
AllWithin-mono l m [] h a = tt
AllWithin-mono l m (t ∷ ts) h a = (omega (arith, a.0), a.1, AllWithin-mono l m ts h a.2)

-- Nothing is queued above a position that is also the newest.
drained : (l : ℕ) (ps : List Pending) → Above l ps → last_lsn l ps ≤ l → ps ≡ []
drained l [] a h = refl
drained l (p ∷ ps) a h = absurd (omega (arith, a.0, last_lsn-le p.lsn ps a.1))

pub record Confirms (s : Stream) : Type 0 where
  pub rising : Above s.flushed (queued s)
  pub newest : last_lsn s.flushed (queued s) ≤ s.last_pushed
  pub within : AllWithin s.flushed s.sent
  pub in_order : s.emitted ≡ s.processed ++ queued s

-- The fields that the claim does not read.
pub beside-Confirms :
    (s : Stream) (received : ℕ) (error : Option StreamError) (cancelled : Bool)
    (relations : List (ℕ × Relation)) (current : Transaction) (consuming : Bool)
    → Confirms s
    → Confirms (record s {
      received = received;
      error = error;
      cancelled = cancelled;
      relations = relations;
      current = current;
      consuming = consuming;
    })
beside-Confirms s received error cancelled relations current consuming c = record {
  rising = c.rising;
  newest = c.newest;
  within = c.within;
  in_order = c.in_order;
}

pub set_error-Confirms : (e : StreamError) (s : Stream) → Confirms s → Confirms (set_error e s)
unfolding set_error
set_error-Confirms e s c = elim (Option-cases s.error) [
  | inl h ↦
      rw (h, set_error)
        (beside-Confirms s s.received (some e) s.cancelled s.relations s.current s.consuming c)
  | inr (x, h) ↦ rw (h, set_error) c
]

pub write_status-Confirms : (ok : Bool) (s : Stream) → Confirms s → Confirms (write_status ok s)
unfolding write_status
write_status-Confirms true s c = record {
  rising = c.rising;
  newest = c.newest;
  within = (omega arith, omega arith, c.within);
  in_order = c.in_order;
}
write_status-Confirms false s c = c

pub send_status-Confirms : (ok : Bool) (s : Stream) → Confirms s → Confirms (send_status ok s).0
unfolding send_status
send_status-Confirms true s c = write_status-Confirms true s c
send_status-Confirms false s c =
    if_both (λ (r : Stream × Bool). Confirms r.0) s.cancelled _ _ (λ _. c)
      (λ _. set_error-Confirms status_error s c)

catch_up-Confirms : (server_end : ℕ) (s : Stream) → Confirms s → Confirms (catch_up server_end s)
unfolding catch_up
catch_up-Confirms server_end s c =
    if_both Confirms (not (length s.events == 0)) _ _ (λ _. c)
      (λ _.
        if_both Confirms (not (s.last_pushed == s.flushed) || leb server_end s.last_pushed) _ _
          (λ _. c)
          (λ h.
            let empty = drained s.flushed (queued s) c.rising (ground (arith, c.newest, h)) in
            record {
              rising = rw empty tt;
              newest = rw empty (omega arith);
              within = AllWithin-mono s.flushed server_end s.sent (ground (arith, h)) c.within;
              in_order = c.in_order;
            }))

pub received-Confirms :
    (s : Stream) (received : ℕ) → Confirms s → Confirms (record s { received = received })
received-Confirms s received c =
    beside-Confirms s received s.error s.cancelled s.relations s.current s.consuming c

pub handle_keepalive-Confirms :
    (k : Option (ℕ × Bool)) (ok : Bool) (s : Stream)
    → Confirms s
    → Confirms (handle_keepalive k ok s).0
unfolding handle_keepalive
handle_keepalive-Confirms none ok s c = set_error-Confirms parse_error s c
handle_keepalive-Confirms (some (server_end, reply)) ok s c =
    if_both (λ (r : Stream × Bool). Confirms r.0) reply _ _ (λ _. send_status-Confirms ok _ caught)
      (λ _. caught)
  where
    caught : Confirms (catch_up server_end (record s { received = advance s.received server_end }))
    caught =
        catch_up-Confirms server_end (record s { received = advance s.received server_end })
          (received-Confirms s (advance s.received server_end) c)

-- A row change that is newer than what was handed over before it; other messages are free.
abbrev pub Rises : Logical → ℕ → ℕ → Type 0
Rises (begins l t) last end = Unit {0}
Rises (relates i r) last end = Unit {0}
Rises (inserts i t) last end = last < end
Rises (updates i t u) last end = last < end
Rises (deletes i t) last end = last < end
Rises others last end = Unit {0}

pub emit_row-Confirms :
    (o : Option Relation) (decode : Relation → Event) (end : ℕ) (s : Stream)
    → s.reader ≡ reading
    → s.last_pushed < end
    → Confirms s
    → Confirms (emit_row o decode end s)
unfolding emit_row emit
emit_row-Confirms none decode end s r h c = c
emit_row-Confirms (some rel) decode end s r h c =
    let p : Pending = record { event = decode rel; lsn = end } in
    let same : queued s ≡ one s.in_hand ++ s.events = rw r (rw (append-nil s.events) refl) in
    let longer : one s.in_hand ++ (s.events ++ p ∷ []) ≡ queued s ++ p ∷ [] =
      rw (same, append_assoc (one s.in_hand) s.events (p ∷ [])) refl in
    let (up, last) = Above-append s.flushed (queued s) p c.rising (omega (arith, c.newest, h)) in
    record {
      rising = rw longer up;
      newest = rw longer (omega (arith, last));
      within = c.within;
      in_order = rw (longer, c.in_order) (append_assoc s.processed (queued s) (p ∷ []));
    }
