-- ===== src/Proxy/Session/Swallow.antt =====
-- examples/gpoolproxy/session.go: which of a backend's messages reach the client.
use mathlib.Core.List.{append-nil, append_assoc}
use gpool.Base.{
  ℕ, suc, ◌+◌, ◌-◌, ◌≤◌, ◌≡◌, refl, ap, sym, ◌∙◌, Bool, true, false, List, [], ◌∷◌, ◌++◌, Option,
  some, arith, ◌==◌, length, length-append, Bytes,
}
use gpool.Proxy.Wire.{put_uint32}
use gpool.Proxy.Relay.{Sink, frame, Header, max_message_len, msg_ready_for_query}
use gpool.Proxy.Relay.Chunks.{written}
use gpool.Proxy.Relay.Frames.{
  header_of, read_header-frame, forward_body-Forwarded, discard_body-append, length-put_uint32,
}
use gpool.Proxy.Backend.{Backend}
use gpool.Proxy.Backend.Draining.{wire}
use gpool.Proxy.Session.Rounds.{
  Session, Outcome, goes_on, head_is, tail, swallows, relay_message, relay_round, relay_from,
}

-- A backend with these bytes still to come.
abbrev pub at : Backend → Bytes → Backend
at source src = record source { reader = src }

-- What a session is after a round that swallowed a message, or that passed one on.
abbrev pub swallowed : Backend → Bytes → Session → Session
swallowed source rest s = record s { expect = tail s.expect; held = some (at source rest) }

abbrev pub passed : Backend → Bytes → Sink → Session → Session
passed source rest sink s = record s { held = some (at source rest); writer = sink }

swallows-first :
    (kind : ℕ) (s : Session)
    → head_is s.expect kind ≡ true
    → swallows kind s ≡ (record s { expect = tail s.expect }, true)
unfolding swallows
swallows-first kind s h = rw (h, swallows) refl

pub swallows-other :
    (kind : ℕ) (s : Session) → head_is s.expect kind ≡ false → swallows kind s ≡ (s, false)
unfolding swallows
swallows-other kind s h = rw (h, swallows) refl

drops :
    (flushed : Bool) (h : Header) (body rest : Bytes) (source : Backend) (s : Session)
    → relay_message flushed source h (length body) (body ++ rest) (s, true)
      ≡ (record s { held = some (record source { reader = rest }) }, goes_on)
unfolding relay_message
drops flushed h body rest source s = rw (discard_body-append body rest, relay_message) refl

passes :
    (kind : ℕ) (body rest : Bytes) (source : Backend) (s : Session)
    → (kind == msg_ready_for_query) ≡ false
    → length body + 5 ≤ s.writer.room
    → (sink : Sink) × (relay_message true source
          (header_of kind body)
          (length body)
          (body ++ rest)
          (s, false)
        ≡ (passed source rest sink s, goes_on))
      × (written sink.writes ≡ written s.writer.writes ++ frame kind body)
      × (sink.room ≡ s.writer.room - (length body + 5))
unfolding relay_message
passes kind body rest source s plain room =
    let (out, sink, f, w, _, q) =
      forward_body-Forwarded (header_of kind body) body rest s.writer
        (omega (arith, length-put_uint32 (length body + 4))) in
    (
      sink,
      rw (f, relay_message) (rw plain refl),
      w,
      omega (arith, q, length-put_uint32 (length body + 4)),
    )

pub relay_round-swallowed :
    (flushed : Bool) (kind : ℕ) (body rest : Bytes) (source : Backend) (s : Session)
    → length body + 4 ≤ max_message_len
    → head_is s.expect kind ≡ true
    → relay_round flushed (at source (frame kind body ++ rest)) s
      ≡ (swallowed source rest s, goes_on)
unfolding relay_round
relay_round-swallowed flushed kind body rest source s small first =
    let source' : Backend = at source (frame kind body ++ rest) in
    rw (read_header-frame kind body rest small, relay_round)
      (rw (swallows-first kind s first) (
        drops flushed (header_of kind body) body rest source'
          (record s { expect = tail s.expect })))

pub relay_round-passed :
    (kind : ℕ) (body rest : Bytes) (source : Backend) (s : Session)
    → length body + 4 ≤ max_message_len
    → head_is s.expect kind ≡ false
    → (kind == msg_ready_for_query) ≡ false
    → length body + 5 ≤ s.writer.room
    → (sink : Sink) × (relay_round true (at source (frame kind body ++ rest)) s
        ≡ (passed source rest sink s, goes_on))
      × (written sink.writes ≡ written s.writer.writes ++ frame kind body)
      × (sink.room ≡ s.writer.room - (length body + 5))
unfolding relay_round
relay_round-passed kind body rest source s small first plain room =
    let (sink, f, w, r) =
      passes kind body rest (at source (frame kind body ++ rest)) s plain room in
    (
      sink,
      rw (read_header-frame kind body rest small, relay_round) (rw (swallows-other kind s first) f),
      w,
      r,
    )

-- No message of this kind and no ReadyForQuery.
abbrev pub Without : ℕ → List (ℕ × Bytes) → Type 0
Without k [] = Unit {0}
Without k ((kind, body) ∷ more) =
    ((kind == k) ≡ false)
    × ((kind == msg_ready_for_query) ≡ false)
    × (length body + 4 ≤ max_message_len)
    × Without k more

-- One round for each message, and then some.
abbrev pub rounds : List (ℕ × Bytes) → ℕ → ℕ
rounds [] fuel = fuel
rounds (e ∷ es) fuel = suc (rounds es fuel)

pub length-frame :
    (kind : ℕ) (body rest : Bytes)
    → length (frame kind body ++ rest) ≡ length body + 5 + length rest
length-frame kind body rest = omega (
  arith,
  length-append (frame kind body) rest,
  length-append (put_uint32 (length body + 4)) body,
  length-put_uint32 (length body + 4),
)

pub relay_from_step :
    (fuel : ℕ) (flushed : Bool) (source : Backend) (s s' : Session)
    → s.held ≡ some source
    → relay_round flushed source s ≡ (s', goes_on)
    → relay_from (suc fuel) flushed s ≡ relay_from fuel flushed s'
unfolding relay_from
relay_from_step fuel flushed source s s' h f = ground (arith, h, f)

-- Messages of other kinds than the one owed first are all passed on, whoever they answer.
passes_others :
    (k : ℕ) (ks : List ℕ) (es : List (ℕ × Bytes)) (fuel : ℕ) (rest : Bytes) (source : Backend)
    (s : Session)
    → s.expect ≡ k ∷ ks
    → s.held ≡ some (at source (wire es rest))
    → Without k es
    → length (wire es []) ≤ s.writer.room
    → (sink : Sink) × (relay_from (rounds es fuel) true s
        ≡ relay_from fuel true (passed source rest sink s))
      × (written sink.writes ≡ written s.writer.writes ++ wire es [])
passes_others k ks [] fuel rest source s e h w room = (
  s.writer,
  ap (relay_from fuel true) (ap (λ (o : Option Backend). record s { held = o }) h),
  sym (append-nil (written s.writer.writes)),
)
passes_others k ks ((kind, body) ∷ es) fuel rest source s e h (other, plain, small, w) room =
    let first : head_is s.expect kind ≡ false = ground (arith, e, other) in
    let long = length-frame kind body (wire es []) in
    let (sink, f, w1, r) =
      relay_round-passed kind body (wire es rest) source s small first plain
        (omega (arith, long)) in
    let s' : Session = passed source (wire es rest) sink s in
    let (sink', g, w2) =
      passes_others k ks es fuel rest source s' e refl w (omega (arith, long, r)) in
    (
      sink',
      relay_from_step (rounds es fuel) true _ s s' h f ∙ g,
      w2
          ∙ ap (λ t. t ++ wire es []) w1
          ∙ append_assoc (written s.writer.writes) (frame kind body) (wire es []),
    )

-- Completions are matched by their kind alone. As long as one for an injected message is owed, every
-- message of another kind reaches the client, and the first one of its kind does not, although it
-- may answer the client's own message.
pub relay_from-first :
    (k : ℕ) (ks : List ℕ) (es : List (ℕ × Bytes)) (body rest : Bytes) (source : Backend)
    (s : Session)
    → s.expect ≡ k ∷ ks
    → s.held ≡ some (at source (wire es (frame k body ++ rest)))
    → Without k es
    → length body + 4 ≤ max_message_len
    → length (wire es []) ≤ s.writer.room
    → let r : Session × Outcome = relay_from (rounds es 1) true s in
      (r.0.expect ≡ ks)
      × (r.0.held ≡ some (at source rest))
      × (written r.0.writer.writes ≡ written s.writer.writes ++ wire es [])
unfolding relay_from
relay_from-first k ks es body rest source s e h w small room =
    let (sink, f, w1) = passes_others k ks es 1 (frame k body ++ rest) source s e h w room in
    let s' : Session = passed source (frame k body ++ rest) sink s in
    let first : head_is s'.expect k ≡ true = ground (arith, e) in
    let g = relay_round-swallowed true k body rest source s' small first in
    let all = f ∙ relay_from_step 0 true _ s' (swallowed source rest s') refl g in
    rw all (ap tail e, refl, w1)
