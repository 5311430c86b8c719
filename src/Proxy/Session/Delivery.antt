-- ===== src/Proxy/Session/Delivery.antt =====
-- examples/gpoolproxy/session.go: when the replies of injected messages come first, the client gets
-- exactly its own.
use mathlib.Core.List.{append-nil, append_assoc}
use gpool.Base.{
  ℕ, ◌+◌, ◌-◌, ◌≤◌, ◌≡◌, ◌⊎◌, inl, inr, refl, ap, sym, ◌∙◌, Bool, true, false, List, [], ◌∷◌, ◌++◌,
  some, arith, ◌==◌, length, Bytes,
}
use gpool.Proxy.Relay.{Sink, frame, max_message_len, msg_ready_for_query}
use gpool.Proxy.Relay.Chunks.{written}
use gpool.Proxy.Backend.{Backend}
use gpool.Proxy.Backend.Draining.{wire}
use gpool.Proxy.Session.{msg_parse_complete, msg_close_complete}
use gpool.Proxy.Session.Rounds.{Session, Outcome, head_is, tail, relay_from}
use gpool.Proxy.Session.Ready.{ready, Ended, unit-Ended, relay_round-ready, relay_from_one}
use gpool.Proxy.Session.Swallow.{
  at, swallowed, passed, rounds, length-frame, relay_from_step, relay_round-swallowed,
  relay_round-passed,
}

-- The replies of a backend in their order, each to an injected message (`true`) or to the client's.
abbrev pub Replies : Type 0
Replies = List (Bool × (ℕ × Bytes))

abbrev pub messages : Replies → List (ℕ × Bytes)
messages [] = []
messages ((mine, m) ∷ rs) = m ∷ messages rs

abbrev pub to_client : Replies → List (ℕ × Bytes)
to_client [] = []
to_client ((true, m) ∷ rs) = to_client rs
to_client ((false, m) ∷ rs) = m ∷ to_client rs

abbrev pub injected_kinds : Replies → List ℕ
injected_kinds [] = []
injected_kinds ((true, (kind, body)) ∷ rs) = kind ∷ injected_kinds rs
injected_kinds ((false, m) ∷ rs) = injected_kinds rs

abbrev IsCompletion : ℕ → Type 0
IsCompletion k = (k ≡ msg_parse_complete) ⊎ (k ≡ msg_close_complete)

-- Injected messages are answered by completions, and no completion of the client's own is ahead of
-- one of them. No ReadyForQuery is among the replies, and each has a length that the relay accepts.
abbrev pub Separate : Replies → Type 0
Separate [] = Unit {0}
Separate ((true, (kind, body)) ∷ rs) =
    IsCompletion kind × (length body + 4 ≤ max_message_len) × Separate rs
Separate ((false, (kind, body)) ∷ rs) =
    ((injected_kinds rs ≡ [])
      ⊎ ((kind == msg_parse_complete) ≡ false) × ((kind == msg_close_complete) ≡ false))
    × ((kind == msg_ready_for_query) ≡ false)
    × (length body + 4 ≤ max_message_len)
    × Separate rs

-- What is owed first is a completion, if anything is.
Separate-head :
    (rs : Replies) (k : ℕ)
    → Separate rs
    → ((k == msg_parse_complete) ≡ false)
    → ((k == msg_close_complete) ≡ false)
    → head_is (injected_kinds rs) k ≡ false
Separate-head [] k w p c = refl
Separate-head ((true, (kind, body)) ∷ rs) k (e, _, w) p c = ground (arith, e, p, c)
Separate-head ((false, (kind, body)) ∷ rs) k (_, _, _, w) p c = Separate-head rs k w p c

own_first :
    (rs : Replies) (k : ℕ)
    → Separate rs
    → ((injected_kinds rs ≡ [])
        ⊎ ((k == msg_parse_complete) ≡ false) × ((k == msg_close_complete) ≡ false))
    → head_is (injected_kinds rs) k ≡ false
own_first rs k w (inl e) = rw e refl
own_first rs k w (inr (p, c)) = Separate-head rs k w p c

deliver :
    (rs : Replies) (fuel : ℕ) (rest : Bytes) (source : Backend) (s : Session)
    → s.expect ≡ injected_kinds rs
    → s.held ≡ some (at source (wire (messages rs) rest))
    → Separate rs
    → length (wire (to_client rs) []) ≤ s.writer.room
    → (s' : Session) × (relay_from (rounds (messages rs) fuel) true s ≡ relay_from fuel true s')
      × (s'.expect ≡ [])
      × (s'.held ≡ some (at source rest))
      × (s'.pending ≡ s.pending)
      × (s.writer.room ≤ s'.writer.room + length (wire (to_client rs) []))
      × (written s'.writer.writes ≡ written s.writer.writes ++ wire (to_client rs) [])
deliver [] fuel rest source s e h w room =
    (s, refl, e, h, refl, omega arith, sym (append-nil (written s.writer.writes)))
deliver ((true, (kind, body)) ∷ rs) fuel rest source s e h (_, small, w) room =
    let after : Bytes = wire (messages rs) rest in
    let k : Session = swallowed source after s in
    let f = relay_round-swallowed true kind body after source s small (ground (arith, e)) in
    let (s', g, x, y, p, q, z) = deliver rs fuel rest source k (ap tail e) refl w room in
    (s', relay_from_step (rounds (messages rs) fuel) true _ s k h f ∙ g, x, y, p, q, z)
deliver ((false, (kind, body)) ∷ rs) fuel rest source s e h (own, plain, small, w) room =
    let after : Bytes = wire (messages rs) rest in
    let long = length-frame kind body (wire (to_client rs) []) in
    let first : head_is s.expect kind ≡ false =
      ap (λ (ks : List ℕ). head_is ks kind) e ∙ own_first rs kind w own in
    let (sink, f, w1, r) =
      relay_round-passed kind body after source s small first plain (omega (arith, long)) in
    let k : Session = passed source after sink s in
    let (s', g, x, y, p, q, z) = deliver rs fuel rest source k e refl w (omega (arith, long, r)) in
    (
      s',
      relay_from_step (rounds (messages rs) fuel) true _ s k h f ∙ g,
      x,
      y,
      p,
      omega (arith, q, long, r),
      z
          ∙ ap (λ t. t ++ wire (to_client rs) []) w1
          ∙ append_assoc (written s.writer.writes) (frame kind body) (wire (to_client rs) []),
    )

-- What the client gets of an answer that ends in a ReadyForQuery. Each injected message is answered
-- by a completion, in the order in which they are owed, no completion of the client's own is ahead
-- of one of those, no reply is longer than the relay accepts, no other ReadyForQuery is among them,
-- and the client takes all that is for it. Then the relay passes on exactly the replies to the
-- client's messages and the ReadyForQuery, byte for byte and in order, swallows exactly the others,
-- and nothing is owed any more. The backend, with what follows unread and the status that was told,
-- goes back to the pool if this was the last answer owed and no transaction is open, and stays with
-- the session otherwise. One round for each message is enough.
pub relay_from-delivers :
    (rs : Replies) (status : ℕ) (rest : Bytes) (source : Backend) (s : Session)
    → s.expect ≡ injected_kinds rs
    → s.held ≡ some (at source (wire (messages rs) (ready status ++ rest)))
    → Separate rs
    → length (wire (to_client rs) []) + 6 ≤ s.writer.room
    → let r : Session × Outcome = relay_from (rounds (messages rs) 1) true s in
      (r.0.expect ≡ [])
      × (r.0.pending ≡ s.pending - 1)
      × Ended (record source { reader = rest; tx_status = status }) status s.pending r
      × (written r.0.writer.writes
          ≡ written s.writer.writes ++ (wire (to_client rs) [] ++ ready status))
relay_from-delivers rs status rest source s e h w room =
    let after : Bytes = ready status ++ rest in
    let (s', f, x, y, p, q, z) = deliver rs 1 after source s e h w (omega arith) in
    let (sink, g, v) = relay_round-ready status rest source s' x (omega (arith, q, room)) in
    let (d, p', x', t) =
      unit-Ended (at source rest) status s.pending (passed source rest sink s') p in
    rw (f ∙ relay_from_one (at source after) s' y ∙ g) (
      x' ∙ x,
      p',
      d,
      ap (λ (k : Sink). written k.writes) t
          ∙ v
          ∙ ap (λ bs. bs ++ ready status) z
          ∙ append_assoc (written s.writer.writes) (wire (to_client rs) []) (ready status),
    )
