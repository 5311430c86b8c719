-- ===== src/Proxy/Session/Ready.antt =====
-- examples/gpoolproxy/session.go: what the relay makes of a ReadyForQuery, with completeUnit.
use gpool.Base.{
  ℕ, ◌-◌, ◌≤◌, ◌<◌, ◌≡◌, ◌≢◌, ◌⊎◌, inl, inr, refl, ap, true, false, not, ◌||◌, List, [], ◌∷◌, ◌++◌,
  none, some, arith, ltb, ◌==◌, Bytes, Bool-cases,
}
use gpool.Proxy.Relay.{Sink, frame, tx_idle, msg_ready_for_query}
use gpool.Proxy.Relay.Chunks.{written}
use gpool.Proxy.Relay.Frames.{
  header_of, read_header-frame, forward_body-Forwarded, length-put_uint32,
}
use gpool.Proxy.Backend.{Backend}
use gpool.Proxy.Session.Rounds.{
  Session, Outcome, goes_on, handed_on, ended, head_is, complete_unit, after_unit, relay_message,
  relay_round, relay_from,
}
use gpool.Proxy.Session.Swallow.{at, passed, swallows-other}

abbrev pub ready : ℕ → Bytes
ready status = frame msg_ready_for_query (status ∷ [])

-- The session and the outcome after a ReadyForQuery, of the backend with what follows unread: with
-- nothing left to answer and no transaction open the backend goes back to the pool, and otherwise
-- the session keeps it.
abbrev pub Ended : Backend → ℕ → ℕ → Session × Outcome → Type 0
Ended b status pending (s, o) =
    ((pending ≤ 1) × (status ≡ tx_idle) × (s.held ≡ none) × (o ≡ handed_on b true))
    ⊎ ((1 < pending) ⊎ (status ≢ tx_idle)) × (s.held ≡ some b) × (o ≡ goes_on)

pub unit-Ended :
    (b : Backend) (status pending : ℕ) (s : Session)
    → s.pending ≡ pending
    → let r : Session × Outcome = after_unit true (complete_unit b status s) in
      Ended (record b { tx_status = status }) status pending r
      × (r.0.pending ≡ pending - 1)
      × (r.0.expect ≡ s.expect)
      × (r.0.writer ≡ s.writer)
unfolding complete_unit
unit-Ended b status pending s e =
    elim (Bool-cases (ltb 0 (s.pending - 1) || not (status == tx_idle))) [
      | inl t ↦ rw t (inr (ground (arith, t, e), refl, refl), ap (λ k. k - 1) e, refl, refl)
      | inr t ↦
          rw t (
            inl (ground (arith, t, e), ground (arith, t), refl, refl),
            ap (λ k. k - 1) e,
            refl,
            refl,
          )
    ]

ready_passes :
    (status : ℕ) (rest : Bytes) (source : Backend) (s : Session)
    → 6 ≤ s.writer.room
    → (sink : Sink) × (relay_message true source
          (header_of msg_ready_for_query (status ∷ []))
          1
          (status ∷ rest)
          (s, false)
        ≡ after_unit true (complete_unit (at source rest) status (passed source rest sink s)))
      × (written sink.writes ≡ written s.writer.writes ++ ready status)
unfolding relay_message
ready_passes status rest source s room =
    let body : Bytes = status ∷ [] in
    let (out, sink, f, w, one, _) =
      forward_body-Forwarded (header_of msg_ready_for_query body) body rest s.writer
        (omega (arith, length-put_uint32 5)) in
    let whole : out ≡ body = one (omega arith) in (sink, rw (f, relay_message) (rw whole refl), w)

pub relay_round-ready :
    (status : ℕ) (rest : Bytes) (source : Backend) (s : Session)
    → s.expect ≡ []
    → 6 ≤ s.writer.room
    → (sink : Sink) × (relay_round true (at source (ready status ++ rest)) s
        ≡ after_unit true (complete_unit (at source rest) status (passed source rest sink s)))
      × (written sink.writes ≡ written s.writer.writes ++ ready status)
unfolding relay_round
relay_round-ready status rest source s e room =
    let k : ℕ = msg_ready_for_query in
    let body : Bytes = status ∷ [] in
    let (sink, f, w) = ready_passes status rest (at source (ready status ++ rest)) s room in
    let first : head_is s.expect k ≡ false = ap (λ (ks : List ℕ). head_is ks k) e in
    (
      sink,
      rw (read_header-frame k body rest (omega arith), relay_round)
          (rw (swallows-other k s first) f),
      w,
    )

outcome_again :
    (r : Session × Outcome)
    → (elim r.1 as (λ o. Session × Outcome) [
      | goes_on ↦ (r.0, goes_on)
      | handed_on b on ↦ (r.0, handed_on b on)
      | ended ↦ (r.0, ended)
    ])
      ≡ r
outcome_again (s, goes_on) = refl
outcome_again (s, handed_on b on) = refl
outcome_again (s, ended) = refl

pub relay_from_one :
    (source : Backend) (s : Session)
    → s.held ≡ some source
    → relay_from 1 true s ≡ relay_round true source s
unfolding relay_from
relay_from_one source s h =
    rw h (outcome_again (relay_round true source (record s { held = some source })))
