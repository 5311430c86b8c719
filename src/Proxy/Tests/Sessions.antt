-- ===== src/Proxy/Tests/Sessions.antt =====
-- The theorems on sessions, each on a small input.
use gpool.Base.{◌+◌, ◌≤◌, ◌≡◌, inl, refl, true, false, [], ◌∷◌, ◌++◌, none, some, arith, pos, Bytes}
use gpool.Proxy.Wire.{
  msg_bind, statement_name_of, put_uint32, bind_name, cut_bytes, c_string, names_statement,
}
use gpool.Proxy.Statements.{Statements, new_statements, lookup, remember}
use gpool.Proxy.Statements.View.{view}
use gpool.Proxy.Relay.{
  Sink, ok, frame, tx_idle, read_header, read_full, write, forward_body, ends_transaction_unit,
}
use gpool.Proxy.Relay.Chunks.{written}
use gpool.Proxy.Backend.{Backend}
use gpool.Proxy.Backend.Draining.{wire}
use gpool.Proxy.Session.{Link, reconcile, ensure_prepared, hold, inject}
use gpool.Proxy.Session.Agreement.{Reconciled}
use gpool.Proxy.Session.Reconcile.{own_effects, Served, reconcile-Reconciled}
use gpool.Proxy.Session.Rounds.{
  Session, Outcome, goes_on, handed_on, new_session, pump_round, forward, forward_bulk, count_unit,
  ensure_backend, relay_round, relay_message, swallows, complete_unit, relay_from,
}
use gpool.Proxy.Session.Handover.{next_kind}
use gpool.Proxy.Session.Answered.{asks, Serves, starts, pumps, answers, handed_on-answered}
use gpool.Proxy.Session.Swallow.{at, rounds, relay_from-first}
use gpool.Proxy.Session.Ready.{ready, Ended}
use gpool.Proxy.Session.Delivery.{Replies, messages, to_client, relay_from-delivers}

abbrev sink : Sink
sink = record { writes = []; room = 200 }

abbrev server : Bytes → Backend
server src = record {
  reader = src;
  writer = sink;
  pid = 1;
  secret = [];
  tx_status = tx_idle;
  prepared = new_statements (pos 2);
  broken = false;
}

-- The client has prepared a statement, and its transaction lands on a backend without it.
abbrev parse_a : Bytes
parse_a = frame 80 (97 ∷ 0 ∷ 81 ∷ 0 ∷ 0 ∷ 0 ∷ [])

abbrev bind_a : Bytes
bind_a = frame 66 (0 ∷ 97 ∷ 0 ∷ [])

abbrev known : Statements
known = record {
  by_name = (97 ∷ [], record { message = parse_a; used = 1 }) ∷ [];
  limit = pos 2;
  uses = 1;
}

abbrev link : Link
link = record { target = server []; statements = known; expect = [] }

bind_succeeds : (reconcile msg_bind bind_a link).1 ≡ ok tt
unfolding reconcile ensure_prepared hold inject write lookup remember put_uint32 statement_name_of
    bind_name cut_bytes c_string
bind_succeeds = refl

reconcile-Reconciled_example :
    Reconciled
      (own_effects msg_bind bind_a)
      (view link.target.prepared)
      link
      (reconcile msg_bind bind_a link).0
    × Served msg_bind bind_a link (reconcile msg_bind bind_a link).0
reconcile-Reconciled_example =
    reconcile-Reconciled msg_bind bind_a (view link.target.prepared) link (λ j. refl) bind_succeeds

-- The client sends a Query, and the backend answers it.
abbrev query : Bytes
query = frame 81 (0 ∷ [])

abbrev answer : Bytes
answer = frame 90 (73 ∷ [])

abbrev fresh : Session
fresh = new_session (pos 2) query sink

abbrev asked : Session
asked = (pump_round (some (server answer)) true fresh).0

abbrev asker : Backend
asker = record (server answer) {
  writer = record { writes = (81 ∷ put_uint32 5) ∷ (0 ∷ []) ∷ []; room = 194 };
}

query_forwarded : (pump_round (some (server answer)) true fresh).1 ≡ goes_on
unfolding new_session pump_round forward forward_bulk count_unit ensure_backend read_header
    read_full forward_body write put_uint32 ends_transaction_unit names_statement
query_forwarded = refl

asks_once : 0 + answers answer ≤ 0 + asks (next_kind fresh.reader)
unfolding new_session read_header read_full put_uint32 ends_transaction_unit
asks_once = omega arith

-- The backend after it took the Query.
holds : asked.held ≡ some asker
unfolding new_session pump_round forward forward_bulk count_unit ensure_backend read_header
    read_full forward_body write put_uint32 ends_transaction_unit names_statement
holds = refl

hands_on : (relay_round true asker asked).1 ≡ handed_on (at asker []) true
unfolding new_session pump_round forward forward_bulk count_unit ensure_backend read_header
    read_full forward_body write put_uint32 ends_transaction_unit names_statement relay_round
    relay_message swallows complete_unit
hands_on = refl

one_query : Serves (pos 2) query sink asked (0 + asks (next_kind fresh.reader)) 0
one_query = pumps (some (server answer)) true (starts refl refl) query_forwarded

handed_on-answered_example :
    (0 + answers asker.reader ≡ 0 + asks (next_kind fresh.reader))
    × (tx_idle ≡ tx_idle)
    × ((relay_round true asker asked).0.held ≡ none)
handed_on-answered_example =
    handed_on-answered true true asker (at asker []) one_query holds asks_once hands_on

-- A ParseComplete for an injected Parse, then the client's BindComplete and
-- ReadyForQuery.
abbrev replies : Replies
replies = (true, (49, [])) ∷ (false, (50, [])) ∷ []

abbrev owing : Session
owing = record {
  reader = [];
  writer = sink;
  held = some (at (server []) (wire (messages replies) (ready tx_idle ++ [])));
  statements = known;
  expect = 49 ∷ [];
  pending = 1;
  stopped = false;
}

relay_from-delivers_example :
    let r : Session × Outcome = relay_from (rounds (messages replies) 1) true owing in
    (r.0.expect ≡ [])
    × (r.0.pending ≡ 0)
    × Ended (server []) tx_idle 1 r
    × (written r.0.writer.writes
        ≡ written sink.writes ++ (wire (to_client replies) [] ++ ready tx_idle))
unfolding put_uint32
relay_from-delivers_example =
    relay_from-delivers replies tx_idle [] (server []) owing refl refl
      (inl refl, omega arith, (inl refl, refl, omega arith, tt)) (omega arith)

-- The client's own Parse comes first in its batch, then a Bind for which another is injected: what
-- the backend answers is ParseComplete, ParseComplete, BindComplete.
abbrev overtaken : Session
overtaken = record owing {
  held = some (at (server []) (wire [] (frame 49 [] ++ (frame 49 [] ++ frame 50 []))));
}

relay_from-first_example :
    let r : Session × Outcome = relay_from (rounds [] 1) true overtaken in
    (r.0.expect ≡ [])
    × (r.0.held ≡ some (at (server []) (frame 49 [] ++ frame 50 [])))
    × (written r.0.writer.writes ≡ written sink.writes ++ wire [] [])
relay_from-first_example =
    relay_from-first 49 [] [] [] (frame 49 [] ++ frame 50 []) (server []) overtaken refl refl tt
      (omega arith) (omega arith)
