-- ===== src/Proxy/Tests/Relays.antt =====
-- The theorems on frames, on a server connection and on the handshake, each on a small input.
use gpool.Base.{
  ℕ, ◌≤◌, ◌≡◌, refl, true, false, [], ◌∷◌, ◌++◌, Option, none, some, arith, length, pos, Bytes,
  if◌then◌else◌, ◌==◌, same_bytes,
}
use gpool.Pooling.Conn.{IdleConn, Driver}
use gpool.Pooling.Shard.{shard_count}
use gpool.Pooling.Core.{Core, start_core, pop_idle}
use gpool.Pooling.Core.Release.{release}
use gpool.Pooling.Core.Idle.{EveryIdle, HandedAt, EveryIdle-empty}
use gpool.Pooling.Config.{Config}
use gpool.Proxy.Wire.{put_uint32}
use gpool.Proxy.Statements.{new_statements}
use gpool.Proxy.Relay.{
  Sink, ok, err, not_idle, frame, forward, relay_chunk, msg_ready_for_query, tx_idle,
}
use gpool.Proxy.Relay.Chunks.{written}
use gpool.Proxy.Relay.Frames.{forward-frame}
use gpool.Proxy.Backend.{Backend, drain_to_ready, backend_driver}
use gpool.Proxy.Backend.Draining.{wire, drain_to_ready-wire}
use gpool.Proxy.Backend.Clean.{Clean, release-Clean}
use gpool.Proxy.Startup.{Client, startup, authenticate}
use gpool.Proxy.Startup.Exchange.{SameUpToGrant, authenticate-Same}
use gpool.Proxy.Startup.Ends.{Ends, startup-Ends}

abbrev sink : Sink
sink = record { writes = []; room = 100 }

-- ReadyForQuery, idle.
abbrev ready : Bytes
ready = frame 90 (73 ∷ [])

abbrev idle_status : Bytes
idle_status = 73 ∷ []

abbrev hello : Bytes
hello = 7 ∷ 8 ∷ []

abbrev server : Bytes → ℕ → Backend
server src status = record {
  reader = src;
  writer = sink;
  pid = 1;
  secret = [];
  tx_status = status;
  prepared = new_statements (pos 2);
  broken = false;
}

forward-frame_example :
    (out : Bytes) × (dst' : Sink) × (forward (frame 90 (73 ∷ []) ++ 7 ∷ []) sink
      ≡ ok (90, out, 7 ∷ [], dst'))
    × (written dst'.writes ≡ written sink.writes ++ frame 90 (73 ∷ []))
    × (length idle_status ≤ relay_chunk → out ≡ idle_status)
forward-frame_example = forward-frame 90 (73 ∷ []) (7 ∷ []) sink (omega arith) (omega arith)

-- CommandComplete, then ReadyForQuery.
abbrev answered : Backend
answered = server (wire ((67, []) ∷ []) (frame msg_ready_for_query (73 ∷ []) ++ 7 ∷ [])) 84

drain_to_ready-wire_example : drain_to_ready 2 answered ≡ (
  record answered { reader = 7 ∷ []; tx_status = 73 },
  if 73 == tx_idle then ok tt else err (not_idle 73),
)
drain_to_ready-wire_example =
    drain_to_ready-wire 2 ((67, []) ∷ []) 73 (7 ∷ []) answered (omega arith) (refl, omega arith, tt)
      refl

abbrev config : Config
config = record {
  max_conns = pos 2;
  max_conns_limit = pos 3;
  min_conns = pos 1;
  max_conn_idle_time = pos 50;
  max_conn_lifetime = pos 100;
  health_check_period = pos 0;
  cleanup_timeout = pos 0;
  connect_timeout = pos 0;
}

abbrev engine : Core Backend
engine = start_core config 0

abbrev given_back : IdleConn Backend
given_back = record { conn = server ready 84; created_at = 0; idle_since = 0 }

release-Clean_example :
    let d : Driver Backend = backend_driver (81 ∷ []) true true in
    EveryIdle Clean (release d given_back 0 engine).shards
    × HandedAt Clean (pop_idle d 0 (release d given_back 0 engine)).1
release-Clean_example =
    release-Clean (81 ∷ []) true true given_back 0 0 engine (EveryIdle-empty Clean shard_count)

-- A verifier is a number here; the challenge is fixed, and the proof is that number.
abbrev challenge : ℕ → Bytes → Option Bytes
challenge v initial = some (1 ∷ [])

abbrev verify : ℕ → Bytes → Bytes → Option Bytes
verify v initial final = if same_bytes final (v ∷ []) then some (2 ∷ []) else none

abbrev nobody : Bytes → Option ℕ
nobody user = none

abbrev client : Client
client = record { reader = frame 112 (1 ∷ []); said = [] }

startup-Ends_example : Ends 0 client (startup challenge verify nobody 5 none 2 client)
unfolding put_uint32
startup-Ends_example = startup-Ends challenge verify nobody 5 none 2 client tt (omega arith)

authenticate-Same_example :
    SameUpToGrant challenge verify
      (authenticate challenge verify (λ _. some 5) 5 (97 ∷ []) client)
      (authenticate challenge verify nobody 5 (97 ∷ []) client)
authenticate-Same_example = authenticate-Same challenge verify nobody 5 (97 ∷ []) client refl
