-- ===== src/Replication/Tests.antt =====
-- Runs of the replication stream on concrete messages, and its theorems applied to them.
mod Subscribers
use gpool.Base.{
  ℕ, ◌≡◌, refl, true, false, List, [], ◌∷◌, ◌++◌, none, some, arith, Bytes, same_bytes, get,
}
use gpool.Replication.Catalog.{double_quote, single_quote, quote_identifier, quote_literal}
use gpool.Replication.Catalog.Quoting.{opened, quote-read}
use gpool.Replication.Decode.{Relation, Tuple, Row, decode_tuple, decode_insert}
use gpool.Replication.Decode.Columns.{decode_tuple-get}
use gpool.Replication.Stream.{
  Stream, Pending, relates, inserts, keepalive, wal_data, handle_keepalive, handle_message,
  handle_wal_data, handle_logical, emit_row, emit,
}
use gpool.Replication.Stream.Moves.{
  Move, handles, delivers, takes, returns, run, move, start, handles_in, delivers_in, takes_from,
  returns_with,
}
use gpool.Replication.Stream.Delivery.{AllInOrder, NothingLost, run_from_start}
use gpool.Replication.Stream.Confirms.{queued}

abbrev render : ℕ → Bytes
render n = n ∷ []

abbrev users : Relation
users = record { namespace = 112 ∷ []; name = 117 ∷ []; columns = (97 ∷ []) ∷ (98 ∷ []) ∷ [] }

abbrev row_sent : Tuple
row_sent = record { kind = 116; content = 49 ∷ [] } ∷ record { kind = 117; content = [] } ∷ []

-- The second column is one that the server did not send.
decode_tuple-get_example :
    (row : Row) × (decode_tuple users (some row_sent) ≡ some row)
    × ((◌≡◌ {A = ℕ} 117 110 → get same_bytes row (98 ∷ []) ≡ some none)
        × (◌≡◌ {A = ℕ} 117 116 → get same_bytes row (98 ∷ []) ≡ some (some []))
        × (◌≡◌ {A = ℕ} 117 117 → get same_bytes row (98 ∷ []) ≡ none))
decode_tuple-get_example =
    decode_tuple-get users row_sent 1 (98 ∷ []) (record { kind = 117; content = [] })
      ((refl, tt), (tt, tt)) refl refl

abbrev describes : Move
describes =
    handles (wal_data (some (record { start = 10; size = 2; logical = some (relates 1 users) })))
      true true

abbrev inserts_at : ℕ → Move
inserts_at lsn =
    handles
      (wal_data
        (some (record { start = lsn; size = 5; logical = some (inserts 1 (some row_sent)) })))
      true true

abbrev asks : ℕ → Move
asks server_end = handles (keepalive (some (server_end, true))) true true

abbrev quiet_end : List Move
quiet_end = describes ∷ inserts_at 20 ∷ delivers ∷ takes ∷ asks 30 ∷ returns ∷ asks 40 ∷ []

quiet_end-AllInOrder : AllInOrder render (start 4) quiet_end
unfolding AllInOrder move handles_in handle_message handle_wal_data handle_logical emit_row emit
    delivers_in
quiet_end-AllInOrder = (tt, (omega arith, (tt, (tt, (tt, (tt, (tt, tt)))))))

run_from_start_example :
    let s = run render (start 4) quiet_end in
    (s.emitted ≡ s.processed ++ queued s) × NothingLost s.sent (queued s)
run_from_start_example = run_from_start render 4 quiet_end quiet_end-AllInOrder

-- The name a"b in front of a comma.
quote-read_example :
    (opened double_quote (quote_identifier (97 ∷ 34 ∷ 98 ∷ []) ++ 44 ∷ [])
      ≡ some (97 ∷ 34 ∷ 98 ∷ [], 44 ∷ []))
    × (opened single_quote (quote_literal (97 ∷ 34 ∷ 98 ∷ []) ++ 44 ∷ [])
        ≡ some (97 ∷ 34 ∷ 98 ∷ [], 44 ∷ []))
quote-read_example = quote-read (97 ∷ 34 ∷ 98 ∷ []) (44 ∷ []) refl refl

abbrev tables : List Bytes
tables = (97 ∷ []) ∷ [] ∷ (98 ∷ []) ∷ (97 ∷ []) ∷ []
