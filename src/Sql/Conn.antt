-- ===== src/Sql/Conn.antt =====
-- pkg/sqldriver/conn.go, pool.go and tx.go: a connection, its transaction, and what the engine is
-- given of it.
--
-- `open` is the transaction that the database has in progress on the connection, which the code does
-- not see: it remembers in `tx` the one that it was last given. A transaction is its number. What the
-- driver answers is an argument: whether it began, ended or reset what it was asked to.
pub mod Unbound
use gpool.Base.{
  ℕ, Bool, true, false, not, ◌&&◌, ◌||◌, List, [], ◌∷◌, Option, none, some, ◌==◌, if◌then◌else◌,
}
use gpool.Pooling.Conn.{Driver}

pub record Conn : Type 0 where
  pub tx : Option ℕ
  pub open_tx : Option ℕ
  pub valid : Bool

-- The optional interfaces of a driver: SessionResetter, and what each call of it gives.
pub record Answers : Type 0 where
  pub resets : Bool
  pub rolls_back : ℕ → Bool
  pub reset_session : Bool

abbrev is_open : ℕ → Option ℕ → Bool
is_open id none = false
is_open id (some other) = id == other

-- The driver's end of a transaction: if it gives no error, that one is over.
unfoldable pub end_tx : Bool → ℕ → Conn → Conn
end_tx ended id c = if ended && is_open id c.open_tx then record c { open_tx = none } else c

-- `begin`, and what the driver says to it.
unfoldable pub begin : ℕ → Bool → Conn → Conn × Bool
begin id false c = (c, false)
begin id true c = (record c { tx = some id; open_tx = some id }, true)

unfoldable pub settled : Conn → Conn
settled c = record c { tx = none }

pub record Tx : Type 0 where
  pub id : ℕ
  pub done : Bool

pub data TxResult : Type 0 where
  tx_ok : TxResult
  tx_failed : TxResult
  tx_closed : TxResult

abbrev tx_result : Bool → TxResult
tx_result true = tx_ok
tx_result false = tx_failed

-- `Commit` and `Rollback`, which differ in what they ask of the driver only.
unfoldable pub finish_tx : Bool → Tx → Conn → Conn × (Tx × TxResult)
finish_tx ended t c =
    if t.done
    then (c, (t, tx_closed))
    else (settled (end_tx ended t.id c), (record t { done = true }, tx_result ended))

unfoldable pub dead : Conn → Bool
dead c = not c.valid

abbrev has_tx : Option ℕ → Bool
has_tx none = false
has_tx (some id) = true

unfoldable pub needs_cleanup : Answers → Conn → Bool
needs_cleanup a c = has_tx c.tx || a.resets

abbrev reset_after : Answers → Conn → Conn × Bool
reset_after a c = if a.resets && not a.reset_session then (c, false) else (c, true)

unfoldable pub reset : Answers → Conn → Conn × Bool
reset a c = elim c.tx [
  | none ↦ reset_after a c
  | some id ↦
      if a.rolls_back id
      then reset_after a (record (end_tx true id c) { tx = none })
      else (c, false)
]

-- The adapter; the check for a nil connection has no counterpart.
unfoldable pub adapter : Answers → Driver Conn
adapter a = record {
  dead = dead;
  needs_cleanup = needs_cleanup a;
  recyclable = reset a;
  ready = none;
}
