-- ===== src/Sql/Conn/Unbound.antt =====
-- pkg/sqldriver over pkg/pooling: no caller inherits a transaction.
use gpool.Base.{ℕ, ◌≡◌, refl, Bool, true, false, List, [], ◌∷◌, none, some, arith}
use gpool.Pooling.Conn.{IdleConn}
use gpool.Pooling.Core.{Core, pop_idle}
use gpool.Pooling.Core.Release.{release}
use gpool.Pooling.Core.Idle.{EveryIdle, HandedAt, Promises, pop_idle-Every, release-Every}
use gpool.Sql.Conn.{
  Conn, Answers, end_tx, begin, settled, Tx, finish_tx, needs_cleanup, reset, adapter,
}

-- The database has no transaction in progress, and the code knows of none.
abbrev pub Unbound : Conn → Type 0
Unbound c = (c.tx ≡ none) × (c.open_tx ≡ none)

-- The transaction in progress is the one that the code remembers.
abbrev pub Remembered : Conn → Type 0
Remembered c = c.open_tx ≡ c.tx

-- What a caller does on a connection: it begins a transaction, which the driver may refuse, or it
-- ends the one it began last and the driver agrees. An end that fails is left out, and so is the end
-- of an older one: after either, the code takes the connection for one without a transaction.
pub data Use : Type 0 where
  begins : ℕ → Bool → Use
  ends : Use

abbrev pub current : Conn → Tx
current c = elim c.tx [
  | none ↦ record { id = 0; done = true }
  | some id ↦ record { id = id; done = false }
]

unfoldable pub use_conn : List Use → Conn → Conn
use_conn [] c = c
use_conn (begins id accepted ∷ uses) c = use_conn uses (begin id accepted c).0
use_conn (ends ∷ uses) c = use_conn uses (finish_tx true (current c) c).0

begin-Remembered :
    (id : ℕ) (accepted : Bool) (c : Conn) → Remembered c → Remembered (begin id accepted c).0
unfolding begin
begin-Remembered id false c h = h
begin-Remembered id true c h = refl

finish_tx-Remembered : (c : Conn) → Remembered c → Remembered (finish_tx true (current c) c).0
unfolding finish_tx settled end_tx
finish_tx-Remembered c h = ground arith

use_conn-Remembered : (uses : List Use) (c : Conn) → Remembered c → Remembered (use_conn uses c)
unfolding use_conn
use_conn-Remembered [] c h = h
use_conn-Remembered (begins id accepted ∷ uses) c h =
    use_conn-Remembered uses (begin id accepted c).0 (begin-Remembered id accepted c h)
use_conn-Remembered (ends ∷ uses) c h =
    use_conn-Remembered uses (finish_tx true (current c) c).0 (finish_tx-Remembered c h)

adapter-Promises : (a : Answers) (c : Conn) → Remembered c → Promises Unbound (adapter a) c
unfolding adapter needs_cleanup reset end_tx
adapter-Promises a c h alive = (λ clean. ground (arith, clean, h), λ fit. ground (arith, fit, h))

-- No caller inherits a transaction that was left open. A caller gets a connection without one,
-- begins transactions on it, or is refused them, and ends some, each the one begun last and each
-- with success. Once it has given the connection back, with a transaction open or without, every idle
-- connection is without one, and so is the one that is handed out next.
pub release-Unbound :
    (a : Answers) (ic : IdleConn Conn) (uses : List Use) (idx start : ℕ) (c : Core Conn)
    → Unbound ic.conn
    → EveryIdle Unbound c.shards
    → let used : IdleConn Conn = record ic { conn = use_conn uses ic.conn } in
      EveryIdle Unbound (release (adapter a) used idx c).shards
      × HandedAt Unbound (pop_idle (adapter a) start (release (adapter a) used idx c)).1
release-Unbound a ic uses idx start c u e =
    let used : IdleConn Conn = record ic { conn = use_conn uses ic.conn } in
    let held = use_conn-Remembered uses ic.conn (ground (arith, u)) in
    let kept = release-Every Unbound (adapter a) used idx c (adapter-Promises a used.conn held) e in
    (kept, (pop_idle-Every Unbound (adapter a) start (release (adapter a) used idx c) kept).1)
