-- ===== src/Proxy/Backend/Clean.antt =====
-- examples/gpoolproxy: driver.go over pkg/pooling/core.go, no client inherits a transaction.
use gpool.Base.{
  ℕ, suc, ◌≡◌, ◌⊎◌, inl, inr, refl, ◌∙◌, Bool, true, false, not, arith, if◌then◌else◌, length,
  Bytes, if_both,
}
use gpool.Pooling.Conn.{IdleConn, Driver}
use gpool.Pooling.Core.{Core, pop_idle}
use gpool.Pooling.Core.Release.{release}
use gpool.Pooling.Core.Idle.{EveryIdle, HandedAt, Promises, pop_idle-Every, release-Every}
use gpool.Proxy.Relay.{Result, ok, err, Fault, Sink, write, tx_idle}
use gpool.Proxy.Backend.{
  Backend, fail, rollback, succeeded, recyclable, needs_cleanup, backend_driver,
}
use gpool.Proxy.Relay.Chunks.{Result-cases}
use gpool.Proxy.Backend.Draining.{Drained, idle, failed, drain_to_ready-Drained}

-- The last status that was read of the server is idle, and the protocol was not interrupted
-- mid-message. What the server has sent since and nobody has read is not looked at.
abbrev pub Clean : Backend → Type 0
Clean b = (b.tx_status ≡ tx_idle) × (b.broken ≡ false)

-- What a rollback gives, its error apart.
data RolledBack (b : Backend) : Backend × Result (Unit {0}) → Type 0 where
  back : {b' : Backend} → b'.tx_status ≡ tx_idle → b'.broken ≡ b.broken → RolledBack b (b', ok tt)
  not_back : {b' : Backend} {e : Fault} → RolledBack b (b', err e)

RolledBack-of :
    {b : Backend} {sink : Sink} {r : Backend × Result (Unit {0})}
    → Drained (record b { writer = sink }) r
    → RolledBack b r
RolledBack-of (idle i s) = back i s
RolledBack-of (failed n) = not_back

rollback-RolledBack :
    (encoded : Bytes) (deadline_set flushes : Bool) (b : Backend)
    → RolledBack b (rollback encoded deadline_set flushes b)
unfolding rollback
rollback-RolledBack encoded deadline_set flushes b = elim (Result-cases (write encoded b.writer)) [
  | inl (e, q) ↦ rw (q, rollback) not_back
  | inr (sink, q) ↦
      rw (q, rollback)
        (if_both (RolledBack b) (not deadline_set) _ _ (λ _. not_back)
          (λ _.
            if_both (RolledBack b) (not flushes) _ _ (λ _. not_back)
              (λ _. RolledBack-of (
                drain_to_ready-Drained (suc (length b.reader)) (record b { writer = sink })
                  (omega arith)))))
]

-- What `Recyclable` makes of a connection.
abbrev pub Recycled : Backend × Bool → Type 0
Recycled r = ((r.1 ≡ true) × Clean r.0) ⊎ ((r.1 ≡ false) × (r.0.broken ≡ true))

Recycled-of :
    {b : Backend} {r : Backend × Result (Unit {0})}
    → b.broken ≡ false
    → RolledBack b r
    → Recycled (if succeeded r.1 then (r.0, true) else (fail r.0, false))
Recycled-of alive (back i s) = inl (refl, (i, s ∙ alive))
Recycled-of alive not_back = inr (refl, refl)

-- A connection that `Recyclable` lets back in has no open transaction; whatever goes wrong with the
-- rollback, and however long the server answers, any other is marked as broken.
pub recyclable-Recycled :
    (encoded : Bytes) (deadline_set flushes : Bool) (b : Backend)
    → b.broken ≡ false
    → Recycled (recyclable encoded deadline_set flushes b)
unfolding recyclable
recyclable-Recycled encoded deadline_set flushes b alive =
    Recycled-of alive (rollback-RolledBack encoded deadline_set flushes b)

backend_driver-Promises :
    (encoded : Bytes) (deadline_set flushes : Bool) (b : Backend)
    → Promises Clean (backend_driver encoded deadline_set flushes) b
unfolding backend_driver
backend_driver-Promises encoded deadline_set flushes b alive =
    let r = recyclable encoded deadline_set flushes b in
    (
      λ (clean : needs_cleanup b ≡ false). (ground arith, alive),
      λ (fit : r.1 ≡ true). elim (recyclable-Recycled encoded deadline_set flushes b alive) [
        | inl (_, c) ↦ c
        | inr (unfit, _) ↦ cc
      ],
    )

-- If the last status read of every idle connection says that no transaction is open and none of them
-- is broken, then this is so again after the engine has taken back a server connection in whatever
-- state a session left it, and of the connection that is handed out next. What a server has sent and
-- nobody has read is not looked at.
pub release-Clean :
    (encoded : Bytes) (deadline_set flushes : Bool) (ic : IdleConn Backend) (idx start : ℕ)
    (c : Core Backend)
    → EveryIdle Clean c.shards
    → let d : Driver Backend = backend_driver encoded deadline_set flushes in
      EveryIdle Clean (release d ic idx c).shards
      × HandedAt Clean (pop_idle d start (release d ic idx c)).1
release-Clean encoded deadline_set flushes ic idx start c e =
    let d : Driver Backend = backend_driver encoded deadline_set flushes in
    let kept =
      release-Every Clean d ic idx c (backend_driver-Promises encoded deadline_set flushes ic.conn)
        e in
    (kept, (pop_idle-Every Clean d start (release d ic idx c) kept).1)
