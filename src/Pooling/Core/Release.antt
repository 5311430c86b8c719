-- ===== src/Pooling/Core/Release.antt =====
-- pkg/pooling/core.go: release and recyclable; pkg/pooling/handle.go: Handle.
use gpool.Base.{
  ℕ, Bool, true, false, not, ◌&&◌, Option, none, some, if◌then◌else◌, set, pos, decr, lt_int,
}
use gpool.Pooling.Conn.{IdleConn, Driver, expired, evicted_reason, closed_reason}
use gpool.Pooling.Shard.{empty_shard}
use gpool.Pooling.Shard
use gpool.Pooling.Core.{Core, destroy, why_unusable, shard_at}
use gpool.Pooling.Core.Acquire.{Handle, release_permit}

module _ {ℓ} {C : Type ℓ} where
  -- A driver that is no ReadinessChecker finds every connection ready.
  abbrev pub is_ready : Option (C → Bool) → C → Bool
  is_ready none conn = true
  is_ready (some ready) conn = ready conn

  -- The connection as its cleanup leaves it, and whether the next caller may have it.
  unfoldable pub recyclable : Driver C → IdleConn C → Core C → IdleConn C × Bool
  recyclable d ic c =
      let (conn, clean) = d.recyclable ic.conn in
      let fresh = not (expired ic c.clock c.config.max_conn_lifetime (pos 0)) in
      if d.dead ic.conn
      then (ic, false)
      else if not (is_ready d.ready ic.conn)
      then (ic, false)
      else if d.needs_cleanup ic.conn
      then (record ic { conn = conn }, clean && fresh)
      else (ic, fresh)

  unfoldable pub push_at : ℕ → IdleConn C → Core C → Core C
  unfolding shard_at
  push_at idx ic c = record c { shards = set c.shards idx (Shard.push (shard_at idx c) ic) }

  -- What becomes of a connection that a caller gives back, its permit apart.
  unfoldable pub settle : Driver C → IdleConn C → ℕ → Core C → Core C
  settle d ic idx c =
      let (cleaned, fit) = recyclable d ic c in
      if c.closed
      then destroy ic closed_reason c
      else if not fit
      then destroy cleaned (why_unusable d cleaned c.clock c) c
      else if lt_int c.max_conns c.total_conns
      then destroy cleaned evicted_reason c
      else push_at idx (record cleaned { idle_since = c.clock }) c

  -- `Core.release`: the permit is given back last.
  unfoldable pub release : Driver C → IdleConn C → ℕ → Core C → Core C
  unfolding settle
  release d ic idx c =
      release_permit (settle d ic idx (record c { checked_out = decr c.checked_out }))

  -- `Handle.Release`: the second call does nothing.
  unfoldable pub handle_release : Driver C → Handle C → Core C → Core C × Handle C
  handle_release d h c =
      if h.released then (c, h) else (release d h.idle h.shard_idx c, record h { released = true })
