-- ===== src/Pooling/Core/Maintain.antt =====
-- pkg/pooling/core.go: the background work, reapExpired and warmUp, and Close.
use gpool.Base.{
  ℕ, zero, suc, ◌+◌, ◌-◌, ◌%◌, Bool, true, false, ◌&&◌, ◌||◌, List, [], ◌∷◌, none, some,
  if◌then◌else◌, set, pos, lt_int, to_nat,
}
use gpool.Pooling.Permit.{Permits, Round, Wait, granted, cancelled, parked}
use gpool.Pooling.Permit
use gpool.Pooling.Conn.{IdleConn, Driver, expired, closed_reason}
use gpool.Pooling.Shard.{Shard, shard_count}
use gpool.Pooling.Shard
use gpool.Pooling.Core.{Core, why_unusable, reserve_slot, release_slot, shard_at}
use gpool.Pooling.Core.Acquire.{Attempt, release_permit}
use gpool.Pooling.Core.Release.{push_at}
use gpool.Pooling.Core.Resize.{destroy_all, sweep}

module _ {ℓ} {C : Type ℓ} where
  -- What `reapExpired` takes out of the shards.
  unfoldable pub stale : Driver C → Core C → IdleConn C → Bool
  stale d c ic =
      d.dead ic.conn || expired ic c.clock c.config.max_conn_lifetime c.config.max_conn_idle_time

  unfoldable pub reap_expired : Driver C → Core C → Core C
  reap_expired d c = (sweep (stale d c) (λ ic. why_unusable d ic c.clock c) shard_count 0 c).0

  -- A round of `warmUp` once it holds a permit and a slot: the connection is pooled, or the failed
  -- dial gives the slot back and ends the loop.
  unfoldable pub warm_one : Attempt C → Core C → Core C × Bool
  warm_one a c = elim a.dialled [
    | none ↦ (release_permit (release_slot c), false)
    | some conn ↦
        let ic : IdleConn C = record { conn = conn; created_at = a.now; idle_since = a.now } in
        (
          release_permit
              (push_at (a.home % shard_count) ic (record c { driver_opens = c.driver_opens + 1 })),
          true,
        )
  ]

  -- One round of `warmUp`, and whether the loop goes on. `bgCtx` has ended exactly when the pool is
  -- closed. A round that has to park for a permit leaves the engine as it is.
  unfoldable pub warm_permitted : Attempt C → Core C → Wait → Core C × Bool
  warm_permitted a c cancelled = (c, false)
  warm_permitted a c parked = (c, false)
  warm_permitted a c (granted p) =
      let (c', reserved) = reserve_slot (record c { permits = p }) in
      if reserved then warm_one a c' else (release_permit c', false)

  unfoldable pub warm_round : Attempt C → Core C → Core C × Bool
  unfolding warm_permitted
  warm_round a c =
      if lt_int (pos 0) c.config.min_conns && lt_int c.total_conns c.config.min_conns
      then (if c.closed
          then (c, false)
          else warm_permitted a c (Permit.acquire false false c.permits))
      else (c, false)

  -- `warmUp`, with what the environment decides in each round.
  unfoldable pub warm_up : List (Attempt C) → Core C → Core C
  warm_up [] c = c
  warm_up (a ∷ rest) c =
      let (c', more) = warm_round a c in elim more [ true ↦ warm_up rest c' | false ↦ c' ]

  -- `Close` up to where it waits for checked-out connections, and what it does after that wait.
  -- The connections that come back in between are released by their callers.
  unfoldable pub close_begin : Core C → Core C
  close_begin c = record c { closed = true }

  unfoldable pub drain_shards : ℕ → Core C → Core C
  unfolding shard_at
  drain_shards zero c = c
  drain_shards (suc left) c =
      let idx = shard_count - suc left in
      let (s, conns) = Shard.drain (shard_at idx c) in
      drain_shards left
        (destroy_all (λ ic. closed_reason) conns (record c { shards = set c.shards idx s }))

  -- The drain of the permits may give up in any of its rounds, as its caller says; no permit comes
  -- back while it waits. Then the shards are emptied.
  unfoldable pub close_end : (ℕ → Bool) → Core C → Core C
  unfolding drain_shards
  close_end gives_up c =
      let rounds : ℕ → Round = λ i. record { returned = 0; gives_up = gives_up i } in
      drain_shards shard_count
        (record c { permits = (Permit.drain (to_nat c.max_conns) rounds 0 c.permits).0 })
