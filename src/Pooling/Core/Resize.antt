-- ===== src/Pooling/Core/Resize.antt =====
-- pkg/pooling/core.go: SetMaxConns with trimIdle, and EvictIdle.
use gpool.Base.{
  ℕ, zero, suc, ◌+◌, ◌-◌, Bool, true, false, List, [], ◌∷◌, Option, none, some, if◌then◌else◌,
  length, set, ℤ, lt_int,
}
use gpool.Pooling.Permit
use gpool.Pooling.Conn.{IdleConn, Driver, Discard, evicted_reason}
use gpool.Pooling.Shard.{Shard, shard_count}
use gpool.Pooling.Shard
use gpool.Pooling.Core.{Core, destroy, pop_idle, shard_at, idle_total}

pub data ResizeError : Type 0 where
  closed_error below_min above_limit : ResizeError

module _ {ℓ} {C : Type ℓ} where
  -- Each round closes a connection that was idle: one round more than there are is enough fuel.
  -- `starts` gives the random number of each round.
  unfoldable pub trim_idle : Driver C → (ℕ → ℕ) → ℤ → ℕ → Core C → Core C
  trim_idle d starts n zero c = c
  trim_idle d starts n (suc fuel) c =
      let (c', popped) = pop_idle d (starts fuel) c in
      elim (lt_int n c.total_conns) [
        | false ↦ c
        | true ↦ elim popped [
          | none ↦ c'
          | some (ic, idx) ↦ trim_idle d starts n fuel (destroy ic evicted_reason c')
        ]
      ]

  unfoldable pub set_max_conns : Driver C → (ℕ → ℕ) → ℤ → Core C → Core C × Option ResizeError
  set_max_conns d starts n c =
      let c' = record c { max_conns = n; permits = (Permit.resize n c.permits).0 } in
      if c.closed
      then (c, some closed_error)
      else if lt_int n c.config.min_conns
      then (c, some below_min)
      else if lt_int c.config.max_conns_limit n
      then (c, some above_limit)
      else (trim_idle d starts n (suc (idle_total c'.shards)) c', none)

  -- The inner loop of EvictIdle, reapExpired and Close: what was taken off a shard is destroyed.
  unfoldable pub destroy_all : (IdleConn C → Discard) → List (IdleConn C) → Core C → Core C
  destroy_all why [] c = c
  destroy_all why (ic ∷ ics) c = destroy_all why ics (destroy ic (why ic) c)

  -- One shard's round of EvictIdle and reapExpired, and how many connections it closed.
  unfoldable pub sweep_shard :
      (IdleConn C → Bool) → (IdleConn C → Discard) → ℕ → Core C → Core C × ℕ
  unfolding shard_at
  sweep_shard match why idx c =
      let (s, taken) = Shard.take_if match (shard_at idx c) in
      (destroy_all why taken (record c { shards = set c.shards idx s }), length taken)

  -- The loop over the shards, from shard `shard_count - left` on.
  unfoldable pub sweep : (IdleConn C → Bool) → (IdleConn C → Discard) → ℕ → ℕ → Core C → Core C × ℕ
  sweep match why zero n c = (c, n)
  sweep match why (suc left) n c =
      let (c', k) = sweep_shard match why (shard_count - suc left) c in
      sweep match why left (n + k) c'

  unfoldable pub evict_idle : Core C → Core C × ℕ
  evict_idle c =
      if c.closed then (c, 0) else sweep (λ ic. true) (λ ic. evicted_reason) shard_count 0 c
