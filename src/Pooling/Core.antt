-- ===== src/Pooling/Core.antt =====
-- pkg/pooling/core.go: the state of the engine, and the steps that its methods share.
--
-- A function here is a method, or the part of one between two places where it can block, run with
-- no other goroutine between its steps. What the environment decides is an argument: the driver's
-- answers, random numbers, the time, whether a context has ended.
pub mod Acquire
pub mod Release
pub mod Resize
pub mod Maintain
pub mod Accounts
pub mod Idle
use gpool.Base.{
  ℕ, zero, suc, ◌+◌, ◌-◌, ◌%◌, ◌≡◌, Bool, true, false, not, ◌&&◌, List, [], ◌∷◌, Option, none, some,
  if◌then◌else◌, length, get_or, set, replicate, ℤ, pos, incr, decr, lt_int, to_nat,
}
use gpool.Pooling.Permit.{Permits, new_permits}
use gpool.Pooling.Permit
use gpool.Pooling.Conn.{
  IdleConn, Driver, Discard, Discards, expired, count_discard, expired_reason, unhealthy_reason,
}
use gpool.Pooling.Shard.{Shard, empty_shard, shard_count}
use gpool.Pooling.Shard
use gpool.Pooling.Config.{Config, ConfigError, validate, with_defaults}

-- The fields of `Core`, the atomic ones as plain values. The last two record the engine's effects:
-- how many connections `driver.Connect` returned, and those that it gave to `driver.Close`, the
-- latest first.
pub record Core {ℓ} (C : Type ℓ) : Type ℓ where
  pub config : Config
  pub permits : Permits
  pub shards : List (Shard C)
  pub max_conns : ℤ
  pub clock : ℕ
  pub total_conns : ℤ
  pub checked_out : ℤ
  pub waiting : ℤ
  pub acquire_count : ℕ
  pub acquire_wait_nanos : ℕ
  pub empty_acquire_count : ℕ
  pub canceled_acquire_count : ℕ
  pub discarded : Discards
  pub closed : Bool
  pub driver_opens : ℕ
  pub driver_closes : List C

pub data Failure : Type 0 where
  closed_error context_error dial_error : Failure

pub data Created {ℓ} (C : Type ℓ) : Type ℓ where
  created : Core C → Created C
  invalid : ConfigError → Created C

module _ {ℓ} {C : Type ℓ} where
  -- The engine before any connection exists, and its clock seeded with the time.
  abbrev pub start_core : Config → ℕ → Core C
  start_core config now = record {
    config = config;
    permits = new_permits (to_nat config.max_conns) (to_nat config.max_conns_limit);
    shards = replicate shard_count empty_shard;
    max_conns = config.max_conns;
    clock = now;
    total_conns = pos 0;
    checked_out = pos 0;
    waiting = pos 0;
    acquire_count = 0;
    acquire_wait_nanos = 0;
    empty_acquire_count = 0;
    canceled_acquire_count = 0;
    discarded = record { expired = 0; unhealthy = 0; evicted = 0; closed = 0 };
    closed = false;
    driver_opens = 0;
    driver_closes = [];
  }

  -- `New`, for a driver that is not nil; `procs` is GOMAXPROCS.
  unfoldable pub new : ℕ → ℕ → Config → Created C
  new procs now config = elim (validate config) [
    | some e ↦ invalid e
    | none ↦ created (start_core (with_defaults procs config) now)
  ]

  -- `coarseClock.update`.
  unfoldable pub clock_update : ℕ → Core C → Core C
  clock_update now c = record c { clock = now }

  unfoldable pub release_slot : Core C → Core C
  release_slot c = record c { total_conns = decr c.total_conns }

  unfoldable pub reserve_slot : Core C → Core C × Bool
  reserve_slot c =
      if lt_int c.total_conns c.max_conns
      then (record c { total_conns = incr c.total_conns }, true)
      else (c, false)

  unfoldable pub destroy : IdleConn C → Discard → Core C → Core C
  unfolding release_slot
  destroy ic why c = release_slot (record c {
    discarded = count_discard why c.discarded;
    driver_closes = ic.conn ∷ c.driver_closes;
  })

  unfoldable pub why_unusable : Driver C → IdleConn C → ℕ → Core C → Discard
  why_unusable d ic now c =
      if d.dead ic.conn
      then unhealthy_reason
      else if expired ic now c.config.max_conn_lifetime c.config.max_conn_idle_time
      then expired_reason
      else unhealthy_reason

  -- The test under which `popIdle` hands a connection out.
  unfoldable pub usable : Driver C → IdleConn C → ℕ → Core C → Bool
  usable d ic now c =
      not (d.dead ic.conn)
      && not (expired ic now c.config.max_conn_lifetime c.config.max_conn_idle_time)

  abbrev pub idle_total : List (Shard C) → ℕ
  idle_total [] = 0
  idle_total (s ∷ ss) = length s.conns + idle_total ss

  unfoldable pub shard_at : ℕ → Core C → Shard C
  shard_at idx c = get_or c.shards idx empty_shard

  -- The inner loop of `popIdle`, on one shard. Each round takes a connection off the shard, so one
  -- more round than it holds is enough fuel.
  unfoldable pub pop_shard : Driver C → ℕ → ℕ → ℕ → Core C → Core C × Option (IdleConn C)
  unfolding shard_at
  pop_shard d now idx zero c = (c, none)
  pop_shard d now idx (suc fuel) c =
      let (s, popped) = Shard.pop (shard_at idx c) in
      let c' = record c { shards = set c.shards idx s } in
      elim popped [
        | none ↦ (c, none)
        | some ic ↦ elim (usable d ic now c) [
          | true ↦ (c', some ic)
          | false ↦ pop_shard d now idx fuel (destroy ic (why_unusable d ic now c) c')
        ]
      ]

  -- The outer loop of `popIdle`, with `left` shards to go, from a random shard on.
  unfoldable pub pop_from : Driver C → ℕ → ℕ → ℕ → Core C → Core C × Option (IdleConn C × ℕ)
  pop_from d now start zero c = (c, none)
  pop_from d now start (suc left) c =
      let idx = (start + (shard_count - suc left)) % shard_count in
      let (c', popped) = pop_shard d now idx (suc (length (shard_at idx c).conns)) c in
      elim popped [ some ic ↦ (c', some (ic, idx)) | none ↦ pop_from d now start left c' ]

  unfoldable pub pop_idle : Driver C → ℕ → Core C → Core C × Option (IdleConn C × ℕ)
  pop_idle d start c = pop_from d c.clock start shard_count c
