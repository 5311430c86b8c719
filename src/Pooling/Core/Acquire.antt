-- ===== src/Pooling/Core/Acquire.antt =====
-- pkg/pooling/core.go: Acquire, with take, connect and acquirePermit.
use gpool.Base.{
  ℕ, ◌+◌, ◌%◌, Bool, true, false, List, [], ◌∷◌, Option, none, some, if◌then◌else◌, incr, decr,
}
use gpool.Pooling.Permit.{Wait, try_acquire, wait, granted, cancelled, parked}
use gpool.Pooling.Permit
use gpool.Pooling.Conn.{IdleConn, Driver}
use gpool.Pooling.Shard.{shard_count}
use gpool.Pooling.Core.{
  Core, Failure, closed_error, context_error, dial_error, pop_idle, reserve_slot, release_slot,
}

-- A checked-out connection, with its guard flag.
pub record Handle {ℓ} (C : Type ℓ) : Type ℓ where
  pub idle : IdleConn C
  pub shard_idx : ℕ
  pub released : Bool

-- What the environment decides in one round of `take`: the random numbers, the time, what dialling
-- gives, and whether the caller's context has ended.
pub record Attempt {ℓ} (C : Type ℓ) : Type ℓ where
  pub start : ℕ
  pub home : ℕ
  pub now : ℕ
  pub dialled : Option C
  pub ended : Bool

pub data Taken {ℓ} (C : Type ℓ) : Type ℓ where
  got : IdleConn C → ℕ → Taken C
  failed : Failure → Taken C
  spinning : Taken C

-- `waits` is a caller parked for a permit, and `yields` one that is still in the loop of `take`.
pub data Acquired {ℓ} (C : Type ℓ) : Type ℓ where
  handle : Handle C → Acquired C
  refused : Failure → Acquired C
  waits : Acquired C
  yields : Acquired C

module _ {ℓ} {C : Type ℓ} where
  -- `connect`, after the slot was reserved: a failed dial gives the slot back.
  unfoldable pub connect : Attempt C → Core C → Core C × Taken C
  connect a c = elim a.dialled [
    | none ↦ (release_slot c, failed dial_error)
    | some conn ↦ (
      record c { driver_opens = c.driver_opens + 1 },
      got (record { conn = conn; created_at = a.now; idle_since = a.now }) (a.home % shard_count),
    )
  ]

  -- The rounds of `take`. The dial is part of its round and no other call comes in between, so a later
  -- round is reached only where the slots and the idle connections do not add up to the permits.
  unfoldable pub take : Driver C → List (Attempt C) → Core C → Core C × Taken C
  take d [] c = (c, spinning)
  take d (a ∷ rest) c =
      let (popped_core, popped) = pop_idle d a.start c in
      let (reserved_core, reserved) = reserve_slot popped_core in
      elim popped [
        | some (ic, idx) ↦ (popped_core, got ic idx)
        | none ↦ elim reserved [
          | true ↦ connect a reserved_core
          | false ↦ elim a.ended [
            | true ↦ (popped_core, failed context_error)
            | false ↦ take d rest popped_core
          ]
        ]
      ]

  unfoldable pub release_permit : Core C → Core C
  release_permit c = record c { permits = Permit.release c.permits }

  unfoldable pub finish : Core C × Taken C → Core C × Acquired C
  finish (c, got ic idx) = (
    record c { checked_out = incr c.checked_out },
    handle (record { idle = ic; shard_idx = idx; released = false }),
  )
  finish (c, failed e) = (release_permit c, refused e)
  finish (c, spinning) = (c, yields)

  -- `Acquire` once it holds a permit.
  unfoldable pub permitted : Driver C → List (Attempt C) → Core C → Core C × Acquired C
  unfolding finish
  permitted d attempts c =
      if c.closed then (release_permit c, refused closed_error) else finish (take d attempts c)

  -- `Acquire` up to its result, or to where it parks for a permit.
  unfoldable pub acquire : Driver C → List (Attempt C) → Core C → Core C × Acquired C
  acquire d attempts c =
      let (p, taken) = try_acquire c.permits in
      if c.closed
      then (c, refused closed_error)
      else if taken
      then permitted d attempts (record c { permits = p; acquire_count = c.acquire_count + 1 })
      else (record c { waiting = incr c.waiting }, waits)

  unfoldable pub resumed : Driver C → List (Attempt C) → ℕ → Core C → Wait → Core C × Acquired C
  resumed d attempts waited c (granted p) = permitted d attempts (record c {
    permits = p;
    waiting = decr c.waiting;
    acquire_wait_nanos = c.acquire_wait_nanos + waited;
    empty_acquire_count = c.empty_acquire_count + 1;
    acquire_count = c.acquire_count + 1;
  })
  resumed d attempts waited c cancelled = (
    record c { waiting = decr c.waiting; canceled_acquire_count = c.canceled_acquire_count + 1 },
    refused context_error,
  )
  resumed d attempts waited c parked = (c, waits)

  -- The rest of `Acquire` for a parked caller, `waited` nanoseconds later: the wait ends with a
  -- permit or with its context, or it goes on.
  unfoldable pub resume :
      Driver C → List (Attempt C) → Bool → Bool → ℕ → Core C → Core C × Acquired C
  unfolding resumed
  resume d attempts done choose waited c = resumed d attempts waited c (wait done choose c.permits)
