-- ===== src/Pooling/Core/Accounts.antt =====
-- pkg/pooling/core.go: what its counters count. The invariant of the engine, and the steps that
-- every method is made of.
pub mod PopShard
pub mod Pop
pub mod Settled
pub mod Return
pub mod Sweep
pub mod Ceiling
pub mod Cull
pub mod Start
pub mod Warm
pub mod Closing
pub mod Reason
use gpool.Base.{
  ℕ, zero, suc, ◌+◌, ◌-◌, ◌≤◌, ◌<◌, ◌≡◌, refl, ap, ◌⊎◌, inl, inr, Bool, true, false, List, [], ◌∷◌,
  Option, arith, ◌==◌, if◌then◌else◌, length, get_or, set, length-set, ℤ, pos, incr, decr, lt_int,
}
use gpool.Pooling.Permit.Refinement.{Represents}
use gpool.Pooling.Conn.{
  IdleConn, Discard, expired_reason, unhealthy_reason, evicted_reason, closed_reason, count_discard,
  total_discards,
}
use gpool.Pooling.Shard.{Shard, empty_shard, shard_count}
use gpool.Pooling.Shard.Laws.{IsMirrored}
use gpool.Pooling.Core.{Core, idle_total, shard_at, destroy, reserve_slot, release_slot}

module _ {ℓ} {C : Type ℓ} where
  abbrev pub AllMirrored : List (Shard C) → Type 0
  AllMirrored [] = Unit {0}
  AllMirrored (s ∷ ss) = IsMirrored s × AllMirrored ss

  pub get_or-IsMirrored :
      (ss : List (Shard C)) (i : ℕ) → AllMirrored ss → IsMirrored (get_or ss i empty_shard)
  unfolding empty_shard
  get_or-IsMirrored [] i m = refl
  get_or-IsMirrored (s ∷ ss) zero m = m.0
  get_or-IsMirrored (s ∷ ss) (suc i) m = get_or-IsMirrored ss i m.1

  pub set-AllMirrored :
      (ss : List (Shard C)) (i : ℕ) (s : Shard C)
      → AllMirrored ss
      → IsMirrored s
      → AllMirrored (set ss i s)
  set-AllMirrored [] i s m h = tt
  set-AllMirrored (x ∷ ss) zero s m h = (h, m.1)
  set-AllMirrored (x ∷ ss) (suc i) s m h = (m.0, set-AllMirrored ss i s m.1 h)

  pub idle_total-set :
      (ss : List (Shard C)) (i : ℕ) (s : Shard C)
      → i < length ss
      → idle_total (set ss i s) + length (get_or ss i empty_shard).conns
        ≡ idle_total ss + length s.conns
  idle_total-set [] i s h = absurd (omega arith)
  idle_total-set (x ∷ ss) zero s h = omega arith
  idle_total-set (x ∷ ss) (suc i) s h = omega (arith, idle_total-set ss i s (omega arith))

  -- `out` connections are outside the shards and `reserved` slots have none yet; `lent` is what
  -- `checkedOut` counts and `held` how many permits are out.
  pub record Accounts (c : Core C) (out reserved lent held : ℕ) : Type 0 where
    pub sixteen : length c.shards ≡ shard_count
    pub mirrored : AllMirrored c.shards
    pub total : c.total_conns ≡ pos (idle_total c.shards + out + reserved)
    pub lent_out : c.checked_out ≡ pos lent
    pub ceiling : c.max_conns ≡ pos c.permits.limit
    pub hard_limit : c.config.max_conns_limit ≡ pos c.permits.capacity
    pub floor : lt_int c.config.min_conns (pos 0) ≡ false
    pub permits_out : Represents c.permits held
    pub closes : length c.driver_closes ≡ total_discards c.discarded
    pub opens : c.driver_opens ≡ length c.driver_closes + idle_total c.shards + out

  pub destroy-Accounts :
      (c : Core C) (ic : IdleConn C) (why : Discard) (out reserved lent held : ℕ)
      → Accounts c (suc out) reserved lent held
      → Accounts (destroy ic why c) out reserved lent held
  unfolding destroy count_discard
  destroy-Accounts c ic expired_reason out reserved lent held a = ground arith
  destroy-Accounts c ic unhealthy_reason out reserved lent held a = ground arith
  destroy-Accounts c ic evicted_reason out reserved lent held a = ground arith
  destroy-Accounts c ic closed_reason out reserved lent held a = ground arith

  -- Another content for one shard: `out` moves by as much as the shard's length.
  pub reshelve-Accounts :
      (c : Core C) (idx : ℕ) (s : Shard C) (out out' reserved lent held : ℕ)
      → Accounts c out reserved lent held
      → idx < shard_count
      → IsMirrored s
      → length s.conns + out' ≡ length (shard_at idx c).conns + out
      → Accounts (record c { shards = set c.shards idx s }) out' reserved lent held
  unfolding shard_at
  reshelve-Accounts c idx s out out' reserved lent held a h m e = ground (
    arith,
    idle_total-set c.shards idx s,
    set-AllMirrored c.shards idx s,
    length-set c.shards idx s,
  )

  pub release_slot-Accounts :
      (c : Core C) (out reserved lent held : ℕ)
      → Accounts c out (suc reserved) lent held
      → Accounts (release_slot c) out reserved lent held
  unfolding release_slot
  release_slot-Accounts c out reserved lent held a = ground arith

  -- What the search for an idle connection leaves alone.
  pub record Frame (c c' : Core C) : Type 0 where
    pub config : c'.config ≡ c.config
    pub permits : c'.permits ≡ c.permits
    pub max_conns : c'.max_conns ≡ c.max_conns
    pub clock : c'.clock ≡ c.clock
    pub closed : c'.closed ≡ c.closed
    pub opens : c'.driver_opens ≡ c.driver_opens
    pub closes : length c.driver_closes ≤ length c'.driver_closes

  -- A slot is reserved exactly when fewer connections exist than the ceiling.
  pub reserve_slot-Accounts :
      (c : Core C) (out reserved lent held : ℕ)
      → Accounts c out reserved lent held
      → ((idle_total c.shards + out + reserved < c.permits.limit)
          × ((reserve_slot c).1 ≡ true)
          × Accounts (reserve_slot c).0 out (suc reserved) lent held)
        ⊎ ((c.permits.limit ≤ idle_total c.shards + out + reserved)
            × ((reserve_slot c).1 ≡ false)
            × Accounts (reserve_slot c).0 out reserved lent held)
  unfolding reserve_slot
  reserve_slot-Accounts c out reserved lent held a = ground arith
