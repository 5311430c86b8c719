-- ===== src/Pooling/Stats.antt =====
-- pkg/pooling/stat.go and Core.Stat of core.go.
use gpool.Base.{ℕ, ◌+◌, ◌≡◌, List, [], ◌∷◌, arith, if◌then◌else◌, ℤ, pos, lt_int}
use gpool.Pooling.Shard.{Shard}
use gpool.Pooling.Core.{Core, idle_total}
use gpool.Pooling.Core.Accounts.{AllMirrored}
use gpool.Pooling.Core.Accounts.Settled.{Settled}

pub record Stat : Type 0 where
  pub total : ℤ
  pub idle : ℤ
  pub active : ℤ
  pub waiting : ℤ
  pub max_conns : ℤ
  pub acquires : ℕ
  pub wait_nanos : ℕ
  pub empties : ℕ
  pub canceled : ℕ
  pub expired : ℕ
  pub unhealthy : ℕ
  pub evicted : ℕ

abbrev min_int : ℤ → ℤ → ℤ
min_int a b = if lt_int b a then b else a

module _ {ℓ} {C : Type ℓ} where
  -- The loop that adds the shards' counters up.
  sum_counts : List (Shard C) → ℕ → ℕ
  sum_counts [] n = n
  sum_counts (s ∷ ss) n = sum_counts ss (n + s.count)

  pub stat : Core C → Stat
  unfolding sum_counts
  stat c = record {
    total = c.total_conns;
    idle = min_int (pos (sum_counts c.shards 0)) c.total_conns;
    active = c.checked_out;
    waiting = c.waiting;
    max_conns = c.max_conns;
    acquires = c.acquire_count;
    wait_nanos = c.acquire_wait_nanos;
    empties = c.empty_acquire_count;
    canceled = c.canceled_acquire_count;
    expired = c.discarded.expired;
    unhealthy = c.discarded.unhealthy;
    evicted = c.discarded.evicted;
  }

  sum_counts-idle_total :
      (ss : List (Shard C)) (n : ℕ) → AllMirrored ss → sum_counts ss n ≡ n + idle_total ss
  unfolding sum_counts
  sum_counts-idle_total [] n m = omega arith
  sum_counts-idle_total (s ∷ ss) n m = omega (arith, sum_counts-idle_total ss (n + s.count) m.1)

  -- On an engine at rest the numbers add up without the clamp: what is idle and what is checked out
  -- is all there is, and the discard counters with the shutdown's explain every connection closed.
  pub stat-Settled :
      (c : Core C) (n : ℕ)
      → Settled c n
      → ((stat c).idle ≡ pos (idle_total c.shards))
        × ((stat c).active ≡ pos n)
        × ((stat c).total ≡ pos (idle_total c.shards + n))
        × ((stat c).max_conns ≡ pos c.permits.limit)
        × (c.driver_opens
            ≡ (stat c).expired
              + (stat c).unhealthy
              + (stat c).evicted
              + c.discarded.closed
              + idle_total c.shards
              + n)
  unfolding stat
  stat-Settled c n s = ground (arith, sum_counts-idle_total c.shards 0, s)
