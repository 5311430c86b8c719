-- ===== src/Pooling/Tests/Engine.antt =====
-- The engine's theorems on the engine of Tests/Data.
use gpool.Base.{◌+◌, ◌≤◌, ◌≡◌, ◌⊎◌, true, false, none, some, pos, length, [], ◌∷◌, arith, lt_int}
use gpool.Pooling.Shard.Laws.{select}
use gpool.Pooling.Core.{idle_total, pop_idle, usable, shard_at}
use gpool.Pooling.Core.Acquire.{resume, waits}
use gpool.Pooling.Core.Release.{release}
use gpool.Pooling.Core.Resize.{set_max_conns, closed_error, below_min, above_limit}
use gpool.Pooling.Core.Maintain.{reap_expired, close_end}
use gpool.Pooling.Core.Accounts.Pop.{Popped, pop_idle-Popped}
use gpool.Pooling.Core.Accounts.Settled.{AllowedAfter, Settled, Acquires, resume-Acquires}
use gpool.Pooling.Core.Accounts.Return.{release-Settled}
use gpool.Pooling.Core.Accounts.Ceiling.{set_max_conns-Settled}
use gpool.Pooling.Core.Accounts.Cull.{reap_expired-select}
use gpool.Pooling.History.{run_from_new}
use gpool.Pooling.Tests.Data.{
  config, driver, dials, fresh, opens_fresh, calls, busy, held_one, returned,
}

run_from_new_example :
    let shut = close_end (λ i. false) busy.core in
    ((busy.core.total_conns ≡ pos (idle_total busy.core.shards + length busy.held))
      × (busy.core.checked_out ≡ pos (length busy.held))
      × (idle_total busy.core.shards + length busy.held ≤ busy.core.permits.capacity)
      × ((idle_total busy.core.shards ≡ 0)
          ⊎ (idle_total busy.core.shards + length busy.held ≤ busy.core.permits.limit))
      × (busy.core.driver_opens
          ≡ length busy.core.driver_closes + idle_total busy.core.shards + length busy.held))
    × ((idle_total shut.shards ≡ 0)
        × (shut.total_conns ≡ pos (length busy.held))
        × (shut.checked_out ≡ pos (length busy.held))
        × (length shut.driver_closes + length busy.held ≡ busy.core.driver_opens))
run_from_new_example = run_from_new 4 5 config fresh calls (λ i. false) opens_fresh

resume-Acquires_example :
    Acquires
      (AllowedAfter true)
      busy.core.permits.limit
      1
      (resume driver (dials 3 ∷ []) true false 12 busy.core)
    × ((resume driver (dials 3 ∷ []) true false 12 busy.core).1 ≡ waits → true ≡ false)
resume-Acquires_example = resume-Acquires driver (dials 3) [] true false 12 busy.core 1 held_one

release-Settled_example : Settled (release driver returned 4 busy.core) 0
release-Settled_example = release-Settled driver returned 4 busy.core 0 held_one (omega arith)

set_max_conns-Settled_example :
    let r = set_max_conns driver (λ i. i) (pos 1) busy.core in
    ((r.1 ≡ none)
      × Settled r.0 1
      × (r.0.max_conns ≡ pos 1)
      × (busy.core.closed ≡ false)
      × (lt_int (pos 1) busy.core.config.min_conns ≡ false)
      × (lt_int busy.core.config.max_conns_limit (pos 1) ≡ false))
    ⊎ ((r ≡ (busy.core, some closed_error)) × (busy.core.closed ≡ true))
    ⊎ ((r ≡ (busy.core, some below_min)) × (lt_int (pos 1) busy.core.config.min_conns ≡ true))
    ⊎ ((r ≡ (busy.core, some above_limit))
        × (lt_int busy.core.config.max_conns_limit (pos 1) ≡ true))
set_max_conns-Settled_example = set_max_conns-Settled driver (λ i. i) (pos 1) busy.core 1 held_one

reap_expired-select_example :
    Settled (reap_expired driver busy.core) 1
    × ((shard_at 9 (reap_expired driver busy.core)).conns
        ≡ select (λ ic. usable driver ic busy.core.clock busy.core) (shard_at 9 busy.core).conns)
reap_expired-select_example = reap_expired-select driver busy.core 1 9 held_one (omega arith)

pop_idle-Popped_example :
    Popped driver busy.core.clock busy.core (pop_idle driver 3 busy.core) 1 0 1 1
pop_idle-Popped_example = pop_idle-Popped driver 3 busy.core 1 0 1 1 held_one.accounts
