-- ===== src/Pooling/Core/Accounts/Start.antt =====
-- pkg/pooling/core.go: New.
use gpool.Base.{
  ℕ, zero, suc, ◌≡◌, refl, inl, inr, none, some, arith, Option-cases, replicate, to_nat,
}
use gpool.Pooling.Permit.Refinement.{new_permits-Represents}
use gpool.Pooling.Shard.{empty_shard, shard_count}
use gpool.Pooling.Config.{Config, validate, with_defaults}
use gpool.Pooling.Config.Laws.{IsEffective, validate-IsEffective}
use gpool.Pooling.Core.{Created, created, invalid, start_core, new, idle_total}
use gpool.Pooling.Core.Accounts.{AllMirrored}
use gpool.Pooling.Core.Accounts.Settled.{Settled}

module _ {ℓ} (C : Type ℓ) where
  fresh_shards :
      (k : ℕ)
      → AllMirrored {C = C} (replicate k empty_shard)
        × (idle_total {C = C} (replicate k empty_shard) ≡ 0)
  unfolding empty_shard
  fresh_shards zero = (tt, refl)
  fresh_shards (suc k) = ((refl, (fresh_shards k).0), omega (arith, (fresh_shards k).1))

  start-Settled :
      (config : Config) (now : ℕ) → IsEffective config → Settled (start_core {C = C} config now) 0
  start-Settled config now e =
      let (r, l, cap) =
        new_permits-Represents (to_nat config.max_conns) (to_nat config.max_conns_limit) in
      let (m, z) = fresh_shards shard_count in
      record {
        accounts = record {
          sixteen = refl;
          mirrored = m;
          total = ground (arith, z);
          lent_out = refl;
          ceiling = ground (arith, l, e);
          hard_limit = ground (arith, cap, e);
          floor = e.floor;
          permits_out = r;
          closes = refl;
          opens = ground (arith, z);
        };
        capped = inl z;
        within_limit = omega arith;
      }

  -- What New returns.
  abbrev pub IsStarted : Config → Created C → Type 0
  IsStarted config (created c) = Settled c 0 × (validate config ≡ none)
  IsStarted config (invalid e) = validate config ≡ some e

  -- New succeeds exactly on the configurations that Validate accepts, with the books of an engine
  -- that owns nothing, and otherwise returns Validate's error.
  pub new-IsStarted :
      (procs now : ℕ) (config : Config) → IsStarted config (new {C = C} procs now config)
  unfolding new
  new-IsStarted procs now config = elim (Option-cases (validate config)) [
    | inl e ↦
        rw (e, new)
          (start-Settled (with_defaults procs config) now (validate-IsEffective procs config e), e)
    | inr (x, e) ↦ rw (e, new) e
  ]
