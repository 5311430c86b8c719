-- ===== src/Pooling/Config/Laws.antt =====
-- pkg/pooling/config.go: what a validated configuration with its defaults guarantees.
use gpool.Base.{
  ℕ, suc, ◌≤◌, ◌<◌, ◌≡◌, true, false, none, arith, max, ℤ, pos, lt_int, to_nat, is_zero,
}
use gpool.Pooling.Config.{Config, with_defaults, validate, min_default_max_conns, or_default}

-- What the engine needs of its configuration; `*_set` is a duration that is not zero.
pub record IsEffective (c : Config) : Type 0 where
  pub some_conns : 1 ≤ to_nat c.max_conns
  pub conns : c.max_conns ≡ pos (to_nat c.max_conns)
  pub limit : c.max_conns_limit ≡ pos (to_nat c.max_conns_limit)
  pub room : to_nat c.max_conns ≤ to_nat c.max_conns_limit
  pub floor : lt_int c.min_conns (pos 0) ≡ false
  pub idle_set : is_zero c.max_conn_idle_time ≡ false
  pub lifetime_set : is_zero c.max_conn_lifetime ≡ false
  pub period_set : is_zero c.health_check_period ≡ false
  pub cleanup_set : is_zero c.cleanup_timeout ≡ false
  pub connect_set : is_zero c.connect_timeout ≡ false

or_default_set : (x : ℤ) (n : ℕ) → is_zero (or_default x (pos (suc n))) ≡ false
or_default_set x n = ground arith

-- A configuration that Validate accepts, completed by WithDefaults, is one that the engine can run
-- on: at least one connection, a hard ceiling no lower than the ceiling, and no bound at zero.
pub validate-IsEffective :
    (procs : ℕ) (c : Config) → validate c ≡ none → IsEffective (with_defaults procs c)
unfolding validate with_defaults
validate-IsEffective procs c h = record {
  some_conns = ground (arith, h);
  conns = ground (arith, h);
  limit = ground (arith, h);
  room = ground (arith, h);
  floor = ground (arith, h);
  idle_set = ground arith;
  lifetime_set = ground arith;
  period_set = ground arith;
  cleanup_set = ground arith;
  connect_set = ground arith;
}

-- Validation runs before the default of MaxConns is known: with MaxConns left at zero any MinConns
-- passes, and one above the derived default stays above the ceiling that takes effect.
pub min_above_default :
    (procs m : ℕ) (c : Config)
    → c.max_conns ≡ pos 0
    → c.min_conns ≡ pos m
    → max min_default_max_conns procs < m
    → lt_int c.max_conns_limit (pos 0) ≡ false
    → (validate c ≡ none)
      × (lt_int (with_defaults procs c).max_conns (with_defaults procs c).min_conns ≡ true)
unfolding validate with_defaults
min_above_default procs m c h k l n = (ground arith, ground arith)
