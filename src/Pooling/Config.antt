-- ===== src/Pooling/Config.antt =====
-- pkg/pooling/config.go: defaults and validation of the engine's configuration. An int32 and a
-- time.Duration (in nanoseconds) may be negative.
pub mod Laws
use gpool.Base.{
  ℕ, ◌+◌, ◌*◌, ◌≡◌, Bool, true, false, ◌&&◌, ◌||◌, Option, none, some, if◌then◌else◌, max, ℤ, pos,
  lt_int, is_zero,
}

pub record Config : Type 0 where
  pub max_conns : ℤ
  pub max_conns_limit : ℤ
  pub min_conns : ℤ
  pub max_conn_idle_time : ℤ
  pub max_conn_lifetime : ℤ
  pub health_check_period : ℤ
  pub cleanup_timeout : ℤ
  pub connect_timeout : ℤ

pub data ConfigError : Type 0 where
  negative_max_conns negative_min_conns min_above_max negative_limit limit_below_max : ConfigError

abbrev seconds : ℕ → ℤ
seconds n = pos (n * 1_000_000_000)

abbrev pub min_default_max_conns : ℕ
min_default_max_conns = 4

-- The default of a field that is zero.
abbrev pub or_default : ℤ → ℤ → ℤ
or_default x d = if is_zero x then d else x

-- `procs` is runtime.GOMAXPROCS(0).
unfoldable pub with_defaults : ℕ → Config → Config
with_defaults procs c =
    let conns = or_default c.max_conns (pos (max min_default_max_conns procs)) in
    record {
      max_conns = conns;
      max_conns_limit =
          if is_zero c.max_conns_limit || lt_int c.max_conns_limit conns
          then conns
          else c.max_conns_limit;
      min_conns = c.min_conns;
      max_conn_idle_time = or_default c.max_conn_idle_time (seconds 1800);
      max_conn_lifetime = or_default c.max_conn_lifetime (seconds 3600);
      health_check_period = or_default c.health_check_period (seconds 60);
      cleanup_timeout = or_default c.cleanup_timeout (seconds 5);
      connect_timeout = or_default c.connect_timeout (seconds 10);
    }

unfoldable pub validate : Config → Option ConfigError
validate c =
    if lt_int c.max_conns (pos 0)
    then some negative_max_conns
    else if lt_int c.min_conns (pos 0)
    then some negative_min_conns
    else if lt_int (pos 0) c.max_conns && lt_int c.max_conns c.min_conns
    then some min_above_max
    else if lt_int c.max_conns_limit (pos 0)
    then some negative_limit
    else if lt_int (pos 0) c.max_conns_limit
        && (lt_int (pos 0) c.max_conns && lt_int c.max_conns_limit c.max_conns)
    then some limit_below_max
    else none
