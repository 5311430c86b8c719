-- ===== src/Pooling/Tests/Data.antt =====
-- An engine over numbered connections, with a ceiling of two and room for three.
use gpool.Base.{ℕ, ◌≡◌, refl, true, false, List, [], ◌∷◌, some, ◌==◌, if◌then◌else◌, pos}
use gpool.Pooling.Conn.{Driver, IdleConn}
use gpool.Pooling.Config.{Config, with_defaults, validate}
use gpool.Pooling.Core.{Core, start_core, new, created, pop_idle, pop_from, pop_shard, reserve_slot}
use gpool.Pooling.Core.Accounts.Settled.{Settled}
use gpool.Pooling.Shard
use gpool.Pooling.Permit
use gpool.Pooling.Core.Acquire.{Attempt, acquire, permitted, take, connect, finish}
use gpool.Pooling.Core.Release.{handle_release}
use gpool.Pooling.History.{
  Call, World, acquires, gives_back, run, step, outcome, give_back, opened, opened-IsSound,
  run-IsSound, IsSound,
}

abbrev pub config : Config
config = record {
  max_conns = pos 2;
  max_conns_limit = pos 3;
  min_conns = pos 1;
  max_conn_idle_time = pos 50;
  max_conn_lifetime = pos 100;
  health_check_period = pos 0;
  cleanup_timeout = pos 0;
  connect_timeout = pos 0;
}

-- Connection 7 is broken, and connection 5 is never ready.
abbrev pub driver : Driver ℕ
driver = record {
  dead = λ c. c == 7;
  needs_cleanup = λ c. c == 4;
  recyclable = λ c. (c, true);
  ready = some (λ c. if c == 5 then false else true);
}

abbrev pub dials : ℕ → Attempt ℕ
dials conn = record { start = 3; home = 9; now = 10; dialled = some conn; ended = false }

abbrev pub fresh : Core ℕ
fresh = start_core (with_defaults 4 config) 5

pub opens_fresh : new 4 5 config ≡ created fresh
unfolding new validate
opens_fresh = refl

-- Connections 1 and 2 are dialled, and 1 comes back: one is out and one idle.
abbrev pub calls : List (Call ℕ)
calls = acquires driver (dials 1) [] ∷ acquires driver (dials 2) [] ∷ gives_back driver 1 ∷ []

abbrev pub busy : World ℕ
busy = run (opened fresh) calls

pub busy-IsSound : IsSound busy
busy-IsSound = run-IsSound (opened fresh) calls (opened-IsSound 4 5 config fresh opens_fresh)

-- One handle is out.
pub held_one : Settled busy.core 1
unfolding run step outcome give_back acquire permitted take pop_idle pop_from pop_shard Shard.pop
    reserve_slot connect finish handle_release Permit.try_acquire Permit.new_permits with_defaults
    Shard.empty_shard
held_one = busy-IsSound.settled

abbrev pub returned : IdleConn ℕ
returned = record { conn = 2; created_at = 10; idle_since = 0 }
