-- ===== src/Pooling/Tests/Parts.antt =====
-- The theorems on permits, shards, connections and configurations, each on a small input.
use gpool.Base.{ℕ, ◌+◌, ◌<◌, ◌≤◌, ◌≡◌, ◌⊎◌, refl, true, false, [], ◌∷◌, ◌==◌, arith, pos, max}
use gpool.Pooling.Permit.{Permits, Round, try_acquire, release, new_permits}
use gpool.Pooling.Permit.Refinement.{
  Represents, try_acquire-Represents, release-Represents, new_permits-Represents,
}
use gpool.Pooling.Conn.{IdleConn}
use gpool.Pooling.Shard.{Shard, with_conns}
use gpool.Pooling.Config.{Config, validate, with_defaults}
use gpool.Pooling.Config.Laws.{IsEffective, validate-IsEffective}
use gpool.Pooling.Tests.Data.{config}

-- A ceiling of five of which two are out, and one of one with three out.
abbrev roomy : Permits
roomy = record { tokens = 3; capacity = 8; limit = 5; debt = 0 }

abbrev owing : Permits
owing = record { tokens = 0; capacity = 8; limit = 1; debt = 2 }

try_acquire-Represents_example :
    ((2 < roomy.limit) × ((try_acquire roomy).1 ≡ true) × Represents (try_acquire roomy).0 3)
    ⊎ ((roomy.limit ≤ 2) × (try_acquire roomy ≡ (roomy, false)))
try_acquire-Represents_example = try_acquire-Represents roomy 2 (ground arith)

release-Represents_example : Represents (release owing) 2
release-Represents_example = release-Represents owing 2 (ground arith)

new_permits-Represents_example :
    Represents (new_permits 2 3) 0
    × ((new_permits 2 3).limit ≡ 2)
    × ((new_permits 2 3).capacity ≡ max 2 3)
new_permits-Represents_example = new_permits-Represents 2 3

abbrev rounds : ℕ → Round
rounds i = record { returned = 0; gives_up = i == 4 }

abbrev conn : ℕ → IdleConn ℕ
conn n = record { conn = n; created_at = n; idle_since = n + 1 }

abbrev two : Shard ℕ
two = with_conns (conn 1 ∷ conn 2 ∷ [])

validate-IsEffective_example : IsEffective (with_defaults 4 config)
validate-IsEffective_example = validate-IsEffective 4 config (unfold validate in refl)

-- MinConns is 9, MaxConns is left at zero, on four processors.
abbrev lopsided : Config
lopsided = record config { max_conns = pos 0; min_conns = pos 9 }
