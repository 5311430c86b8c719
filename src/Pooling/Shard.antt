-- ===== src/Pooling/Shard.antt =====
-- pkg/pooling/shard.go: one lock-striped bucket of idle connections. Each function is a whole
-- method, which runs under the shard's mutex; the test of `count` before it reads the value that
-- the last holder of the mutex stored.
pub mod Laws
use gpool.Base.{
  ℕ, suc, ◌≡◌, Bool, true, false, List, [], ◌∷◌, ◌++◌, Option, none, some, ◌==◌, if◌then◌else◌,
  length, split_last,
}
use gpool.Pooling.Conn.{IdleConn}

abbrev pub shard_count : ℕ
shard_count = 16

-- The slice's order: the last element is the one released last.
pub record Shard {ℓ} (C : Type ℓ) : Type ℓ where
  pub conns : List (IdleConn C)
  pub count : ℕ

module _ {ℓ} {C : Type ℓ} where
  unfoldable pub empty_shard : Shard C
  empty_shard = record { conns = []; count = 0 }

  -- A slice as the new content, its length mirrored.
  abbrev pub with_conns : List (IdleConn C) → Shard C
  with_conns xs = record { conns = xs; count = length xs }

  pop_last : Shard C → Option (List (IdleConn C) × IdleConn C) → Shard C × Option (IdleConn C)
  pop_last s none = (s, none)
  pop_last s (some (rest, ic)) = (with_conns rest, some ic)

  unfoldable pub pop : Shard C → Shard C × Option (IdleConn C)
  unfolding pop_last
  pop s = if s.count == 0 then (s, none) else pop_last s (split_last s.conns)

  unfoldable pub push : Shard C → IdleConn C → Shard C
  push s ic = with_conns (s.conns ++ ic ∷ [])

  -- The loop of `takeIf`, with what it has kept and taken so far.
  partition :
      (IdleConn C → Bool)
      → List (IdleConn C)
      → List (IdleConn C)
      → List (IdleConn C)
      → List (IdleConn C) × List (IdleConn C)
  partition match kept taken [] = (kept, taken)
  partition match kept taken (ic ∷ ics) =
      partition match (if match ic then kept else kept ++ ic ∷ [])
        (if match ic then taken ++ ic ∷ [] else taken) ics

  unfoldable pub take_if : (IdleConn C → Bool) → Shard C → Shard C × List (IdleConn C)
  unfolding partition
  take_if match s =
      if s.count == 0
      then (s, [])
      else (let (kept, taken) = partition match [] [] s.conns in (with_conns kept, taken))

  unfoldable pub drain : Shard C → Shard C × List (IdleConn C)
  drain s = (with_conns [], s.conns)
