-- ===== src/Proxy/Statements.antt =====
-- examples/gpoolproxy/statements.go: the prepared statements that a client has created, the least
-- recently used of which is discarded at the limit. A name with no bytes is the unnamed statement.
--
-- The map's iteration order, which Go leaves open, is that of the list.
pub mod Bounds
pub mod Recency
pub mod View
use gpool.Base.{
  ℕ, ◌+◌, ◌%◌, ◌^◌, ◌≡◌, Bool, true, false, not, ◌&&◌, List, [], ◌∷◌, Option, none, some, ltb, ◌==◌,
  if◌then◌else◌, length, ℤ, pos, lt_int, le_int, Bytes, same_bytes, get, put, del,
}

pub record Statement : Type 0 where
  pub message : Bytes
  pub used : ℕ

abbrev pub Held : Type 0
Held = List (Bytes × Statement)

pub record Statements : Type 0 where
  pub by_name : Held
  pub limit : ℤ
  pub uses : ℕ

abbrev pub new_statements : ℤ → Statements
new_statements limit = record { by_name = []; limit = limit; uses = 0 }

abbrev pub next_use : Statements → ℕ
next_use s = (s.uses + 1) % 2 ^ 64

-- The loop of `evict`, with the oldest entry so far.
unfoldable pub oldest : Held → Bytes × ℕ → Bytes × ℕ
oldest [] best = best
oldest ((name, held) ∷ m) (best, least) =
    oldest m (if ltb held.used least then (name, held.used) else (best, least))

unfoldable pub evict : Held → Held × Option Bytes
evict [] = ([], none)
evict ((name, held) ∷ m) =
    let (best, least) = oldest m (name, held.used) in
    (del same_bytes ((name, held) ∷ m) best, some best)

-- `remember` for a name that is not held: what was discarded, if anything.
unfoldable pub make_room : Statements → Held × Option Bytes
make_room s =
    if lt_int (pos 0) s.limit && le_int s.limit (pos (length s.by_name))
    then evict s.by_name
    else (s.by_name, none)

unfoldable pub remember : Bytes → Bytes → Statements → Statements × Option Bytes
unfolding make_room
remember [] message s = (s, none)
remember (b ∷ name) message s =
    let entry : Statement = record { message = message; used = next_use s } in
    let (room, evicted) = make_room s in
    elim (get same_bytes s.by_name (b ∷ name)) [
      | some held ↦ (
        record s { by_name = put same_bytes s.by_name (b ∷ name) entry; uses = next_use s },
        none,
      )
      | none ↦
          (record s { by_name = put same_bytes room (b ∷ name) entry; uses = next_use s }, evicted)
    ]

unfoldable pub forget : Bytes → Statements → Statements
forget name s = record s { by_name = del same_bytes s.by_name name }

unfoldable pub lookup : Bytes → Statements → Statements × Option Bytes
lookup name s = elim (get same_bytes s.by_name name) [
  | none ↦ (s, none)
  | some held ↦ (
    record s {
      by_name = put same_bytes s.by_name name (record held { used = next_use s });
      uses = next_use s;
    },
    some held.message,
  )
]
