-- ===== src/Proxy/Tests.antt =====
-- The theorems on prepared statements, each on a small input.
mod Authentication
mod Relays
mod Sessions
use gpool.Base.{
  ℕ, ◌≡◌, ◌⊎◌, inr, refl, [], ◌∷◌, ◌++◌, none, some, arith, length, pos, Bytes, same_bytes, del,
}
use gpool.Proxy.Statements.{Statements, Statement, remember, lookup, evict, oldest}
use gpool.Proxy.Statements.Bounds.{Bounded, remember-Bounded, lookup-remember}
use gpool.Proxy.Statements.Recency.{Has, AllSince, evict-Since}
use gpool.Proxy.Wire.{msg_bind, msg_close, statement_name_of, close_statement}
use gpool.Proxy.Wire.Names.{read_uint32, statement_name_of-bind, close_statement-reads}

abbrev held : ℕ → ℕ → Bytes × Statement
held name used = (name ∷ [], record { message = 81 ∷ []; used = used })

-- Two statements are held, which is the limit.
abbrev full : Statements
full = record { by_name = held 97 5 ∷ held 98 3 ∷ []; limit = pos 2; uses = 5 }

remember-Bounded_example : Bounded (remember (99 ∷ []) (80 ∷ []) full).0
remember-Bounded_example = remember-Bounded (99 ∷ []) (80 ∷ []) full (inr refl)

-- At the limit the statement used least recently goes.
evicts_b : (remember (99 ∷ []) (80 ∷ []) full).1 ≡ some (98 ∷ [])
unfolding remember evict oldest
evicts_b = refl

close_statement-reads_example :
    (body : Bytes) × (rest : Bytes) × (close_statement (97 ∷ []) ≡ msg_close ∷ rest)
    × (read_uint32 rest ≡ some (length rest, body))
    × (statement_name_of msg_close body ≡ some (97 ∷ []))
close_statement-reads_example = close_statement-reads (97 ∷ []) (omega arith, tt) (omega arith)
