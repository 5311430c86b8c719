-- ===== src/Pooling/Conn.antt =====
-- pkg/pooling/idle_conn.go, driver.go and discard.go: a pooled connection, what the engine needs of
-- a vendor, and why a connection is thrown away.
--
-- A time is a number of nanoseconds since Go's zero time; `Sub` saturates at the range of an int64,
-- which no bound exceeds, so its comparisons are those of the exact difference.
pub mod Laws
use gpool.Base.{
  ℕ, ◌+◌, ◌≡◌, Bool, true, false, not, ◌&&◌, Option, none, some, ◌==◌, if◌then◌else◌, ℤ, pos, sub_ℕ,
  lt_int, le_int,
}

pub record IdleConn {ℓ} (C : Type ℓ) : Type ℓ where
  pub conn : C
  pub created_at : ℕ
  pub idle_since : ℕ

module _ {ℓ} {C : Type ℓ} where
  unfoldable pub expired : IdleConn C → ℕ → ℤ → ℤ → Bool
  expired ic now max_lifetime max_idle =
      if lt_int (pos 0) max_lifetime && le_int max_lifetime (sub_ℕ now ic.created_at)
      then true
      else (if lt_int (pos 0) max_idle
            && (not (ic.idle_since == 0) && le_int max_idle (sub_ℕ now ic.idle_since))
          then true
          else false)

-- `recyclable` may change the connection that it cleans. A driver with no readiness check has no
-- `ready`. Dialling and closing act on the network: see `Core`.
pub record Driver {ℓ} (C : Type ℓ) : Type ℓ where
  pub dead : C → Bool
  pub needs_cleanup : C → Bool
  pub recyclable : C → C × Bool
  pub ready : Option (C → Bool)

pub data Discard : Type 0 where
  expired_reason unhealthy_reason evicted_reason closed_reason : Discard

-- One counter for each reason.
pub record Discards : Type 0 where
  pub expired : ℕ
  pub unhealthy : ℕ
  pub evicted : ℕ
  pub closed : ℕ

unfoldable pub count_discard : Discard → Discards → Discards
count_discard expired_reason d = record d { expired = d.expired + 1 }
count_discard unhealthy_reason d = record d { unhealthy = d.unhealthy + 1 }
count_discard evicted_reason d = record d { evicted = d.evicted + 1 }
count_discard closed_reason d = record d { closed = d.closed + 1 }

abbrev pub total_discards : Discards → ℕ
total_discards d = d.expired + d.unhealthy + d.evicted + d.closed
