-- ===== src/Pooling/Conn/Laws.antt =====
-- pkg/pooling/idle_conn.go: when a connection has outlived its bounds.
use gpool.Base.{ℕ, ◌+◌, ◌≤◌, ◌<◌, ◌≡◌, ◌↔◌, ◌⊎◌, true, arith, ℤ, pos, negsuc}
use gpool.Pooling.Conn.{IdleConn, expired}

-- A bound that is set, and that the time since `since` has reached.
abbrev pub Outlived : ℤ → ℕ → ℕ → Type 0
Outlived (pos bound) since now = (0 < bound) × (since + bound ≤ now)
Outlived (negsuc n) since now = ⊥

module _ {ℓ} {C : Type ℓ} where
  -- A connection is expired exactly when its whole life has reached MaxConnLifetime or, once it has
  -- been idle, its idle time MaxConnIdleTime; a bound that is not positive disables its check.
  pub expired-Outlived :
      (ic : IdleConn C) (now : ℕ) (lifetime idle : ℤ)
      → (expired ic now lifetime idle ≡ true) ↔ (
          Outlived lifetime ic.created_at now
          ⊎ ((0 < ic.idle_since) × Outlived idle ic.idle_since now))
  unfolding expired
  expired-Outlived ic now (pos a) (pos b) = (λ h. ground arith, λ h. ground arith)
  expired-Outlived ic now (pos a) (negsuc b) = (λ h. ground arith, λ h. ground arith)
  expired-Outlived ic now (negsuc a) (pos b) = (λ h. ground arith, λ h. ground arith)
  expired-Outlived ic now (negsuc a) (negsuc b) = (λ h. ground arith, λ h. ground arith)
