-- ===== src/Pooling/Core/Accounts/Reason.antt =====
-- pkg/pooling/core.go: the reason that release counts for a connection that it throws away.
use gpool.Base.{ℕ, ◌<◌, ◌≡◌, inr, false}
use gpool.Pooling.Conn.{IdleConn, Driver, count_discard, expired_reason}
use gpool.Pooling.Conn.Laws.{Outlived, expired-Outlived}
use gpool.Pooling.Core.{Core, destroy, why_unusable}
use gpool.Pooling.Core.Acquire.{release_permit}
use gpool.Pooling.Core.Release.{is_ready, recyclable, release}

module _ {ℓ} {C : Type ℓ} where
  -- A live connection that never became ready is thrown away for that, but if it was checked out for
  -- as long as MaxConnIdleTime it is counted as expired: nothing touches the time since which it was
  -- last idle while it is in use, and the test for the reason includes the idle bound.
  pub release_unready-expired :
      (d : Driver C) (ic : IdleConn C) (idx : ℕ) (c : Core C)
      → c.closed ≡ false
      → d.dead ic.conn ≡ false
      → is_ready d.ready ic.conn ≡ false
      → 0 < ic.idle_since
      → Outlived c.config.max_conn_idle_time ic.idle_since c.clock
      → (release d ic idx c).discarded ≡ count_discard expired_reason c.discarded
  unfolding release recyclable why_unusable destroy release_permit
  release_unready-expired d ic idx c live alive unready used over =
      let late =
        (expired-Outlived ic c.clock c.config.max_conn_lifetime c.config.max_conn_idle_time).1
          (inr (used, over)) in
      simp (live, alive, unready, late)
