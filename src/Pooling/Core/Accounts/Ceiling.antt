-- ===== src/Pooling/Core/Accounts/Ceiling.antt =====
-- pkg/pooling/core.go: SetMaxConns moves the ceiling, and idle connections above it are closed.
use gpool.Base.{
  ℕ, zero, suc, ◌+◌, ◌≤◌, ◌<◌, ◌≡◌, refl, sym, subst, ◌⊎◌, inl, inr, true, false, Option, none,
  some, arith, if_both, Bool-cases, ℤ, pos, negsuc, lt_int,
}
use gpool.Pooling.Permit.{Permits, clamp}
use gpool.Pooling.Permit
use gpool.Pooling.Permit.Refinement.{resize-Represents}
use gpool.Pooling.Conn.{Driver, IdleConn, evicted_reason}
use gpool.Pooling.Core.{Core, idle_total, destroy, pop_idle}
use gpool.Pooling.Core.Resize.{
  ResizeError, closed_error, below_min, above_limit, trim_idle, set_max_conns,
}
use gpool.Pooling.Core.Accounts.{Accounts, Frame, destroy-Accounts}
use gpool.Pooling.Core.Accounts.PopShard.{Frame-refl, Frame-trans}
use gpool.Pooling.Core.Accounts.Pop.{Popped, pop_idle-Popped}
use gpool.Pooling.Core.Accounts.Settled.{Settled}

not_negative : (m k : ℤ) → lt_int m (pos 0) ≡ false → lt_int k m ≡ false → (j : ℕ) × (k ≡ pos j)
not_negative m (pos j) h l = (j, refl)
not_negative (pos i) (negsuc j) h l = cc
not_negative (negsuc i) (negsuc j) h l = cc

module _ {ℓ} {C : Type ℓ} where
  -- The trimmed engine: within the new ceiling, or with nothing idle left to close.
  record Trimmed (c c' : Core C) (k n : ℕ) : Type 0 where
    frame : Frame c c'
    accounts : Accounts c' n 0 n n
    within : (idle_total c'.shards ≡ 0) ⊎ (idle_total c'.shards + n ≤ k)

  closes_one :
      (c c' : Core C) (ic : IdleConn C) (k n : ℕ) {c'' : Core C}
      → Frame c c'
      → Accounts c' (suc n) 0 n n
      → Trimmed (destroy ic evicted_reason c') c'' k n
      → Trimmed c c'' k n
  unfolding destroy
  closes_one c c' ic k n {c''} f b t = record {
    frame =
        Frame-trans c c' c'' f
          (Frame-trans c' (destroy ic evicted_reason c') c'' (ground arith) t.frame);
    accounts = t.accounts;
    within = t.within;
  }

  idle_falls :
      (c c' : Core C) (ic : IdleConn C) (fuel n : ℕ)
      → idle_total c.shards < suc fuel
      → Accounts c n 0 n n
      → Frame c c'
      → Accounts c' (suc n) 0 n n
      → idle_total (destroy ic evicted_reason c').shards < fuel
  unfolding destroy
  idle_falls c c' ic fuel n h a f b = omega (arith, a.opens, b.opens, f.opens, f.closes)

  -- Enough fuel: one round more than there are idle connections.
  trim_idle-Trimmed :
      (d : Driver C) (starts : ℕ → ℕ) (k fuel : ℕ) (c : Core C) (n : ℕ)
      → idle_total c.shards < fuel
      → Accounts c n 0 n n
      → Trimmed c (trim_idle d starts (pos k) fuel c) k n
  unfolding trim_idle
  trim_idle-Trimmed d starts k zero c n h a = absurd (omega arith)
  trim_idle-Trimmed d starts k (suc fuel) c n h a =
      elim (Bool-cases (lt_int (pos k) c.total_conns)) [
        | inr e ↦
            rw (e, trim_idle)
              (record { frame = Frame-refl c; accounts = a; within = inr (ground (arith, e, a)) })
        | inl e ↦
            rw (e, trim_idle)
              (elim p.outcome [
                | inl (f, empty, b) ↦
                    rw (f, trim_idle) (record { frame = p.frame; accounts = b; within = inl empty })
                | inr (ic, idx, f, i, u, _, b) ↦
                    rw (f, trim_idle)
                      (closes_one c c' ic k n p.frame b (
                        trim_idle-Trimmed d starts k fuel (destroy ic evicted_reason c') n
                          (idle_falls c c' ic fuel n h a p.frame b)
                          (destroy-Accounts c' ic evicted_reason n 0 n n b)))
              ])
      ]
    where
      c' : Core C
      c' = (pop_idle d (starts fuel) c).0

      p : Popped d c.clock c (pop_idle d (starts fuel) c) n 0 n n
      p = pop_idle-Popped d (starts fuel) c n 0 n n a

  -- A ceiling between MinConns and MaxConnsLimit is taken over whatever is checked out: afterwards
  -- the pool owns no more connections than that, unless all it owns are checked out. Any other
  -- number, and a closed pool, leave everything as it was.
  pub set_max_conns-Settled :
      (d : Driver C) (starts : ℕ → ℕ) (k : ℤ) (c : Core C) (n : ℕ)
      → Settled c n
      → let r = set_max_conns d starts k c in
        ((r.1 ≡ none)
          × Settled r.0 n
          × (r.0.max_conns ≡ k)
          × (c.closed ≡ false)
          × (lt_int k c.config.min_conns ≡ false)
          × (lt_int c.config.max_conns_limit k ≡ false))
        ⊎ ((r ≡ (c, some closed_error)) × (c.closed ≡ true))
        ⊎ ((r ≡ (c, some below_min)) × (lt_int k c.config.min_conns ≡ true))
        ⊎ ((r ≡ (c, some above_limit)) × (lt_int c.config.max_conns_limit k ≡ true))
  unfolding set_max_conns
  set_max_conns-Settled d starts k c n s =
      if_both P c.closed _ _ (λ e. inr (inl (refl, e)))
        (λ e.
          if_both P (lt_int k c.config.min_conns) _ _ (λ f. inr (inr (inl (refl, f))))
            (λ f.
              if_both P (lt_int c.config.max_conns_limit k) _ _ (λ g. inr (inr (inr (refl, g))))
                (λ g.
                  let (j, at) = not_negative c.config.min_conns k s.accounts.floor f in
                  let (t, m) =
                    subst Accepts (sym at)
                      (accepted j (subst (λ z. lt_int c.config.max_conns_limit z ≡ false) at g)) in
                  inl (refl, t, m, e, f, g))))
    where
      P : Core C × Option ResizeError → Type ℓ
      P r =
          ((r.1 ≡ none)
            × Settled r.0 n
            × (r.0.max_conns ≡ k)
            × (c.closed ≡ false)
            × (lt_int k c.config.min_conns ≡ false)
            × (lt_int c.config.max_conns_limit k ≡ false))
          ⊎ ((r ≡ (c, some closed_error)) × (c.closed ≡ true))
          ⊎ ((r ≡ (c, some below_min)) × (lt_int k c.config.min_conns ≡ true))
          ⊎ ((r ≡ (c, some above_limit)) × (lt_int c.config.max_conns_limit k ≡ true))

      Accepts : ℤ → Type 0
      Accepts z =
          let c' : Core C = record c { max_conns = z; permits = (Permit.resize z c.permits).0 } in
          let t = trim_idle d starts z (suc (idle_total c.shards)) c' in
          Settled t n × (t.max_conns ≡ z)

      accepted : (j : ℕ) → lt_int c.config.max_conns_limit (pos j) ≡ false → Accepts (pos j)
      accepted j g =
          let (r, l, cap, _) = resize-Represents (pos j) c.permits n s.accounts.permits_out in
          let l' : (Permit.resize (pos j) c.permits).0.limit ≡ j = ground (arith, l, g, s) in
          let c' : Core C = record c {
            max_conns = pos j;
            permits = (Permit.resize (pos j) c.permits).0;
          } in
          let t =
            trim_idle-Trimmed d starts j (suc (idle_total c.shards)) c' n (omega arith)
              (ground (arith, s, r, cap, l')) in
          (
            record {
              accounts = t.accounts;
              capped = ground (arith, t.within, t.frame, l');
              within_limit = ground (arith, t.frame, s, cap);
            },
            t.frame.max_conns,
          )
