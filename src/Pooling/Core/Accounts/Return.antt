-- ===== src/Pooling/Core/Accounts/Return.antt =====
-- pkg/pooling/core.go and handle.go: a returned connection is pooled or closed, its permit freed.
use gpool.Base.{
  ℕ, suc, ◌+◌, ◌≤◌, ◌<◌, ◌≡◌, refl, ◌⊎◌, inl, inr, false, not, [], ◌∷◌, arith, if_both,
  length-append, decr, lt_int, Bool-cases,
}
use gpool.Pooling.Conn.{IdleConn, Driver, Discard, closed_reason}
use gpool.Pooling.Shard.{Shard, shard_count}
use gpool.Pooling.Shard
use gpool.Pooling.Core.{Core, idle_total, destroy, shard_at}
use gpool.Pooling.Core.Acquire.{Handle}
use gpool.Pooling.Core.Release.{recyclable, push_at, settle, release, handle_release}
use gpool.Pooling.Core.Accounts.{Accounts, destroy-Accounts, reshelve-Accounts}
use gpool.Pooling.Core.Accounts.Settled.{Settled, after_permit_back}

module _ {ℓ} {C : Type ℓ} where
  -- The connection is dealt with and its permit still out.
  abbrev Settling : ℕ → ℕ → Core C → Type 0
  Settling limit n c =
      Accounts c n 0 n (suc n)
      × ((idle_total c.shards ≡ 0) ⊎ (idle_total c.shards + n ≤ limit))
      × (c.permits.limit ≡ limit)
      × (n ≤ c.permits.capacity)

  destroy-Settling :
      (ic : IdleConn C) (why : Discard) (c : Core C) (limit n : ℕ)
      → Accounts c (suc n) 0 n (suc n)
      → (idle_total c.shards ≡ 0) ⊎ (idle_total c.shards + suc n ≤ limit)
      → c.permits.limit ≡ limit
      → n ≤ c.permits.capacity
      → Settling limit n (destroy ic why c)
  destroy-Settling ic why c limit n a capped l p = (
    destroy-Accounts c ic why n 0 n (suc n) a,
    unfold destroy in ground arith,
    unfold destroy in l,
    unfold destroy in p,
  )

  -- A connection from outside the shards is pooled.
  pub push_at-Accounts :
      (ic : IdleConn C) (idx : ℕ) (c : Core C) (n reserved lent held : ℕ)
      → Accounts c (suc n) reserved lent held
      → idx < shard_count
      → Accounts (push_at idx ic c) n reserved lent held
        × (idle_total (push_at idx ic c).shards ≡ suc (idle_total c.shards))
  unfolding push_at Shard.push
  push_at-Accounts ic idx c n reserved lent held a i =
      let b =
        reshelve-Accounts c idx (Shard.push (shard_at idx c) ic) (suc n) n reserved lent held a i
          refl (omega (arith, length-append (shard_at idx c).conns (ic ∷ []))) in
      (b, omega (arith, b.opens, a.opens))

  push-Settling :
      (ic : IdleConn C) (idx : ℕ) (c : Core C) (limit n : ℕ)
      → Accounts c (suc n) 0 n (suc n)
      → idx < shard_count
      → c.permits.limit ≡ limit
      → n ≤ c.permits.capacity
      → lt_int c.max_conns c.total_conns ≡ false
      → Settling limit n (push_at idx ic c)
  push-Settling ic idx c limit n a i l p h =
      let (b, longer) = push_at-Accounts ic idx c n 0 n (suc n) a i in
      (b, ground (arith, h, a, longer), unfold push_at in l, unfold push_at in p)

  settle-Settling :
      (d : Driver C) (ic : IdleConn C) (idx : ℕ) (c : Core C) (limit n : ℕ)
      → Accounts c (suc n) 0 n (suc n)
      → idx < shard_count
      → (idle_total c.shards ≡ 0) ⊎ (idle_total c.shards + suc n ≤ limit)
      → c.permits.limit ≡ limit
      → n ≤ c.permits.capacity
      → Settling limit n (settle d ic idx c)
  unfolding settle
  settle-Settling d ic idx c limit n a i capped l p =
      if_both (Settling limit n) c.closed _ _ (λ _. by_destroy ic closed_reason)
        (λ _.
          if_both (Settling limit n) (not (recyclable d ic c).1) _ _ (λ _. by_destroy _ _)
            (λ _.
              if_both (Settling limit n) (lt_int c.max_conns c.total_conns) _ _
                (λ _. by_destroy _ _) (λ e. push-Settling _ idx c limit n a i l p e)))
    where
      by_destroy : (ic : IdleConn C) (why : Discard) → Settling limit n (destroy ic why c)
      by_destroy ic why = destroy-Settling ic why c limit n a capped l p

  -- Whatever becomes of the connection, the caller's share of the books is cleared: one connection
  -- and one permit fewer are out, and what is idle stays within the ceiling.
  pub release-Settled :
      (d : Driver C) (ic : IdleConn C) (idx : ℕ) (c : Core C) (n : ℕ)
      → Settled c (suc n)
      → idx < shard_count
      → Settled (release d ic idx c) n
  unfolding release
  release-Settled d ic idx c n s i =
      let c' : Core C = record c { checked_out = decr c.checked_out } in
      let (a, capped, l, p) =
        settle-Settling d ic idx c' c.permits.limit n (ground (arith, s)) i s.capped refl
          (omega (arith, s.within_limit)) in
      after_permit_back (settle d ic idx c') n a (ground (arith, capped, l)) p

  -- A second Release of a handle does nothing, whatever happened to the engine in between.
  pub handle_release_twice :
      (d : Driver C) (h : Handle C) (c c' : Core C)
      → handle_release d (handle_release d h c).1 c' ≡ (c', (handle_release d h c).1)
  unfolding handle_release
  handle_release_twice d h c c' = elim (Bool-cases h.released) [ inl e ↦ simp e | inr e ↦ simp e ]
