-- ===== src/Pooling/Core/Accounts/Cull.antt =====
-- pkg/pooling/core.go: EvictIdle and reapExpired.
use mathlib.Core.Path.{fun_ext}
use gpool.Base.{
  ℕ, ◌+◌, ◌<◌, ◌≡◌, refl, ap, ◌∙◌, ◌⊎◌, inl, inr, Bool, true, false, not, ◌||◌, ◌&&◌, List, [], ◌∷◌,
  arith, if_both, length,
}
use gpool.Pooling.Conn.{Driver, IdleConn, evicted_reason}
use gpool.Pooling.Shard.{shard_count}
use gpool.Pooling.Shard.Laws.{select}
use gpool.Pooling.Core.{Core, idle_total, shard_at, usable, why_unusable}
use gpool.Pooling.Core.Resize.{sweep, evict_idle}
use gpool.Pooling.Core.Maintain.{reap_expired, stale}
use gpool.Pooling.Core.Accounts.Pop.{idle_total-zero}
use gpool.Pooling.Core.Accounts.Sweep.{Swept, sweep-Swept}
use gpool.Pooling.Core.Accounts.Settled.{Settled}

not-or : (a b : Bool) → not (a || b) ≡ (not a && not b)
not-or true b = refl
not-or false b = refl

module _ {ℓ} {C : Type ℓ} where
  Settled-Swept : (c c' : Core C) (k n : ℕ) → Settled c n → Swept c c' k n n → Settled c' n
  Settled-Swept c c' k n s w = record {
    accounts = w.accounts;
    capped = ground (arith, s.capped, w);
    within_limit = ground (arith, s, w);
  }

  pub select-none : (xs : List (IdleConn C)) → select (λ ic. false) xs ≡ []
  select-none [] = refl
  select-none (x ∷ xs) = select-none xs

  pub all_empty :
      (c : Core C)
      → length c.shards ≡ shard_count
      → ((j : ℕ) → j < shard_count → length (shard_at j c).conns ≡ 0)
      → idle_total c.shards ≡ 0
  unfolding shard_at
  all_empty c l h = idle_total-zero c.shards (λ j i. h j (omega arith))

  -- EvictIdle leaves a closed pool as it is. On an open one it closes every idle connection and
  -- reports how many there were; what is checked out stays.
  pub evict_idle-Settled :
      (c : Core C) (n : ℕ)
      → Settled c n
      → let (c', k) = evict_idle c in
        Settled c' n
        × (((c.closed ≡ true) × (evict_idle c ≡ (c, 0)))
            ⊎ ((c.closed ≡ false)
                × (k ≡ idle_total c.shards)
                × (idle_total c'.shards ≡ 0)
                × (length c'.driver_closes ≡ length c.driver_closes + k)))
  unfolding evict_idle
  evict_idle-Settled c n s =
      let (w, left) = sweep-Swept (λ ic. true) (λ ic. evicted_reason) c n n s.accounts in
      let r = sweep (λ ic. true) (λ ic. evicted_reason) shard_count 0 c in
      let bare : (j : ℕ) → j < shard_count → length (shard_at j r.0).conns ≡ 0 =
        λ j h. ap length (left j h ∙ select-none (shard_at j c).conns) in
      let empty : idle_total r.0.shards ≡ 0 = all_empty r.0 w.accounts.sixteen bare in
      if_both
        (λ (r : Core C × ℕ).
          Settled r.0 n
          × (((c.closed ≡ true) × (r ≡ (c, 0)))
              ⊎ ((c.closed ≡ false)
                  × (r.1 ≡ idle_total c.shards)
                  × (idle_total r.0.shards ≡ 0)
                  × (length r.0.driver_closes ≡ length c.driver_closes + r.1))))
        c.closed _ _ (λ e. (s, inl (e, refl)))
        (λ e. (
          Settled-Swept c r.0 r.1 n s w,
          inr (
            e,
            omega (arith, w.gone, empty),
            empty,
            omega (arith, w.accounts.opens, s.accounts.opens, w.frame.opens, w.gone),
          ),
        ))

  stale-usable :
      (d : Driver C) (c : Core C) (xs : List (IdleConn C))
      → select (λ ic. not (stale d c ic)) xs ≡ select (λ ic. usable d ic c.clock c) xs
  unfolding stale usable
  stale-usable d c xs = ap (λ p. select p xs) (fun_ext (λ ic. not-or _ _))

  pub reap_expired-Settled :
      (d : Driver C) (c : Core C) (n : ℕ) → Settled c n → Settled (reap_expired d c) n
  unfolding reap_expired
  reap_expired-Settled d c n s =
      Settled-Swept c _ _ n s
        (sweep-Swept (stale d c) (λ ic. why_unusable d ic c.clock c) c n n s.accounts).0

  -- After the reaper's round a shard has exactly those of its connections that `popIdle` would hand
  -- out, in their order, and the engine's books balance with as many connections out as before.
  pub reap_expired-select :
      (d : Driver C) (c : Core C) (n j : ℕ)
      → Settled c n
      → j < shard_count
      → Settled (reap_expired d c) n
        × ((shard_at j (reap_expired d c)).conns
            ≡ select (λ ic. usable d ic c.clock c) (shard_at j c).conns)
  unfolding reap_expired
  reap_expired-select d c n j s h =
      let (w, left) =
        sweep-Swept (stale d c) (λ ic. why_unusable d ic c.clock c) c n n s.accounts in
      (Settled-Swept c _ _ n s w, left j h ∙ stale-usable d c (shard_at j c).conns)
