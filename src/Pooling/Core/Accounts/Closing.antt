-- ===== src/Pooling/Core/Accounts/Closing.antt =====
-- pkg/pooling/core.go: Close.
use mathlib.Core.Path.{ap₂}
use gpool.Base.{
  ℕ, zero, suc, ◌+◌, ◌-◌, ◌≤◌, ◌<◌, ◌≡◌, refl, sym, ap, ◌∙◌, Bool, true, List, [], ◌∷◌, arith,
  length, pos, to_nat,
}
use gpool.Pooling.Permit.{Permits, Round}
use gpool.Pooling.Permit
use gpool.Pooling.Permit.Drain.{no_returns, drain-Drained}
use gpool.Pooling.Conn.{IdleConn, closed_reason}
use gpool.Pooling.Shard.{Shard, shard_count, with_conns, empty_shard}
use gpool.Pooling.Shard
use gpool.Pooling.Shard.Laws.{IsMirrored, select, take_if-select}
use gpool.Pooling.Core.{Core, idle_total, shard_at}
use gpool.Pooling.Core.Resize.{sweep_shard, sweep}
use gpool.Pooling.Core.Maintain.{drain_shards, close_end}
use gpool.Pooling.Core.Accounts.{Accounts, AllMirrored, get_or-IsMirrored}
use gpool.Pooling.Core.Accounts.Sweep.{sweep-Swept, sweep_shard-SweptShard}
use gpool.Pooling.Core.Accounts.Cull.{all_empty, select-none}
use gpool.Pooling.Core.Accounts.Settled.{Settled}

module _ {ℓ} {C : Type ℓ} where
  select-all : (xs : List (IdleConn C)) → select (λ ic. true) xs ≡ xs
  select-all [] = refl
  select-all (x ∷ xs) = ap (◌∷◌ x) (select-all xs)

  -- Draining a shard is taking whatever is in it.
  drain-take_if : (s : Shard C) → IsMirrored s → Shard.drain s ≡ Shard.take_if (λ ic. true) s
  unfolding Shard.drain
  drain-take_if s m = sym (
      take_if-select (λ ic. true) s m
      ∙ ap₂ (λ x y. (with_conns x, y)) (select-none s.conns) (select-all s.conns))

  shard_at-IsMirrored : (idx : ℕ) (c : Core C) → AllMirrored c.shards → IsMirrored (shard_at idx c)
  unfolding shard_at
  shard_at-IsMirrored idx c m = get_or-IsMirrored c.shards idx m

  drain_shards-sweep :
      (left k : ℕ) (c : Core C) (n held : ℕ)
      → Accounts c n 0 n held
      → left ≤ shard_count
      → drain_shards left c ≡ (sweep (λ ic. true) (λ ic. closed_reason) left k c).0
  unfolding drain_shards sweep sweep_shard
  drain_shards-sweep zero k c n held a l = refl
  drain_shards-sweep (suc left) k c n held a l =
      let idx : ℕ = shard_count - suc left in
      let one =
        sweep_shard-SweptShard (λ ic. true) (λ ic. closed_reason) idx c n held a (omega arith) in
      rw (drain-take_if (shard_at idx c) (shard_at-IsMirrored idx c a.mirrored))
        (drain_shards-sweep left _ _ n held one.swept.accounts (omega arith))

  -- The permits that Close reclaims are counted with those of the callers.
  drained-Accounts :
      (gives_up : ℕ → Bool) (k : ℕ) (c : Core C) (n : ℕ)
      → Accounts c n 0 n n
      → let rounds : ℕ → Round = λ i. record { returned = 0; gives_up = gives_up i } in
        (held : ℕ) × Accounts
          (record c { permits = (Permit.drain k rounds 0 c.permits).0 })
          n
          0
          n
          held
  drained-Accounts gives_up k c n a =
      let rounds : ℕ → Round = λ i. record { returned = 0; gives_up = gives_up i } in
      let (still, d) =
        drain-Drained k rounds 0 c.permits n (ground (arith, a))
          (omega (arith, no_returns k gives_up)) in
      (still + (Permit.drain k rounds 0 c.permits).1, ground (arith, a, d))

  drain_shards-closes :
      (c : Core C) (n held : ℕ)
      → Accounts c n 0 n held
      → let c' = drain_shards shard_count c in
        (idle_total c'.shards ≡ 0) × Accounts c' n 0 n held × (c'.driver_opens ≡ c.driver_opens)
  drain_shards-closes c n held a =
      let (w, left) = sweep-Swept (λ ic. true) (λ ic. closed_reason) c n held a in
      let c' = (sweep (λ ic. true) (λ ic. closed_reason) shard_count 0 c).0 in
      let bare : (j : ℕ) → j < shard_count → length (shard_at j c').conns ≡ 0 =
        λ j h. ap length (left j h ∙ select-none (shard_at j c).conns) in
      rw (drain_shards-sweep shard_count 0 c n held a (omega arith))
        (all_empty c' w.accounts.sixteen bare, w.accounts, w.frame.opens)

  pub close_end-Settled :
      (gives_up : ℕ → Bool) (c : Core C) (n : ℕ)
      → Settled c n
      → let c' = close_end gives_up c in
        (idle_total c'.shards ≡ 0)
        × (c'.total_conns ≡ pos n)
        × (c'.checked_out ≡ pos n)
        × (length c'.driver_closes + n ≡ c.driver_opens)
  unfolding close_end
  close_end-Settled gives_up c n s =
      let (held, a) = drained-Accounts gives_up (to_nat c.max_conns) c n s.accounts in
      let (empty, b, same) = drain_shards-closes _ n held a in
      (empty, ground (arith, b, empty), b.lent_out, omega (arith, b.opens, empty, same))
