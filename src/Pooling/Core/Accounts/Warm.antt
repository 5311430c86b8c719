-- ===== src/Pooling/Core/Accounts/Warm.antt =====
-- pkg/pooling/core.go: warmUp.
use gpool.Base.{
  ℕ, suc, ◌+◌, ◌<◌, ◌≡◌, refl, ap, inl, inr, Bool, false, ◌&&◌, List, [], ◌∷◌, Option, none, some,
  arith, if◌then◌else◌, pos, lt_int, Bool-cases, if_both, ◌%◌,
}
use gpool.Pooling.Permit.{Permits, Wait, granted, cancelled, parked}
use gpool.Pooling.Permit
use gpool.Pooling.Permit.Refinement.{Waits, acquire-Waits}
use gpool.Pooling.Conn.{IdleConn}
use gpool.Pooling.Shard.{shard_count}
use gpool.Pooling.Core.{Core, idle_total, reserve_slot, release_slot}
use gpool.Pooling.Core.Acquire.{Attempt}
use gpool.Pooling.Core.Release.{push_at}
use gpool.Pooling.Core.Maintain.{warm_one, warm_up, warm_round, warm_permitted}
use gpool.Pooling.Core.Accounts.{Accounts, reserve_slot-Accounts, release_slot-Accounts}
use gpool.Pooling.Core.Accounts.Return.{push_at-Accounts}
use gpool.Pooling.Core.Accounts.Settled.{
  Settled, after_permit_back, reserve_slot-idle_total, reserve_slot-permits,
}

module _ {ℓ} {C : Type ℓ} where
  warm_one-Settled :
      (a : Attempt C) (dialled : Option C) (c : Core C) (n : ℕ)
      → a.dialled ≡ dialled
      → Accounts c n 1 n (suc n)
      → idle_total c.shards + n < c.permits.limit
      → Settled (warm_one a c).0 n
  unfolding warm_one
  warm_one-Settled a none c n e b h =
      rw (e, warm_one)
        (after_permit_back (release_slot c) n (release_slot-Accounts c n 0 n (suc n) b)
          (unfold release_slot in ground arith) (unfold release_slot in ground (arith, b)))
  warm_one-Settled a (some conn) c n e b h =
      let ic : IdleConn C = record { conn = conn; created_at = a.now; idle_since = a.now } in
      let opened : Core C = record c { driver_opens = c.driver_opens + 1 } in
      let (p, longer) =
        push_at-Accounts ic (a.home % shard_count) opened n 0 n (suc n) (ground (arith, b))
          (omega arith) in
      rw (e, warm_one)
        (after_permit_back _ n p (inr (unfold push_at in omega (arith, longer)))
          (unfold push_at in ground (arith, b)))

  warm_permitted-Settled :
      (a : Attempt C) (c : Core C) (n : ℕ) (w : Wait)
      → Settled c n
      → Waits false c.permits n w
      → Settled (warm_permitted a c w).0 n
  unfolding warm_permitted
  warm_permitted-Settled a c n cancelled s w = s
  warm_permitted-Settled a c n parked s w = s
  warm_permitted-Settled a c n (granted p) s (h, r, l, k) =
      let c' : Core C = record c { permits = p } in
      let same = ap (λ (q : Permits). q.limit) (reserve_slot-permits c') in
      elim (reserve_slot-Accounts c' n 0 n (suc n) (ground (arith, s))) [
        | inl (room, ok, b) ↦ rw ok (
            warm_one-Settled a a.dialled (reserve_slot c').0 n refl b
              (omega (arith, room, reserve_slot-idle_total c', same)))
        | inr (full, ok, b) ↦ rw ok (
            after_permit_back (reserve_slot c').0 n b
              (ground (arith, s.capped, reserve_slot-idle_total c', same, l))
              (ground (arith, b, same, l, h)))
      ]

  warm_round-Settled :
      (a : Attempt C) (c : Core C) (n : ℕ) → Settled c n → Settled (warm_round a c).0 n
  unfolding warm_round
  warm_round-Settled a c n s =
      if_both Keeps (lt_int (pos 0) c.config.min_conns && lt_int c.total_conns c.config.min_conns)
        (if c.closed then (c, false) else got_permit) (c, false)
        (λ _.
          if_both Keeps c.closed (c, false) got_permit (λ _. s)
            (λ _.
              warm_permitted-Settled a c n _ s
                (acquire-Waits false false c.permits n s.accounts.permits_out)))
        (λ _. s)
    where
      Keeps : Core C × Bool → Type 0
      Keeps r = Settled r.0 n

      got_permit : Core C × Bool
      got_permit = warm_permitted a c (Permit.acquire false false c.permits)

  -- However many rounds it runs and whatever they dial, `warmUp` gives back every permit that it
  -- takes and stays within the ceiling.
  pub warm_up-Settled :
      (attempts : List (Attempt C)) (c : Core C) (n : ℕ)
      → Settled c n
      → Settled (warm_up attempts c) n
  unfolding warm_up
  warm_up-Settled [] c n s = s
  warm_up-Settled (a ∷ rest) c n s = elim (Bool-cases (warm_round a c).1) [
    | inl e ↦ rw (e, warm_up) (warm_up-Settled rest _ n (warm_round-Settled a c n s))
    | inr e ↦ rw (e, warm_up) (warm_round-Settled a c n s)
  ]
