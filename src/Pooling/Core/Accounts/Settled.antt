-- ===== src/Pooling/Core/Accounts/Settled.antt =====
-- pkg/pooling/core.go: Acquire keeps the books, and a caller with a permit never has to spin.
use gpool.Base.{
  true, false, ℕ, suc, ◌+◌, ◌≤◌, ◌<◌, ◌≡◌, refl, sym, ap, subst, ◌≢◌, ◌∙◌, ◌⊎◌, inl, inr, Bool,
  false, List, ◌∷◌, arith, if_both,
}
use gpool.Pooling.Permit.{Permits, Wait, wait, granted, cancelled, parked}
use gpool.Pooling.Permit.Refinement.{
  Waits, wait-Waits, try_acquire-Represents, release-Represents, release-limit, release-capacity,
  try_acquire-limit, try_acquire-capacity,
}
use gpool.Pooling.Conn.{Driver}
use gpool.Pooling.Shard.{shard_count}
use gpool.Pooling.Core.{
  Core, Failure, closed_error, context_error, dial_error, idle_total, pop_idle, reserve_slot,
  release_slot,
}
use gpool.Pooling.Core.Acquire.{
  Attempt, Taken, Acquired, got, failed, spinning, handle, refused, waits, yields, connect, take,
  release_permit, finish, permitted, acquire, resumed, resume,
}
use gpool.Pooling.Core.Accounts.{Accounts, reserve_slot-Accounts}
use gpool.Pooling.Core.Accounts.Pop.{Popped, pop_idle-Popped}

-- The errors that `Acquire` may return once it was parked: its context's if that has ended.
abbrev pub AllowedAfter : Bool → Failure → Type 0
AllowedAfter done e = (e ≡ dial_error) ⊎ (e ≡ closed_error) ⊎ ((e ≡ context_error) × (done ≡ true))

module _ {ℓ} {C : Type ℓ} where
  -- Between two methods: `n` callers hold a connection and a permit each, no slot is reserved, and
  -- no connection is idle beyond the ceiling, nor are more out than the hard ceiling.
  pub record Settled (c : Core C) (n : ℕ) : Type 0 where
    pub accounts : Accounts c n 0 n n
    pub capped : (idle_total c.shards ≡ 0) ⊎ (idle_total c.shards + n ≤ c.permits.limit)
    pub within_limit : n ≤ c.permits.capacity

  -- After `take`, for a caller that is the last of `suc n` with a permit.
  abbrev Takes : ℕ → ℕ → Core C × Taken C → Type 0
  Takes limit n (c, got ic idx) =
      Accounts c (suc n) 0 n (suc n)
      × (idle_total c.shards + suc n ≤ limit)
      × (c.permits.limit ≡ limit)
      × (idx < shard_count)
  Takes limit n (c, failed e) =
      Accounts c n 0 n (suc n)
      × (idle_total c.shards ≡ 0)
      × (c.permits.limit ≡ limit)
      × (e ≡ dial_error)
  Takes limit n (c, spinning) = ⊥

  pub reserve_slot-idle_total :
      (c : Core C) → idle_total (reserve_slot c).0.shards ≡ idle_total c.shards
  unfolding reserve_slot
  reserve_slot-idle_total c = ground arith

  pub reserve_slot-permits : (c : Core C) → (reserve_slot c).0.permits ≡ c.permits
  unfolding reserve_slot
  reserve_slot-permits c = ground arith

  connect-Takes :
      (a : Attempt C) (c : Core C) (limit n : ℕ)
      → Accounts c n 1 n (suc n)
      → idle_total c.shards ≡ 0
      → c.permits.limit ≡ limit
      → n < limit
      → Takes limit n (connect a c)
  unfolding connect release_slot
  connect-Takes a c limit n b e l h = ground arith

  take-Takes :
      (d : Driver C) (a : Attempt C) (rest : List (Attempt C)) (c : Core C) (n limit : ℕ)
      → Accounts c n 0 n (suc n)
      → c.permits.limit ≡ limit
      → n < limit
      → (idle_total c.shards ≡ 0) ⊎ (idle_total c.shards + n ≤ limit)
      → Takes limit n (take d (a ∷ rest) c)
  unfolding take
  take-Takes d a rest c n limit b l h capped = elim p.outcome [
    | inl (e, empty, b') ↦
        rw (e, take)
          (elim (reserve_slot-Accounts c' n 0 n (suc n) b') [
            | inl (_, ok, b'') ↦
                rw (ok, take)
                  (connect-Takes a (reserve_slot c').0 limit n b''
                    (omega (arith, reserve_slot-idle_total c'))
                    (ap (λ (q : Permits). q.limit) (reserve_slot-permits c') ∙ same_limit) h)
            | inr (full, _, _) ↦ absurd (omega (arith, same_limit))
          ])
    | inr (ic, idx, e, i, u, _, b') ↦
        rw (e, take)
          (b', omega (arith, b'.opens, b.opens, p.frame.opens, p.frame.closes), same_limit, i)
  ]
    where
      p : Popped d c.clock c (pop_idle d a.start c) n 0 n (suc n)
      p = pop_idle-Popped d a.start c n 0 n (suc n) b

      c' : Core C
      c' = (pop_idle d a.start c).0

      same_limit : c'.permits.limit ≡ limit
      same_limit = ap (λ (q : Permits). q.limit) p.frame.permits ∙ l

  -- What `Acquire` leaves behind, for each of its results: `limit` is the ceiling, and `Allowed`
  -- says which errors it may return.
  abbrev pub Acquires : (Failure → Type 0) → ℕ → ℕ → Core C × Acquired C → Type 0
  Acquires Allowed limit n (c, handle h) =
      Settled c (suc n)
      × (suc n ≤ limit)
      × (idle_total c.shards + suc n ≤ limit)
      × (h.shard_idx < shard_count)
      × (h.released ≡ false)
  Acquires Allowed limit n (c, refused e) = Settled c n × Allowed e
  Acquires Allowed limit n (c, waits) = Settled c n × (limit ≤ n)
  Acquires Allowed limit n (c, yields) = ⊥

  permit_back :
      (c : Core C) (n : ℕ) → Accounts c n 0 n (suc n) → Accounts (release_permit c) n 0 n n
  unfolding release_permit
  permit_back c n a =
      ground
        (arith, release-Represents c.permits n, release-limit c.permits, release-capacity c.permits)

  pub after_permit_back :
      (c : Core C) (n : ℕ)
      → Accounts c n 0 n (suc n)
      → (idle_total c.shards ≡ 0) ⊎ (idle_total c.shards + n ≤ c.permits.limit)
      → n ≤ c.permits.capacity
      → Settled (release_permit c) n
  unfolding release_permit
  after_permit_back c n a capped h = record {
    accounts = permit_back c n a;
    capped = ground (arith, release-limit c.permits);
    within_limit = omega (arith, release-capacity c.permits);
  }

  module _ (Allowed : Failure → Type 0) (allows_dial : Allowed dial_error)
      (allows_closed : Allowed closed_error) where
    finish-Acquires :
        (n limit : ℕ) (r : Core C × Taken C)
        → n < limit
        → Takes limit n r
        → Acquires Allowed limit n (finish r)
    unfolding finish
    finish-Acquires n limit (c', got ic idx) h (a, fits, l, i) = (
      record {
        accounts = ground arith;
        capped = inr (ground arith);
        within_limit = ground (arith, a);
      },
      omega arith,
      fits,
      i,
      refl,
    )
    finish-Acquires n limit (c', failed e) h (a, z, l, f) =
        (after_permit_back c' n a (inl z) (ground (arith, a)), subst Allowed (sym f) allows_dial)
    finish-Acquires n limit (c', spinning) h t = elim t [ ]

    -- A caller that got the permits `p`, in a state that differs from `c` by counters alone.
    permitted-Acquires :
        (d : Driver C) (a : Attempt C) (rest : List (Attempt C)) (c : Core C) (n limit : ℕ)
        → Accounts c n 0 n (suc n)
        → c.permits.limit ≡ limit
        → n < limit
        → (idle_total c.shards ≡ 0) ⊎ (idle_total c.shards + n ≤ limit)
        → Acquires Allowed limit n (permitted d (a ∷ rest) c)
    unfolding permitted
    permitted-Acquires d a rest c n limit b l h capped =
        if_both (Acquires Allowed limit n) c.closed _ _
          (λ e. (after_permit_back c n b (ground arith) (ground (arith, b)), allows_closed))
          (λ e. finish-Acquires n limit _ h (take-Takes d a rest c n limit b l h capped))

  pub acquire-Acquires :
      (d : Driver C) (a : Attempt C) (rest : List (Attempt C)) (c : Core C) (n : ℕ)
      → Settled c n
      → Acquires (λ e. e ≢ context_error) c.permits.limit n (acquire d (a ∷ rest) c)
  unfolding acquire
  acquire-Acquires d a rest c n s =
      if_both (Acquires _ c.permits.limit n) c.closed _ _ (λ e. (s, λ f. cc))
        (λ e. elim (try_acquire-Represents c.permits n s.accounts.permits_out) [
          | inl (h, ok, r) ↦ rw ok (
              permitted-Acquires (λ e. e ≢ context_error) (λ f. cc) (λ f. cc) d a rest _ n
                c.permits.limit
                (ground (arith, s, try_acquire-limit c.permits, try_acquire-capacity c.permits))
                (try_acquire-limit c.permits) h s.capped)
          | inr (h, r) ↦ rw r (ground (arith, s), h)
        ])

  resumed-Acquires :
      (d : Driver C) (a : Attempt C) (rest : List (Attempt C)) (done : Bool) (waited : ℕ)
      (c : Core C) (n : ℕ) (w : Wait)
      → Settled c n
      → Waits done c.permits n w
      → Acquires (AllowedAfter done) c.permits.limit n (resumed d (a ∷ rest) waited c w)
  unfolding resumed
  resumed-Acquires d a rest done waited c n (granted p) s (h, r, l, k) =
      permitted-Acquires (AllowedAfter done) (inl refl) (inr (inl refl)) d a rest _ n
        c.permits.limit (ground (arith, s)) l h s.capped
  resumed-Acquires d a rest done waited c n cancelled s w = (ground (arith, s), inr (inr (refl, w)))
  resumed-Acquires d a rest done waited c n parked s w = (s, w.0)

  no_wait :
      (Allowed : Failure → Type 0) (limit n : ℕ) (r : Core C × Acquired C)
      → Acquires Allowed limit n r
      → n < limit
      → r.1 ≢ waits
  no_wait Allowed limit n (c, handle h) a l e = cc
  no_wait Allowed limit n (c, refused f) a l e = cc
  no_wait Allowed limit n (c, waits) a l e = absurd (omega (arith, a.1, l))
  no_wait Allowed limit n (c, yields) a l e = cc

  resumed-waits :
      (d : Driver C) (a : Attempt C) (rest : List (Attempt C)) (done : Bool) (waited : ℕ)
      (c : Core C) (n : ℕ) (w : Wait)
      → Settled c n
      → Waits done c.permits n w
      → (resumed d (a ∷ rest) waited c w).1 ≡ waits
      → done ≡ false
  unfolding resumed
  resumed-waits d a rest done waited c n (granted p) s h e = absurd (
      no_wait (AllowedAfter done) c.permits.limit n _
        (resumed-Acquires d a rest done waited c n (granted p) s h) h.0 e)
  resumed-waits d a rest done waited c n cancelled s h e = cc
  resumed-waits d a rest done waited c n parked s h e = h.1

  -- A parked caller whose wait ends, with no other call in between. It fails with its context's
  -- error only if the context has ended, and otherwise with a dial's error or that of a closed pool
  -- alone; the engine's books are then as they were. With a permit it goes on as `Acquire` does. It
  -- goes on waiting only while every permit is out and its context has not ended.
  pub resume-Acquires :
      (d : Driver C) (a : Attempt C) (rest : List (Attempt C)) (done choose : Bool) (waited : ℕ)
      (c : Core C) (n : ℕ)
      → Settled c n
      → Acquires (AllowedAfter done) c.permits.limit n (resume d (a ∷ rest) done choose waited c)
        × ((resume d (a ∷ rest) done choose waited c).1 ≡ waits → done ≡ false)
  unfolding resume
  resume-Acquires d a rest done choose waited c n s =
      let w = wait-Waits done choose c.permits n s.accounts.permits_out in
      (
        resumed-Acquires d a rest done waited c n (wait done choose c.permits) s w,
        resumed-waits d a rest done waited c n (wait done choose c.permits) s w,
      )
