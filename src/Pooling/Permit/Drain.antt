-- ===== src/Pooling/Permit/Drain.antt =====
-- pkg/pooling/permit.go: what `drain` tells about the callers that still hold a permit.
use gpool.Base.{ℕ, zero, suc, ◌+◌, ◌-◌, ◌≤◌, ◌<◌, ◌≡◌, refl, ◌⊎◌, inl, inr, arith, Bool-cases, Bool}
use gpool.Pooling.Permit.{Permits, Round, try_acquire, release, releases, drain}
use gpool.Pooling.Permit.Refinement.{
  Represents, try_acquire-Represents, try_acquire-limit, release-Represents, release-limit,
  release-capacity, try_acquire-capacity,
}

-- The permits that other callers give back in the rounds of a drain.
unfoldable pub total_returned : ℕ → (ℕ → Round) → ℕ
total_returned zero rounds = 0
total_returned (suc n) rounds = (rounds n).returned + total_returned n rounds

releases-Represents :
    (n : ℕ) (p : Permits) (held : ℕ)
    → Represents p (n + held)
    → Represents (releases n p) held
      × ((releases n p).limit ≡ p.limit)
      × ((releases n p).capacity ≡ p.capacity)
unfolding releases
releases-Represents zero p held r = ground arith
releases-Represents (suc n) p held r = ground (
  arith,
  release-Represents p (n + held),
  release-limit p,
  release-capacity p,
  releases-Represents n (release p) held,
)

-- What is left of the callers that held a permit, seen from `reclaimed` permits taken before.
pub record Drained (p q : Permits) (held reclaimed total still : ℕ) : Type 0 where
  fewer : still ≤ held
  grows : reclaimed ≤ total
  pub represents : Represents q (still + total)
  pub same_limit : q.limit ≡ p.limit
  pub same_capacity : q.capacity ≡ p.capacity
  taken : (total ≡ reclaimed) ⊎ (still + total ≤ p.limit)

pub drain-Drained :
    (n : ℕ) (rounds : ℕ → Round) (reclaimed : ℕ) (p : Permits) (held : ℕ)
    → Represents p (held + reclaimed)
    → total_returned n rounds ≤ held
    → let (q, total) = drain n rounds reclaimed p in
      (still : ℕ) × Drained p q held reclaimed total still
unfolding drain total_returned
drain-Drained zero rounds reclaimed p held r h = (held, ground arith)
drain-Drained (suc n) rounds reclaimed p held r h = elim (Bool-cases (rounds n).gives_up) [
  | inl e ↦ rw e (left, stop)
  | inr e ↦ rw e (elim (try_acquire-Represents q (left + reclaimed) back.0) [
    | inl (room, ok, next) ↦
        let (still, d) =
          drain-Drained n rounds (reclaimed + 1) (try_acquire q).0 left (ground (arith, next))
            (omega arith) in
        rw ok (still, ground (arith, d, back, try_acquire-limit q, try_acquire-capacity q))
    | inr (full, same) ↦ rw same (left, stop)
  ])
]
  where
    q : Permits
    q = releases (rounds n).returned p

    left : ℕ
    left = held - (rounds n).returned

    back : Represents q (left + reclaimed) × (q.limit ≡ p.limit) × (q.capacity ≡ p.capacity)
    back = releases-Represents (rounds n).returned p (left + reclaimed) (ground (arith, r, h))

    stop : Drained p q held reclaimed reclaimed left
    stop = ground (arith, back)

pub no_returns :
    (n : ℕ) (f : ℕ → Bool) → total_returned n (λ i. record { returned = 0; gives_up = f i }) ≡ 0
unfolding total_returned
no_returns zero f = refl
no_returns (suc n) f = omega (arith, no_returns n f)

-- Of the callers that held a permit when the drain began, `still` hold one when it ends, whatever
-- they gave back during its rounds. Where every permit was reclaimed, none of them does.
pub drain_reports :
    (rounds : ℕ → Round) (p : Permits) (held : ℕ)
    → Represents p held
    → 0 < p.limit
    → total_returned p.limit rounds ≤ held
    → let (q, total) = drain p.limit rounds 0 p in
      (still : ℕ) × (still ≤ held)
      × Represents q (still + total)
      × ((total < p.limit) ⊎ (total ≡ p.limit) × (still ≡ 0))
drain_reports rounds p held r h b =
    let (still, d) = drain-Drained p.limit rounds 0 p held (ground (arith, r)) b in
    (still, d.fewer, d.represents, ground (arith, d.taken))
