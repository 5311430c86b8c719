-- ===== src/Pooling/Permit/Refinement.antt =====
-- pkg/pooling/permit.go against its contract: a ceiling, and how many permits callers hold.
use gpool.Base.{
  ℕ, zero, suc, max, ◌+◌, ◌-◌, ◌≤◌, ◌<◌, ◌≡◌, refl, ◌⊎◌, inl, inr, ◌==◌, Bool-cases, if_both, Bool,
  true, false, arith, ltb, if◌then◌else◌, ℤ,
}
use gpool.Pooling.Permit.{
  Permits, Wait, granted, cancelled, parked, wait, acquire, send, fill, new_permits, try_acquire,
  release, grow_one, grow, shrink_one, shrink, clamp, resize,
}

-- Under a ceiling `l`, of which `held` permits are out, the tokens and the debt are determined.
pub record Balanced (p : Permits) (l held : ℕ) : Type 0 where
  pub tokens_free : p.tokens ≡ l - held
  pub debt_owed : p.debt ≡ held - l
  pub within : l ≤ p.capacity

-- Between two calls the ceiling is the stored limit.
abbrev pub Represents : Permits → ℕ → Type 0
Represents p held = Balanced p p.limit held

-- A permit is granted exactly when fewer than the ceiling are out; otherwise nothing changes.
pub try_acquire-Represents :
    (p : Permits) (held : ℕ)
    → Represents p held
    → ((held < p.limit) × ((try_acquire p).1 ≡ true) × Represents (try_acquire p).0 (suc held))
      ⊎ ((p.limit ≤ held) × (try_acquire p ≡ (p, false)))
unfolding try_acquire
try_acquire-Represents p held r = ground arith

-- What a `select` over the tokens and the context may do.
abbrev pub Waits : Bool → Permits → ℕ → Wait → Type 0
Waits done p held (granted q) =
    (held < p.limit) × Represents q (suc held) × (q.limit ≡ p.limit) × (q.capacity ≡ p.capacity)
Waits done p held cancelled = done ≡ true
Waits done p held parked = (p.limit ≤ held) × (done ≡ false)

pub wait-Waits :
    (done choose : Bool) (p : Permits) (held : ℕ)
    → Represents p held
    → Waits done p held (wait done choose p)
unfolding wait try_acquire
wait-Waits true true p held r = elim (Bool-cases (p.tokens == 0)) [
  | inl e ↦ rw e refl
  | inr e ↦ rw e refl
]
wait-Waits true false p held r = elim (Bool-cases (p.tokens == 0)) [
  | inl e ↦ rw e refl
  | inr e ↦ rw e (ground arith)
]
wait-Waits false choose p held r = elim (Bool-cases (p.tokens == 0)) [
  | inl e ↦ rw e (ground arith, refl)
  | inr e ↦ rw e (ground arith)
]

-- `acquire` gives up on its context only where no permit is free.
pub acquire-Waits :
    (done choose : Bool) (p : Permits) (held : ℕ)
    → Represents p held
    → Waits done p held (acquire done choose p)
unfolding acquire
acquire-Waits done choose p held r = elim (Bool-cases (p.tokens == 0)) [
  | inl e ↦ rw e (if_both (Waits done p held) done _ _ (λ d. d) (λ d. (ground arith, d)))
  | inr e ↦ rw e (ground arith)
]

-- A permit that was out comes back: to the channel, whose capacity always has room for it, or to
-- pay a debt.
pub release-Represents :
    (p : Permits) (held : ℕ) → Represents p (suc held) → Represents (release p) held
unfolding release
release-Represents p held r = ground arith

pub release-limit : (p : Permits) → (release p).limit ≡ p.limit
unfolding release
release-limit p = ground arith

pub release-capacity : (p : Permits) → (release p).capacity ≡ p.capacity
unfolding release
release-capacity p = ground arith

pub try_acquire-limit : (p : Permits) → (try_acquire p).0.limit ≡ p.limit
unfolding try_acquire
try_acquire-limit p = ground arith

pub try_acquire-capacity : (p : Permits) → (try_acquire p).0.capacity ≡ p.capacity
unfolding try_acquire
try_acquire-capacity p = ground arith

grow_one-Balanced :
    (p : Permits) (l held : ℕ)
    → Balanced p l held
    → l < p.capacity
    → Balanced (grow_one p) (suc l) held
unfolding grow_one
grow_one-Balanced p l held b h = ground arith

grow_one-limit : (p : Permits) → (grow_one p).limit ≡ p.limit
unfolding grow_one
grow_one-limit p = ground arith

grow_one-capacity : (p : Permits) → (grow_one p).capacity ≡ p.capacity
unfolding grow_one
grow_one-capacity p = ground arith

shrink_one-Balanced :
    (p : Permits) (l held : ℕ) → Balanced p (suc l) held → Balanced (shrink_one p) l held
unfolding shrink_one
shrink_one-Balanced p l held b = ground arith

shrink_one-limit : (p : Permits) → (shrink_one p).limit ≡ p.limit
unfolding shrink_one
shrink_one-limit p = ground arith

shrink_one-capacity : (p : Permits) → (shrink_one p).capacity ≡ p.capacity
unfolding shrink_one
shrink_one-capacity p = ground arith

-- The two loops move the ceiling they realise one step at a time; the stored limit stands.
record Moves (p q : Permits) (l held : ℕ) : Type 0 where
  balanced : Balanced q l held
  same_limit : q.limit ≡ p.limit
  same_capacity : q.capacity ≡ p.capacity

grow-Moves :
    (n : ℕ) (p : Permits) (l held : ℕ)
    → Balanced p l held
    → l + n ≤ p.capacity
    → Moves p (grow n p) (l + n) held
unfolding grow
grow-Moves zero p l held b h = ground arith
grow-Moves (suc n) p l held b h = ground (
  arith,
  grow_one-Balanced p l held b,
  grow_one-limit p,
  grow_one-capacity p,
  grow-Moves n (grow_one p) (suc l) held,
)

shrink-Moves :
    (n : ℕ) (p : Permits) (l held : ℕ) → Balanced p (l + n) held → Moves p (shrink n p) l held
unfolding shrink
shrink-Moves zero p l held b = ground arith
shrink-Moves (suc n) p l held b = ground (
  arith,
  shrink_one-Balanced p (l + n) held,
  shrink_one-limit p,
  shrink_one-capacity p,
  shrink-Moves n (shrink_one p) l held,
)

clamp-le : (n : ℤ) (capacity : ℕ) → clamp n capacity ≤ capacity
clamp-le n capacity = ground arith

-- Whatever is held, the permits after `resize` are those of the clamped ceiling: a grown set hands
-- out the difference less what is owed, a shrunk one owes what it could not reclaim. The previous
-- ceiling is returned.
pub resize-Represents :
    (n : ℤ) (p : Permits) (held : ℕ)
    → Represents p held
    → Represents (resize n p).0 held
      × ((resize n p).0.limit ≡ clamp n p.capacity)
      × ((resize n p).0.capacity ≡ p.capacity)
      × ((resize n p).1 ≡ p.limit)
unfolding resize
resize-Represents n p held r = from (clamp n p.capacity) (clamp-le n p.capacity)
  where
    from :
        (next : ℕ)
        → next ≤ p.capacity
        → let q = record p { limit = next } in
          let t = if ltb p.limit next then grow (next - p.limit) q else shrink (p.limit - next) q in
          Represents t held × (t.limit ≡ next) × (t.capacity ≡ p.capacity) × (p.limit ≡ p.limit)
    from next h = ground (
      arith,
      grow-Moves (next - p.limit) (record p { limit = next }) p.limit held,
      shrink-Moves (p.limit - next) (record p { limit = next }) next held,
    )

fill-tokens :
    (n : ℕ) (p : Permits)
    → p.tokens + n ≤ p.capacity
    → fill n p ≡ record p { tokens = p.tokens + n }
unfolding fill send
fill-tokens zero p h = ground arith
fill-tokens (suc n) p h = ground (arith, fill-tokens n (record p { tokens = p.tokens + 1 }))

-- A new set has its whole ceiling free, and room to grow to the larger of the two numbers.
pub new_permits-Represents :
    (n ceiling : ℕ)
    → Represents (new_permits n ceiling) 0
      × ((new_permits n ceiling).limit ≡ n)
      × ((new_permits n ceiling).capacity ≡ max n ceiling)
unfolding new_permits
new_permits-Represents n ceiling = ground (
  arith,
  fill-tokens n
      (record { tokens = 0; capacity = if ltb ceiling n then n else ceiling; limit = n; debt = 0 }),
)
