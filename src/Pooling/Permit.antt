-- ===== src/Pooling/Permit.antt =====
-- pkg/pooling/permit.go: the resizable set of permits.
--
-- The token channel holds elements with no content, so it is the number of tokens in it, with its
-- capacity. `limit` and `debt` are never negative: `resize` clamps what it stores and `repayDebt`
-- subtracts only from a positive debt.
pub mod Refinement
pub mod Drain
use gpool.Base.{
  ℕ, zero, suc, ◌+◌, ◌-◌, ◌≤◌, ◌≡◌, Bool, true, false, arith, ltb, leb, ◌==◌, if◌then◌else◌, ℤ, pos,
  negsuc,
}

pub record Permits : Type 0 where
  pub tokens : ℕ
  pub capacity : ℕ
  pub limit : ℕ
  pub debt : ℕ

-- A send that gives up when the channel is full, the `default:` of a `select`.
pub send : Permits → Permits
send p = if ltb p.tokens p.capacity then record p { tokens = p.tokens + 1 } else p

fill : ℕ → Permits → Permits
fill zero p = p
fill (suc n) p = fill n (send p)

unfoldable pub new_permits : ℕ → ℕ → Permits
unfolding fill send
new_permits n ceiling =
    fill n
      (record { tokens = 0; capacity = if ltb ceiling n then n else ceiling; limit = n; debt = 0 })

unfoldable pub repay_debt : Permits → Permits × Bool
repay_debt p = if p.debt == 0 then (p, false) else (record p { debt = p.debt - 1 }, true)

unfoldable pub try_acquire : Permits → Permits × Bool
try_acquire p = if p.tokens == 0 then (p, false) else (record p { tokens = p.tokens - 1 }, true)

unfoldable pub release : Permits → Permits
unfolding repay_debt send
release p = let (q, repaid) = repay_debt p in if repaid then q else send p

-- The body of the growing loop: a debt is cancelled before a token is handed out.
grow_one : Permits → Permits
unfolding repay_debt send
grow_one p = let (q, repaid) = repay_debt p in if repaid then q else send p

grow : ℕ → Permits → Permits
grow zero p = p
grow (suc n) p = grow n (grow_one p)

-- The body of the shrinking loop: a token that is not there becomes a debt.
shrink_one : Permits → Permits
unfolding try_acquire
shrink_one p = let (q, taken) = try_acquire p in if taken then q else record p { debt = p.debt + 1 }

shrink : ℕ → Permits → Permits
shrink zero p = p
shrink (suc n) p = shrink n (shrink_one p)

-- The ceiling that `resize` stores: never negative, and never above the channel's capacity.
abbrev pub clamp : ℤ → ℕ → ℕ
clamp (negsuc n) capacity = 0
clamp (pos n) capacity = if ltb capacity n then capacity else n

-- The new permits, and the previous ceiling.
unfoldable pub resize : ℤ → Permits → Permits × ℕ
unfolding grow shrink grow_one shrink_one
resize n p =
    let next = clamp n p.capacity in
    let q = record p { limit = next } in
    (if ltb p.limit next then grow (next - p.limit) q else shrink (p.limit - next) q, p.limit)

-- A `select` over the tokens and the context: which case it may take, and which it takes.
pub data Wait : Type 0 where
  granted : Permits → Wait
  cancelled : Wait
  parked : Wait

-- `done` says that the context has ended, `choose` which case the select takes where both may run.
unfoldable pub wait : Bool → Bool → Permits → Wait
unfolding try_acquire
wait done choose p =
    let (q, taken) = try_acquire p in
    if taken
    then (if done then (if choose then cancelled else granted q) else granted q)
    else if done
    then cancelled
    else parked

unfoldable pub acquire : Bool → Bool → Permits → Wait
unfolding wait
acquire done choose p =
    let (q, taken) = try_acquire p in if taken then granted q else wait done choose p

-- What happens before one round of `drain` ends: how many permits other callers give back, and
-- whether the deadline's case is taken.
pub record Round : Type 0 where
  pub returned : ℕ
  pub gives_up : Bool

releases : ℕ → Permits → Permits
unfolding release
releases zero p = p
releases (suc n) p = releases n (release p)

-- The permits left, and how many were reclaimed. A round in which no token comes ends by the
-- deadline.
unfoldable pub drain : ℕ → (ℕ → Round) → ℕ → Permits → Permits × ℕ
unfolding releases try_acquire
drain zero rounds reclaimed p = (p, reclaimed)
drain (suc n) rounds reclaimed p =
    let q = releases (rounds n).returned p in
    let (r, taken) = try_acquire q in
    let rest = drain n rounds (reclaimed + 1) r in
    if (rounds n).gives_up then (q, reclaimed) else if taken then rest else (q, reclaimed)

unfoldable pub available : Permits → ℕ
available p = p.tokens

unfoldable pub limit_value : Permits → ℕ
limit_value p = p.limit
