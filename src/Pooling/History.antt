-- ===== src/Pooling/History.antt =====
-- pkg/pooling: any sequence of calls on one engine, by callers that hold handles or are parked, and
-- by the background goroutine.
use gpool.Base.{
  ℕ, zero, suc, ◌+◌, ◌-◌, ◌≤◌, ◌<◌, ◌≡◌, refl, sym, ◌⊎◌, inl, inr, Bool, false, List, [], ◌∷◌,
  Option, none, some, arith, ◌==◌, if_both, if◌then◌else◌, length, get_elem?, remove_at,
  length-remove_at, ℤ, pos, subst,
}
use gpool.Pooling.Conn.{Driver}
use gpool.Pooling.Shard.{shard_count}
use gpool.Pooling.Config.{Config}
use gpool.Pooling.Core.{Core, Failure, created, new, clock_update, idle_total}
use gpool.Pooling.Core.Acquire.{
  Attempt, Acquired, Handle, handle, refused, waits, yields, acquire, resume,
}
use gpool.Pooling.Core.Release.{handle_release}
use gpool.Pooling.Core.Resize.{set_max_conns, evict_idle}
use gpool.Pooling.Core.Maintain.{reap_expired, warm_up, close_begin, close_end}
use gpool.Pooling.Core.Accounts.Settled.{Settled, Acquires, acquire-Acquires, resume-Acquires}
use gpool.Pooling.Core.Accounts.Closing.{close_end-Settled}
use gpool.Pooling.Core.Accounts.Return.{release-Settled}
use gpool.Pooling.Core.Accounts.Ceiling.{set_max_conns-Settled}
use gpool.Pooling.Core.Accounts.Cull.{evict_idle-Settled, reap_expired-Settled}
use gpool.Pooling.Core.Accounts.Start.{IsStarted, new-IsStarted}
use gpool.Pooling.Core.Accounts.Warm.{warm_up-Settled}

pub data Call {ℓ} (C : Type ℓ) : Type ℓ where
  acquires : Driver C → Attempt C → List (Attempt C) → Call C
  wakes : Driver C → Attempt C → List (Attempt C) → Bool → Bool → ℕ → Call C
  gives_back : Driver C → ℕ → Call C
  resizes : Driver C → (ℕ → ℕ) → ℤ → Call C
  evicts : Call C
  reaps : Driver C → Call C
  warms : List (Attempt C) → Call C
  ticks : ℕ → Call C
  shuts : Call C

-- The handles that callers hold, and how many callers are parked.
pub record World {ℓ} (C : Type ℓ) : Type ℓ where
  pub core : Core C
  pub held : List (Handle C)
  pub parked : ℕ

module _ {ℓ} {C : Type ℓ} where
  unfoldable pub outcome : List (Handle C) → ℕ → Core C × Acquired C → World C
  outcome held parked (c, handle h) = record { core = c; held = h ∷ held; parked = parked }
  outcome held parked (c, refused e) = record { core = c; held = held; parked = parked }
  outcome held parked (c, waits) = record { core = c; held = held; parked = suc parked }
  outcome held parked (c, yields) = record { core = c; held = held; parked = parked }

  -- The caller drops the handle that it released.
  unfoldable pub give_back : Driver C → ℕ → World C → Option (Handle C) → World C
  give_back d i w none = w
  give_back d i w (some h) = record w {
    core = (handle_release d h w.core).0;
    held = remove_at w.held i;
  }

  unfoldable pub step : World C → Call C → World C
  unfolding outcome give_back
  step w (acquires d a rest) = outcome w.held w.parked (acquire d (a ∷ rest) w.core)
  step w (wakes d a rest done choose waited) =
      if w.parked == 0
      then w
      else outcome w.held (w.parked - 1) (resume d (a ∷ rest) done choose waited w.core)
  step w (gives_back d i) = give_back d i w (get_elem? w.held i)
  step w (resizes d starts n) = record w { core = (set_max_conns d starts n w.core).0 }
  step w evicts = record w { core = (evict_idle w.core).0 }
  step w (reaps d) = record w { core = reap_expired d w.core }
  step w (warms attempts) = record w { core = warm_up attempts w.core }
  step w (ticks now) = record w { core = clock_update now w.core }
  step w shuts = record w { core = close_begin w.core }

  unfoldable pub run : World C → List (Call C) → World C
  run w [] = w
  run w (x ∷ xs) = run (step w x) xs

  abbrev pub AllFresh : List (Handle C) → Type 0
  AllFresh [] = Unit {0}
  AllFresh (h ∷ hs) = (h.shard_idx < shard_count) × (h.released ≡ false) × AllFresh hs

  -- The books count exactly the handles that callers hold, none of them released before.
  pub record IsSound (w : World C) : Type 0 where
    pub settled : Settled w.core (length w.held)
    pub fresh : AllFresh w.held

  outcome-IsSound :
      (Allowed : Failure → Type 0) (limit : ℕ) (held : List (Handle C)) (parked : ℕ)
      (r : Core C × Acquired C)
      → AllFresh held
      → Acquires Allowed limit (length held) r
      → IsSound (outcome held parked r)
  unfolding outcome
  outcome-IsSound Allowed limit held parked (c, handle h) f a = record {
    settled = a.0;
    fresh = (a.3, a.4, f);
  }
  outcome-IsSound Allowed limit held parked (c, refused e) f a = record { settled = a.0; fresh = f }
  outcome-IsSound Allowed limit held parked (c, waits) f a = record { settled = a.0; fresh = f }
  outcome-IsSound Allowed limit held parked (c, yields) f a = elim a [ ]

  fresh_at :
      (hs : List (Handle C)) (i : ℕ) (h : Handle C)
      → AllFresh hs
      → get_elem? hs i ≡ some h
      → (h.shard_idx < shard_count) × (h.released ≡ false) × AllFresh (remove_at hs i)
  fresh_at [] i h f e = cc
  fresh_at (x ∷ hs) zero h f e = ground (arith, f, e)
  fresh_at (x ∷ hs) (suc i) h f e = let (a, b, c) = fresh_at hs i h f.2 e in (a, b, (f.0, f.1, c))

  give_back-IsSound :
      (d : Driver C) (i : ℕ) (w : World C) (o : Option (Handle C))
      → IsSound w
      → get_elem? w.held i ≡ o
      → IsSound (give_back d i w o)
  unfolding give_back handle_release
  give_back-IsSound d i w none s e = s
  give_back-IsSound d i w (some h) s e =
      let (in_range, unreleased, others) = fresh_at w.held i h s.fresh e in
      let shorter = length-remove_at w.held i e in
      rw (unreleased, give_back)
        (record {
          settled =
              release-Settled d h.idle h.shard_idx w.core (length (remove_at w.held i))
                (subst (Settled w.core) (sym shorter) s.settled) in_range;
          fresh = others;
        })

  resized-Settled :
      (d : Driver C) (starts : ℕ → ℕ) (k : ℤ) (c : Core C) (n : ℕ)
      → Settled c n
      → Settled (set_max_conns d starts k c).0 n
  resized-Settled d starts k c n s = elim (set_max_conns-Settled d starts k c n s) [
    | inl t ↦ t.1
    | inr (inl (e, f)) ↦ rw e s
    | inr (inr (inl (e, f))) ↦ rw e s
    | inr (inr (inr (e, f))) ↦ rw e s
  ]

  step-IsSound : (w : World C) (x : Call C) → IsSound w → IsSound (step w x)
  unfolding step
  step-IsSound w (acquires d a rest) s =
      outcome-IsSound _ _ w.held w.parked _ s.fresh
        (acquire-Acquires d a rest w.core (length w.held) s.settled)
  step-IsSound w (wakes d a rest done choose waited) s =
      if_both IsSound (w.parked == 0) _ _ (λ _. s)
        (λ _.
          outcome-IsSound _ _ w.held (w.parked - 1) _ s.fresh
            (resume-Acquires d a rest done choose waited w.core (length w.held) s.settled).0)
  step-IsSound w (gives_back d i) s = give_back-IsSound d i w _ s refl
  step-IsSound w (resizes d starts n) s = record {
    settled = resized-Settled d starts n w.core (length w.held) s.settled;
    fresh = s.fresh;
  }
  step-IsSound w evicts s = record {
    settled = (evict_idle-Settled w.core (length w.held) s.settled).0;
    fresh = s.fresh;
  }
  step-IsSound w (reaps d) s = record {
    settled = reap_expired-Settled d w.core (length w.held) s.settled;
    fresh = s.fresh;
  }
  step-IsSound w (warms attempts) s = record {
    settled = warm_up-Settled attempts w.core (length w.held) s.settled;
    fresh = s.fresh;
  }
  step-IsSound w (ticks now) s = record {
    settled = unfold clock_update in ground (arith, s);
    fresh = s.fresh;
  }
  step-IsSound w shuts s = record {
    settled = unfold close_begin in ground (arith, s);
    fresh = s.fresh;
  }

  -- From any sound state, whatever the callers, the background work and the environment do next,
  -- the books still count exactly the handles that callers hold.
  pub run-IsSound : (w : World C) (calls : List (Call C)) → IsSound w → IsSound (run w calls)
  unfolding run
  run-IsSound w [] s = s
  run-IsSound w (x ∷ xs) s = run-IsSound (step w x) xs (step-IsSound w x s)

  -- A pool that was just opened, before its first call.
  abbrev pub opened : Core C → World C
  opened c = record { core = c; held = []; parked = 0 }

  pub opened-IsSound :
      (procs now : ℕ) (config : Config) (c : Core C)
      → new procs now config ≡ created c
      → IsSound (opened c)
  opened-IsSound procs now config c e =
      let s = subst (IsStarted C config) e (new-IsStarted C procs now config) in
      record { settled = s.0; fresh = tt }

  -- Every pool that `New` opens keeps its books through every history of calls, each run as one step
  -- and `Close` as its first half, up to where it waits for the background goroutine: `Total` is the
  -- idle connections and the handles that callers hold, `InUse` is those handles, neither passes
  -- MaxConnsLimit, what is idle keeps to the current ceiling, and as many connections were dialled as
  -- are closed, idle or held. If the second half of `Close` comes after the history, and no permit
  -- comes back while it drains them, nothing is idle any more, and as many connections were dialled
  -- as are closed or held.
  pub run_from_new :
      (procs now : ℕ) (config : Config) (c : Core C) (calls : List (Call C)) (gives_up : ℕ → Bool)
      → new procs now config ≡ created c
      → let w = run (opened c) calls in
        let shut = close_end gives_up w.core in
        ((w.core.total_conns ≡ pos (idle_total w.core.shards + length w.held))
          × (w.core.checked_out ≡ pos (length w.held))
          × (idle_total w.core.shards + length w.held ≤ w.core.permits.capacity)
          × ((idle_total w.core.shards ≡ 0)
              ⊎ (idle_total w.core.shards + length w.held ≤ w.core.permits.limit))
          × (w.core.driver_opens
              ≡ length w.core.driver_closes + idle_total w.core.shards + length w.held))
        × ((idle_total shut.shards ≡ 0)
            × (shut.total_conns ≡ pos (length w.held))
            × (shut.checked_out ≡ pos (length w.held))
            × (length shut.driver_closes + length w.held ≡ w.core.driver_opens))
  run_from_new procs now config c calls gives_up e =
      let s = run-IsSound (opened c) calls (opened-IsSound procs now config c e) in
      let a = s.settled.accounts in
      (
        (ground (arith, a), a.lent_out, ground (arith, s.settled, a), s.settled.capped, a.opens),
        close_end-Settled gives_up (run (opened c) calls).core _ s.settled,
      )
