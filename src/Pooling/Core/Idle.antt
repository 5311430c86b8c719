-- ===== src/Pooling/Core/Idle.antt =====
-- pkg/pooling/core.go: what a vendor's callbacks promise of every connection that they let back in
-- holds of every connection that is handed out again.
use gpool.Base.{
  ℕ, zero, suc, ◌+◌, ◌-◌, ◌%◌, ◌≡◌, inl, inr, true, false, not, List, [], ◌∷◌, ◌++◌, Option, none,
  some, arith, if_both, Option-cases, subst, length, replicate, get_or, set, split_last, Bool-cases,
  ◌==◌, decr, lt_int,
}
use gpool.Pooling.Conn.{IdleConn, Driver}
use gpool.Pooling.Shard.{Shard, empty_shard, shard_count}
use gpool.Pooling.Shard
use gpool.Pooling.Core.{Core, destroy, shard_at, usable, pop_shard, pop_from, pop_idle}
use gpool.Pooling.Core.Acquire.{release_permit}
use gpool.Pooling.Core.Release.{recyclable, push_at, settle, release, is_ready}

module _ {ℓ κ} {C : Type ℓ} (P : C → Type κ) where
  abbrev pub Every : List (IdleConn C) → Type κ
  Every [] = Unit
  Every (ic ∷ ics) = P ic.conn × Every ics

  abbrev pub EveryIdle : List (Shard C) → Type κ
  EveryIdle [] = Unit
  EveryIdle (s ∷ ss) = Every s.conns × EveryIdle ss

  -- The found one, if any.
  abbrev pub Handed : Option (IdleConn C) → Type κ
  Handed none = Unit
  Handed (some ic) = P ic.conn

  abbrev pub HandedAt : Option (IdleConn C × ℕ) → Type κ
  HandedAt none = Unit
  HandedAt (some (ic, idx)) = P ic.conn

  Every-append :
      (ics : List (IdleConn C)) (ic : IdleConn C) → Every ics → P ic.conn → Every (ics ++ ic ∷ [])
  Every-append [] ic e p = (p, tt)
  Every-append (x ∷ ics) ic (q, e) p = (q, Every-append ics ic e p)

  EveryIdle-get_or :
      (ss : List (Shard C)) (i : ℕ) → EveryIdle ss → Every (get_or ss i empty_shard).conns
  unfolding empty_shard
  EveryIdle-get_or [] i e = tt
  EveryIdle-get_or (s ∷ ss) zero (e, es) = e
  EveryIdle-get_or (s ∷ ss) (suc i) (e, es) = EveryIdle-get_or ss i es

  EveryIdle-set :
      (ss : List (Shard C)) (i : ℕ) (s : Shard C)
      → EveryIdle ss
      → Every s.conns
      → EveryIdle (set ss i s)
  EveryIdle-set [] i s e p = tt
  EveryIdle-set (x ∷ ss) zero s (e, es) p = (p, es)
  EveryIdle-set (x ∷ ss) (suc i) s (e, es) p = (e, EveryIdle-set ss i s es p)

  abbrev SplitEvery : Option (List (IdleConn C) × IdleConn C) → Type κ
  SplitEvery none = Unit
  SplitEvery (some (rest, ic)) = Every rest × P ic.conn

  Every-split_last : (ics : List (IdleConn C)) → Every ics → SplitEvery (split_last ics)
  Every-split_last [] e = tt
  Every-split_last (x ∷ ics) (p, e) = elim (Option-cases (split_last ics)) [
    | inl n ↦ rw n (tt, p)
    | inr ((ys, y), q) ↦
        let (rest, last) = subst SplitEvery q (Every-split_last ics e) in rw q ((p, rest), last)
  ]

  Every-pop : (s : Shard C) → Every s.conns → Every (Shard.pop s).0.conns × Handed (Shard.pop s).1
  unfolding Shard.pop
  Every-pop s e =
      if_both (λ (r : Shard C × Option (IdleConn C)). Every r.0.conns × Handed r.1) (s.count == 0) _
        _ (λ _. (e, tt))
        (λ _. elim (Option-cases (split_last s.conns)) [
          | inl n ↦ rw n (e, tt)
          | inr ((ys, y), q) ↦ rw q (subst SplitEvery q (Every-split_last s.conns e))
        ])

  module _ (d : Driver C) (now : ℕ) where
    -- One shard's loop keeps it, and what it hands out has it.
    pop_shard-Every :
        (idx fuel : ℕ) (c : Core C)
        → EveryIdle c.shards
        → EveryIdle (pop_shard d now idx fuel c).0.shards × Handed (pop_shard d now idx fuel c).1
    unfolding pop_shard destroy
    pop_shard-Every idx zero c e = (e, tt)
    pop_shard-Every idx (suc fuel) c e =
        let at = shard_at idx c in
        let (rest, popped) = Every-pop at (EveryIdle-get_or c.shards idx e) in
        let kept = EveryIdle-set c.shards idx (Shard.pop at).0 e rest in
        elim (Option-cases (Shard.pop at).1) [
          | inl n ↦ rw (n, pop_shard) (e, tt)
          | inr (ic, q) ↦
              rw (q, pop_shard)
                (elim (Bool-cases (usable d ic now c)) [
                  | inl u ↦ rw u (kept, subst Handed q popped)
                  | inr u ↦ rw u (pop_shard-Every idx fuel _ kept)
                ])
        ]

    pop_from-Every :
        (start left : ℕ) (c : Core C)
        → EveryIdle c.shards
        → EveryIdle (pop_from d now start left c).0.shards
          × HandedAt (pop_from d now start left c).1
    unfolding pop_from
    pop_from-Every start zero c e = (e, tt)
    pop_from-Every start (suc left) c e =
        let idx = (start + (shard_count - suc left)) % shard_count in
        let fuel = suc (length (shard_at idx c).conns) in
        let (kept, popped) = pop_shard-Every idx fuel c e in
        elim (Option-cases (pop_shard d now idx fuel c).1) [
          | inl n ↦ rw (n, pop_from) (pop_from-Every start left _ kept)
          | inr (ic, q) ↦ rw (q, pop_from) (kept, subst Handed q popped)
        ]

  pub pop_idle-Every :
      (d : Driver C) (start : ℕ) (c : Core C)
      → EveryIdle c.shards
      → EveryIdle (pop_idle d start c).0.shards × HandedAt (pop_idle d start c).1
  unfolding pop_idle
  pop_idle-Every d start c e = pop_from-Every d c.clock start shard_count c e

  -- If the callbacks let this connection back in, it has the property.
  abbrev pub Promises : Driver C → C → Type κ
  Promises d x =
      d.dead x ≡ false
      → (d.needs_cleanup x ≡ false → P x) × ((d.recyclable x).1 ≡ true → P (d.recyclable x).0)

  recyclable-fit :
      (d : Driver C) (ic : IdleConn C) (c : Core C)
      → Promises d ic.conn
      → (recyclable d ic c).1 ≡ true
      → P (recyclable d ic c).0.conn
  unfolding recyclable
  recyclable-fit d ic c pr h = elim (Bool-cases (d.dead ic.conn)) [
    | inl gone ↦ absurd (ground (arith, gone, h))
    | inr alive ↦ elim (Bool-cases (is_ready d.ready ic.conn)) [
      | inr unready ↦ absurd (ground (arith, alive, unready, h))
      | inl ready ↦ elim (Bool-cases (d.needs_cleanup ic.conn)) [
        | inl dirty ↦
            rw (alive, ready, dirty, recyclable)
              ((pr alive).1 (ground (arith, alive, ready, dirty, h)))
        | inr clean ↦ rw (alive, ready, clean, recyclable) ((pr alive).0 clean)
      ]
    ]
  ]

  -- Given back, it is idle with the property, or closed.
  pub release-Every :
      (d : Driver C) (ic : IdleConn C) (idx : ℕ) (c : Core C)
      → Promises d ic.conn
      → EveryIdle c.shards
      → EveryIdle (release d ic idx c).shards
  unfolding release settle destroy push_at Shard.push release_permit
  release-Every d ic idx c pr e =
      let c' = record c { checked_out = decr c.checked_out } in
      let Kept = λ (r : Core C). EveryIdle r.shards in
      if_both Kept c'.closed _ _ (λ _. e)
        (λ _.
          if_both Kept (not (recyclable d ic c').1) _ _ (λ _. e)
            (λ fit.
              if_both Kept (lt_int c'.max_conns c'.total_conns) _ _ (λ _. e)
                (λ _. EveryIdle-set c.shards idx _ e (
                  Every-append (shard_at idx c').conns _ (EveryIdle-get_or c.shards idx e)
                    (recyclable-fit d ic c' pr (ground (arith, fit)))))))

-- An engine that has just started has nothing idle.
pub EveryIdle-empty {ℓ κ} :
    {C : Type ℓ} (P : C → Type κ) (n : ℕ) → EveryIdle P (replicate n empty_shard)
unfolding empty_shard
EveryIdle-empty P zero = tt
EveryIdle-empty P (suc n) = (tt, EveryIdle-empty P n)
