-- ===== src/Pooling/Core/Accounts/Pop.antt =====
-- pkg/pooling/core.go: popIdle finds a usable connection, or leaves no shard with any connection.
use native.Mathlib.Decide.{dec_lt}
use gpool.Base.{
  ◌≢◌, ap, length-append, ℕ, zero, suc, ◌+◌, ◌-◌, ◌%◌, ◌≤◌, ◌<◌, ◌≡◌, refl, sym, subst, ◌∙◌, ◌⊎◌,
  inl, inr, true, List, [], ◌∷◌, Option, none, some, arith, length, get_or,
}
use gpool.Pooling.Conn.{IdleConn, Driver}
use gpool.Pooling.Shard.{Shard, empty_shard, shard_count}
use gpool.Pooling.Core.{Core, idle_total, shard_at, usable, pop_shard, pop_from, pop_idle}
use gpool.Pooling.Core.Accounts.{Accounts, Frame}
use gpool.Pooling.Core.Accounts.PopShard.{
  Frame-refl, Frame-trans, Others, TakenOut, ShardPopped, pop_shard-ShardPopped, usable-Frame,
  depth,
}

module _ {ℓ} {C : Type ℓ} where
  -- What `popIdle` gives: a usable connection, now outside the shards, or empty shards.
  pub record Popped (d : Driver C) (now : ℕ) (c : Core C) (r : Core C × Option (IdleConn C × ℕ))
      (out reserved lent held : ℕ) : Type ℓ where
    pub frame : Frame c r.0
    pub outcome :
        ((r.1 ≡ none) × (idle_total r.0.shards ≡ 0) × Accounts r.0 out reserved lent held)
        ⊎ ((ic : IdleConn C) × (idx : ℕ) × (r.1 ≡ some (ic, idx))
            × (idx < shard_count)
            × (usable d ic now c ≡ true)
            × TakenOut idx c r.0 ic
            × Accounts r.0 (suc out) reserved lent held)

  -- The shards that the loop has visited, `left` of them to go, are empty.
  abbrev Visited : ℕ → ℕ → Core C → Type 0
  Visited start left c =
      (k : ℕ)
      → left ≤ k
      → k < shard_count
      → depth ((start + (shard_count - suc k)) % shard_count) c ≡ 0

  every_shard_empty :
      (start : ℕ) (c : Core C) → Visited start 0 c → (j : ℕ) → j < shard_count → depth j c ≡ 0
  every_shard_empty start c v j h =
      let k : ℕ = (start + 15 + 16 - j) % 16 in
      subst (λ i. depth i c ≡ 0) (omega arith) (v k (omega arith) (omega arith))

  pub idle_total-zero :
      (ss : List (Shard C))
      → ((j : ℕ) → j < length ss → length (get_or ss j empty_shard).conns ≡ 0)
      → idle_total ss ≡ 0
  idle_total-zero [] h = refl
  idle_total-zero (s ∷ ss) h =
      omega (arith, h 0 (omega arith), idle_total-zero ss (λ j l. h (suc j) (omega arith)))

  -- A shard that had become empty is not the one that gave the connection.
  taken_after :
      (idx j : ℕ) (c c' c'' : Core C) (ic : IdleConn C)
      → depth idx c' ≡ 0
      → Others idx c c'
      → TakenOut j c' c'' ic
      → TakenOut j c c'' ic
  taken_after idx j c c' c'' ic empty o (dropped, k) =
      let other : idx ≢ j = λ e. omega (
        arith,
        subst (λ i. depth i c' ≡ 0) e empty,
        ap length k,
        length-append (shard_at j c'').conns (ic ∷ dropped),
      ) in
      (dropped, ap (λ (s : Shard C). s.conns) (sym (o j other)) ∙ k)

  Popped-after :
      (d : Driver C) (now idx : ℕ) (c c' : Core C) (r : Core C × Option (IdleConn C × ℕ))
      (out reserved lent held : ℕ)
      → Frame c c'
      → depth idx c' ≡ 0
      → Others idx c c'
      → Popped d now c' r out reserved lent held
      → Popped d now c r out reserved lent held
  Popped-after d now idx c c' r out reserved lent held f empty o p = record {
    frame = Frame-trans c c' r.0 f p.frame;
    outcome = elim p.outcome [
      | inl q ↦ inl q
      | inr (ic, j, e, h, u, k, a) ↦ inr (
        ic,
        j,
        e,
        h,
        sym (usable-Frame d ic now c c' f) ∙ u,
        taken_after idx j c c' r.0 ic empty o k,
        a,
      )
    ];
  }

  pop_from-Popped :
      (d : Driver C) (now start left : ℕ) (c : Core C) (out reserved lent held : ℕ)
      → left ≤ shard_count
      → Visited start left c
      → Accounts c out reserved lent held
      → Popped d now c (pop_from d now start left c) out reserved lent held
  unfolding pop_from
  pop_from-Popped d now start zero c out reserved lent held l v a = record {
    frame = Frame-refl c;
    outcome = inl (
      refl,
      unfold shard_at in
          idle_total-zero c.shards
            (λ j h. every_shard_empty start c v j (omega (arith, a.sixteen))),
      a,
    );
  }
  pop_from-Popped d now start (suc left) c out reserved lent held l v a = elim sp.outcome [
    | inl (e, empty, b) ↦
        rw (e, pop_from)
          (Popped-after d now idx c c' _ out reserved lent held sp.frame empty sp.others (
            pop_from-Popped d now start left c' out reserved lent held (omega arith) (visit empty)
              b))
    | inr (ic, e, u, k, b) ↦
        rw (e, pop_from)
          (record { frame = sp.frame; outcome = inr (ic, idx, refl, omega arith, u, k, b) })
  ]
    where
      idx : ℕ
      idx = (start + (shard_count - suc left)) % shard_count

      c' : Core C
      c' = (pop_shard d now idx (suc (depth idx c)) c).0

      sp :
          ShardPopped d now idx c (pop_shard d now idx (suc (depth idx c)) c) out reserved lent held
      sp =
          pop_shard-ShardPopped d now idx (suc (depth idx c)) c out reserved lent held (omega arith)
            (omega arith) a

      visit : depth idx c' ≡ 0 → Visited start left c'
      visit empty k h k16 = elim (dec_lt left k) [
        | yes p ↦ omega (
          arith,
          v k (omega arith) k16,
          sp.shrinks ((start + (shard_count - suc k)) % shard_count),
        )
        | no p ↦
            subst (λ i. depth ((start + (shard_count - suc i)) % shard_count) c' ≡ 0) {x = left}
              {y = k} (omega arith) empty
      ]

  -- `popIdle` hands out a connection that was fit a moment ago. It stood in its shard, and those
  -- behind it are gone too: what the shard holds afterwards is what stood before it. One connection
  -- more is then out. It finds none only if no shard is left with a connection, and then as many are
  -- out as before.
  pub pop_idle-Popped :
      (d : Driver C) (start : ℕ) (c : Core C) (out reserved lent held : ℕ)
      → Accounts c out reserved lent held
      → Popped d c.clock c (pop_idle d start c) out reserved lent held
  unfolding pop_idle
  pop_idle-Popped d start c out reserved lent held a =
      pop_from-Popped d c.clock start shard_count c out reserved lent held (omega arith)
        (λ k h l. absurd (omega arith)) a
