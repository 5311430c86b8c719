-- ===== src/Pooling/Core/Accounts/PopShard.antt =====
-- pkg/pooling/core.go: the inner loop of popIdle finds a usable connection in one shard, or empties it.

use mathlib.Core.List.{append_assoc}
use gpool.Base.{
  ◌≢◌, ℕ, zero, suc, ◌≤◌, ◌<◌, ◌≡◌, refl, sym, ap, ◌∙◌, ◌⊎◌, inl, inr, true, List, [], ◌∷◌, ◌++◌,
  Option, none, some, arith, length, length-append, get_or, set, Bool-cases,
}
use gpool.Pooling.Conn.{IdleConn, Driver, Discard}
use gpool.Pooling.Shard.{Shard, empty_shard, shard_count, with_conns}
use gpool.Pooling.Shard
use gpool.Pooling.Shard.Laws.{pop-Pops}
use gpool.Pooling.Core.{Core, shard_at, destroy, usable, why_unusable, pop_shard}
use gpool.Pooling.Core.Accounts.{
  Accounts, Frame, get_or-IsMirrored, reshelve-Accounts, destroy-Accounts,
}

module _ {ℓ} {A : Type ℓ} where
  pub get_or-set :
      (xs : List A) (i j : ℕ) (v d : A)
      → ((get_or (set xs i v) j d ≡ get_or xs j d) ⊎ ((i ≡ j) × (get_or (set xs i v) j d ≡ v)))
  get_or-set [] i j v d = inl refl
  get_or-set (x ∷ xs) zero zero v d = inr (refl, refl)
  get_or-set (x ∷ xs) zero (suc j) v d = inl refl
  get_or-set (x ∷ xs) (suc i) zero v d = inl refl
  get_or-set (x ∷ xs) (suc i) (suc j) v d = elim (get_or-set xs i j v d) [
    | inl e ↦ inl e
    | inr (e, f) ↦ inr (ap suc e, f)
  ]

  pub get_or-set_self :
      (xs : List A) (i : ℕ) (v d : A) → i < length xs → get_or (set xs i v) i d ≡ v
  get_or-set_self [] i v d h = absurd (omega arith)
  get_or-set_self (x ∷ xs) zero v d h = refl
  get_or-set_self (x ∷ xs) (suc i) v d h = get_or-set_self xs i v d (omega arith)

module _ {ℓ} {C : Type ℓ} where
  -- How many connections lie in a shard.
  abbrev pub depth : ℕ → Core C → ℕ
  depth j c = length (shard_at j c).conns

  -- No shard gains a connection.
  abbrev Shrinks : Core C → Core C → Type 0
  Shrinks c c' = (j : ℕ) → depth j c' ≤ depth j c

  -- No other shard is touched.
  abbrev pub Others : ℕ → Core C → Core C → Type ℓ
  Others idx c c' = (j : ℕ) → idx ≢ j → shard_at j c' ≡ shard_at j c

  set-Others :
      (c : Core C) (idx : ℕ) (s : Shard C) → Others idx c (record c { shards = set c.shards idx s })
  unfolding shard_at
  set-Others c idx s j n = elim (get_or-set c.shards idx j s empty_shard) [
    | inl e ↦ e
    | inr (e, f) ↦ absurd (n e)
  ]

  -- The connection was the last of the shard but for some that were thrown away, and has left it.
  abbrev pub TakenOut : ℕ → Core C → Core C → IdleConn C → Type ℓ
  TakenOut idx c c' ic =
      (dropped : List (IdleConn C)) × ((shard_at idx c).conns
        ≡ (shard_at idx c').conns ++ ic ∷ dropped)

  set-Shrinks :
      (c : Core C) (idx : ℕ) (s : Shard C)
      → length s.conns ≤ depth idx c
      → Shrinks c (record c { shards = set c.shards idx s })
  unfolding shard_at
  set-Shrinks c idx s h j = ground (arith, get_or-set c.shards idx j s empty_shard)

  pub record ShardPopped (d : Driver C) (now idx : ℕ) (c : Core C)
      (r : Core C × Option (IdleConn C)) (out reserved lent held : ℕ) : Type ℓ where
    pub frame : Frame c r.0
    pub shrinks : Shrinks c r.0
    pub others : Others idx c r.0
    pub outcome :
        ((r.1 ≡ none) × (depth idx r.0 ≡ 0) × Accounts r.0 out reserved lent held)
        ⊎ ((ic : IdleConn C) × (r.1 ≡ some ic)
            × (usable d ic now c ≡ true)
            × TakenOut idx c r.0 ic
            × Accounts r.0 (suc out) reserved lent held)

  pub Frame-refl : (c : Core C) → Frame c c
  Frame-refl c = ground arith

  -- The engine with the last connection of a shard taken off.
  record TookOff (c c' : Core C) (rest : List (IdleConn C)) (idx out reserved lent held : ℕ)
      : Type ℓ where
    frame : Frame c c'
    shrinks : Shrinks c c'
    less : suc (depth idx c') ≡ depth idx c
    others : Others idx c c'
    rests : (shard_at idx c').conns ≡ rest
    accounts : Accounts c' (suc out) reserved lent held

  take_off :
      (c : Core C) (idx : ℕ) (s : Shard C) (rest : List (IdleConn C)) (ic : IdleConn C)
      (out reserved lent held : ℕ)
      → Accounts c out reserved lent held
      → idx < shard_count
      → (shard_at idx c).conns ≡ rest ++ ic ∷ []
      → s ≡ with_conns rest
      → TookOff c (record c { shards = set c.shards idx s }) rest idx out reserved lent held
  take_off c idx s rest ic out reserved lent held a i e p = record {
    frame = ground arith;
    shrinks = set-Shrinks c idx s (omega (arith, shorter));
    less = unfold shard_at in omega (arith, shorter, ap (λ (t : Shard C). length t.conns) here);
    others = set-Others c idx s;
    rests = unfold shard_at in ap (λ (t : Shard C). t.conns) here ∙ ap (λ (t : Shard C). t.conns) p;
    accounts =
        reshelve-Accounts c idx s out (suc out) reserved lent held a i (ground arith)
          (omega (arith, shorter));
  }
    where
      shorter : suc (length s.conns) ≡ depth idx c
      shorter =
          omega (
            arith,
            ap length e,
            length-append rest (ic ∷ []),
            ap (λ (t : Shard C). length t.conns) p,
          )

      here : get_or (set c.shards idx s) idx empty_shard ≡ s
      here = get_or-set_self c.shards idx s empty_shard (omega (arith, a.sixteen))

  -- Destroying what was taken off: the shard stays shorter, and the books balance again.
  destroy-TookOff :
      (c c' : Core C) (rest : List (IdleConn C)) (ic : IdleConn C) (why : Discard)
      (idx out reserved lent held : ℕ)
      → TookOff c c' rest idx out reserved lent held
      → let c'' = destroy ic why c' in
        Frame c c''
        × Shrinks c c''
        × (suc (depth idx c'') ≡ depth idx c)
        × Others idx c c''
        × ((shard_at idx c'').conns ≡ rest)
        × Accounts c'' out reserved lent held
  destroy-TookOff c c' rest ic why idx out reserved lent held t = (
    unfold destroy in ground (arith, t.frame),
    unfold destroy shard_at in t.shrinks,
    unfold destroy shard_at in t.less,
    unfold destroy shard_at in t.others,
    unfold destroy shard_at in t.rests,
    destroy-Accounts c' ic why out reserved lent held t.accounts,
  )

  pub usable-Frame :
      (d : Driver C) (ic : IdleConn C) (now : ℕ) (c c' : Core C)
      → Frame c c'
      → usable d ic now c' ≡ usable d ic now c
  unfolding usable
  usable-Frame d ic now c c' f = rw f.config refl

  pub Frame-trans : (c c' c'' : Core C) → Frame c c' → Frame c' c'' → Frame c c''
  Frame-trans c c' c'' f g = ground arith

  ShardPopped-after :
      (d : Driver C) (now idx : ℕ) (c c' : Core C) (rest : List (IdleConn C)) (gone : IdleConn C)
      (r : Core C × Option (IdleConn C)) (out reserved lent held : ℕ)
      → Frame c c'
      → Shrinks c c'
      → Others idx c c'
      → (shard_at idx c').conns ≡ rest
      → (shard_at idx c).conns ≡ rest ++ gone ∷ []
      → ShardPopped d now idx c' r out reserved lent held
      → ShardPopped d now idx c r out reserved lent held
  ShardPopped-after d now idx c c' rest gone r out reserved lent held f s o left was p = record {
    frame = Frame-trans c c' r.0 f p.frame;
    shrinks = λ j. omega (arith, s j, p.shrinks j);
    others = λ j n. p.others j n ∙ o j n;
    outcome = elim p.outcome [
      | inl q ↦ inl q
      | inr (ic, e, u, (dropped, k), a) ↦ inr (
        ic,
        e,
        sym (usable-Frame d ic now c c' f) ∙ u,
        (
          dropped ++ gone ∷ [],
          was
              ∙ ap (λ xs. xs ++ gone ∷ []) (sym left ∙ k)
              ∙ append_assoc (shard_at idx r.0).conns (ic ∷ dropped) (gone ∷ []),
        ),
        a,
      )
    ];
  }

  pub pop_shard-ShardPopped :
      (d : Driver C) (now idx fuel : ℕ) (c : Core C) (out reserved lent held : ℕ)
      → idx < shard_count
      → depth idx c < fuel
      → Accounts c out reserved lent held
      → ShardPopped d now idx c (pop_shard d now idx fuel c) out reserved lent held
  unfolding pop_shard
  pop_shard-ShardPopped d now idx zero c out reserved lent held i f a = absurd (omega arith)
  pop_shard-ShardPopped d now idx (suc fuel) c out reserved lent held i f a =
      elim (pop-Pops (shard_at idx c)
        (unfold shard_at in get_or-IsMirrored c.shards idx a.mirrored)) [
          | inl (e, p) ↦
              rw (p, pop_shard)
                (record {
                  frame = Frame-refl c;
                  shrinks = λ j. omega arith;
                  others = λ j n. refl;
                  outcome = inl (refl, ap length e, a);
                })
          | inr (rest, ic, e, p) ↦
              let s = (Shard.pop (shard_at idx c)).0 in
              let c' : Core C = record c { shards = set c.shards idx s } in
              let t = take_off c idx s rest ic out reserved lent held a i e (ap (λ x. x.0) p) in
              let c'' = destroy ic (why_unusable d ic now c) c' in
              rw (p, pop_shard)
                (elim (Bool-cases (usable d ic now c)) [
                  | inl u ↦ rw u (record {
                    frame = t.frame;
                    shrinks = t.shrinks;
                    others = t.others;
                    outcome =
                        inr (
                          ic,
                          refl,
                          u,
                          ([], e ∙ ap (λ xs. xs ++ ic ∷ []) (sym t.rests)),
                          t.accounts,
                        );
                  })
                  | inr u ↦ rw u (
                      let (frame, shrinks, less, others, left, accounts) =
                        destroy-TookOff c c' rest ic (why_unusable d ic now c) idx out reserved lent
                          held t in
                      ShardPopped-after d now idx c c'' rest ic _ out reserved lent held frame
                        shrinks others left e
                        (pop_shard-ShardPopped d now idx fuel c'' out reserved lent held i
                          (omega (arith, less)) accounts))
                ])
        ]
