-- ===== src/Pooling/Core/Accounts/Sweep.antt =====
-- pkg/pooling/core.go: the loops over the shards, of EvictIdle, reapExpired and Close.
use native.Mathlib.Decide.{ℕ_discrete}
use gpool.Base.{
  ℕ, zero, suc, ◌+◌, ◌-◌, ◌≤◌, ◌<◌, ◌≡◌, refl, sym, ap, subst, ◌≢◌, ◌∙◌, ◌⊎◌, inl, inr, Bool, not,
  List, [], ◌∷◌, arith, length, set, get_or,
}
use gpool.Pooling.Conn.{IdleConn, Discard}
use gpool.Pooling.Shard.{Shard, shard_count, with_conns, empty_shard}
use gpool.Pooling.Shard
use gpool.Pooling.Shard.Laws.{select, take_if-select}
use gpool.Pooling.Core.{Core, idle_total, destroy, shard_at}
use gpool.Pooling.Core.Resize.{destroy_all, sweep_shard, sweep}
use gpool.Pooling.Core.Accounts.{
  Accounts, Frame, get_or-IsMirrored, destroy-Accounts, reshelve-Accounts,
}
use gpool.Pooling.Core.Accounts.PopShard.{get_or-set_self, get_or-set, Frame-refl, Frame-trans}

module _ {ℓ} {C : Type ℓ} where
  destroy_all-Accounts :
      (why : IdleConn C → Discard) (ics : List (IdleConn C)) (c : Core C) (n reserved lent held : ℕ)
      → Accounts c (length ics + n) reserved lent held
      → Accounts (destroy_all why ics c) n reserved lent held
  unfolding destroy_all
  destroy_all-Accounts why [] c n reserved lent held a = ground (arith, a)
  destroy_all-Accounts why (ic ∷ ics) c n reserved lent held a =
      destroy_all-Accounts why ics (destroy ic (why ic) c) n reserved lent held
        (destroy-Accounts c ic (why ic) (length ics + n) reserved lent held (ground (arith, a)))

  destroy_all-Frame :
      (why : IdleConn C → Discard) (ics : List (IdleConn C)) (c : Core C)
      → Frame c (destroy_all why ics c)
  unfolding destroy_all
  destroy_all-Frame why [] c = Frame-refl c
  destroy_all-Frame why (ic ∷ ics) c =
      Frame-trans c (destroy ic (why ic) c) _ (unfold destroy in ground arith)
        (destroy_all-Frame why ics (destroy ic (why ic) c))

  destroy_all-shards :
      (why : IdleConn C → Discard) (ics : List (IdleConn C)) (c : Core C)
      → (destroy_all why ics c).shards ≡ c.shards
  unfolding destroy_all
  destroy_all-shards why [] c = refl
  destroy_all-shards why (ic ∷ ics) c =
      destroy_all-shards why ics (destroy ic (why ic) c) ∙ (unfold destroy in refl)

  length-select :
      (p : IdleConn C → Bool) (xs : List (IdleConn C))
      → length (select (λ ic. not (p ic)) xs) + length (select p xs) ≡ length xs
  length-select p [] = omega arith
  length-select p (x ∷ xs) = ground (arith, length-select p xs)

  -- What a sweep leaves: the books balance, `k` connections are gone from the shards.
  pub record Swept (c c' : Core C) (k n held : ℕ) : Type 0 where
    pub frame : Frame c c'
    pub gone : idle_total c'.shards + k ≡ idle_total c.shards
    pub accounts : Accounts c' n 0 n held

  -- One shard after its sweep, and the others.
  pub record SweptShard (match : IdleConn C → Bool) (idx : ℕ) (c c' : Core C) (k n held : ℕ)
      : Type ℓ where
    pub swept : Swept c c' k n held
    here : (shard_at idx c').conns ≡ select (λ ic. not (match ic)) (shard_at idx c).conns
    elsewhere : (j : ℕ) → (j ≡ idx) ⊎ ((j ≢ idx) × (shard_at j c' ≡ shard_at j c))

  pub sweep_shard-SweptShard :
      (match : IdleConn C → Bool) (why : IdleConn C → Discard) (idx : ℕ) (c : Core C) (n held : ℕ)
      → Accounts c n 0 n held
      → idx < shard_count
      → let (c', k) = sweep_shard match why idx c in SweptShard match idx c c' k n held
  unfolding sweep_shard shard_at
  sweep_shard-SweptShard match why idx c n held a i = record {
    swept = record {
      frame = Frame-trans c c' _ (ground arith) (destroy_all-Frame why q.1 c');
      gone = omega (arith, ap idle_total shards, a'.opens, a.opens, b.opens, lengths);
      accounts = b;
    };
    here =
        ap (λ (ss : List (Shard C)). (get_or ss idx empty_shard).conns) shards
        ∙ ap (λ (s : Shard C). s.conns)
            (get_or-set_self c.shards idx q.0 empty_shard (omega (arith, a.sixteen))
              ∙ ap (λ r. r.0) t);
    elsewhere = λ j. elim (ℕ_discrete j idx) [
      | yes at ↦ inl at
      | no apart ↦ inr (
        apart,
        elim (get_or-set c.shards idx j q.0 empty_shard) [
          | inl e ↦ ap (λ (ss : List (Shard C)). get_or ss j empty_shard) shards ∙ e
          | inr (e, _) ↦ absurd (apart (sym e))
        ],
      )
    ];
  }
    where
      q : Shard C × List (IdleConn C)
      q = Shard.take_if match (shard_at idx c)

      t : q ≡ (
        with_conns (select (λ ic. not (match ic)) (shard_at idx c).conns),
        select match (shard_at idx c).conns,
      )
      t =
          take_if-select match (shard_at idx c)
            (unfold shard_at in get_or-IsMirrored c.shards idx a.mirrored)

      lengths : length q.0.conns + length q.1 ≡ length (shard_at idx c).conns
      lengths = rw t (length-select match (shard_at idx c).conns)

      c' : Core C
      c' = record c { shards = set c.shards idx q.0 }

      a' : Accounts c' (length q.1 + n) 0 n held
      a' =
          reshelve-Accounts c idx q.0 n (length q.1 + n) 0 n held a i
            (ap (λ r. r.0.count) t ∙ sym (ap (λ r. length r.0.conns) t)) (omega (arith, lengths))

      b : Accounts (destroy_all why q.1 c') n 0 n held
      b = destroy_all-Accounts why q.1 c' n 0 n held a'

      shards : (destroy_all why q.1 c').shards ≡ set c.shards idx q.0
      shards = destroy_all-shards why q.1 c'

  -- A shard is swept if it is one of the last `left`, and else as it was.
  abbrev ShardContent : (IdleConn C → Bool) → ℕ → Core C → Core C → ℕ → Type ℓ
  ShardContent match left c c' j =
      ((shard_count ≤ j + left)
        × ((shard_at j c').conns ≡ select (λ ic. not (match ic)) (shard_at j c).conns))
      ⊎ ((j + left < shard_count) × (shard_at j c' ≡ shard_at j c))

  abbrev SweptFrom : (IdleConn C → Bool) → ℕ → ℕ → Core C → Core C × ℕ → ℕ → ℕ → Type ℓ
  SweptFrom match left k c r n held =
      (total : ℕ) × (r.1 ≡ k + total)
      × Swept c r.0 total n held
      × ((j : ℕ) → j < shard_count → ShardContent match left c r.0 j)

  content_after :
      (match : IdleConn C → Bool) (left idx : ℕ) (c c' c'' : Core C) (k n held j : ℕ)
      → SweptShard match idx c c' k n held
      → idx + suc left ≡ shard_count
      → ShardContent match left c' c'' j
      → ShardContent match (suc left) c c'' j
  content_after match left idx c c' c'' k n held j one i (inl (h, e)) = elim (one.elsewhere j) [
    | inl at ↦ absurd (omega arith)
    | inr (_, same) ↦
        inl (omega arith, e ∙ ap (λ (t : Shard C). select (λ ic. not (match ic)) t.conns) same)
  ]
  content_after match left idx c c' c'' k n held j one i (inr (h, e)) = elim (one.elsewhere j) [
    | inl at ↦ inl (
      omega arith,
      subst (λ m. (shard_at m c'').conns ≡ select (λ ic. not (match ic)) (shard_at m c).conns)
          (sym at)
          (ap (λ (t : Shard C). t.conns) (subst (λ m. shard_at m c'' ≡ shard_at m c') at e)
            ∙ one.here),
    )
    | inr (apart, same) ↦ inr (omega arith, e ∙ same)
  ]

  sweep-SweptFrom :
      (match : IdleConn C → Bool) (why : IdleConn C → Discard) (left k : ℕ) (c : Core C)
      (n held : ℕ)
      → Accounts c n 0 n held
      → left ≤ shard_count
      → SweptFrom match left k c (sweep match why left k c) n held
  unfolding sweep
  sweep-SweptFrom match why zero k c n held a l = (
    0,
    omega arith,
    record { frame = Frame-refl c; gone = omega arith; accounts = a },
    λ j h. inr (omega arith, refl),
  )
  sweep-SweptFrom match why (suc left) k c n held a l =
      let (i, e, s, content) =
        sweep-SweptFrom match why left (k + taken) c' n held one.swept.accounts (omega arith) in
      (
        taken + i,
        omega (arith, e),
        record {
          frame = Frame-trans c c' _ one.swept.frame s.frame;
          gone = omega (arith, one.swept.gone, s.gone);
          accounts = s.accounts;
        },
        λ j h. content_after match left idx c c' _ taken n held j one (omega arith) (content j h),
      )
    where
      idx : ℕ
      idx = shard_count - suc left

      c' : Core C
      c' = (sweep_shard match why idx c).0

      taken : ℕ
      taken = (sweep_shard match why idx c).1

      one : SweptShard match idx c c' taken n held
      one = sweep_shard-SweptShard match why idx c n held a (omega arith)

  -- A whole sweep: exactly the connections that do not match stay, in their order, and the count is
  -- that of the others.
  pub sweep-Swept :
      (match : IdleConn C → Bool) (why : IdleConn C → Discard) (c : Core C) (n held : ℕ)
      → Accounts c n 0 n held
      → let (c', k) = sweep match why shard_count 0 c in
        Swept c c' k n held
        × ((j : ℕ)
            → j < shard_count
            → (shard_at j c').conns ≡ select (λ ic. not (match ic)) (shard_at j c).conns)
  sweep-Swept match why c n held a =
      let (i, e, s, content) = sweep-SweptFrom match why shard_count 0 c n held a (omega arith) in
      (
        ground (arith, s, e),
        λ j h. elim (content j h) [ inl (_, same) ↦ same | inr (over, _) ↦ absurd (omega arith) ],
      )
