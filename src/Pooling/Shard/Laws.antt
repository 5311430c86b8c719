-- ===== src/Pooling/Shard/Laws.antt =====
-- pkg/pooling/shard.go: a shard is a stack whose length its counter mirrors.
use mathlib.Core.List.{append-nil, append_assoc}
use gpool.Base.{
  ◌≡◌, refl, ap, ◌⊎◌, inl, inr, Bool, not, List, [], ◌∷◌, ◌++◌, Option, none, some, arith, ◌==◌,
  if◌then◌else◌, length, split_last, length-append, Bool-cases,
}
use gpool.Pooling.Conn.{IdleConn}
use gpool.Pooling.Shard.{Shard, with_conns, pop, push, partition, take_if}

module _ {ℓ} {A : Type ℓ} where
  abbrev Splits : List A → Option (List A × A) → Type ℓ
  Splits xs r =
      ((xs ≡ []) × (r ≡ none))
      ⊎ ((ys : List A) × (y : A) × (xs ≡ ys ++ y ∷ []) × (r ≡ some (ys, y)))

  split_last-Splits : (xs : List A) → Splits xs (split_last xs)
  split_last-Splits [] = inl (refl, refl)
  split_last-Splits (x ∷ xs) = elim (split_last-Splits xs) [
    | inl (e, r) ↦ inr ([], x, ap (◌∷◌ x) e, rw r)
    | inr (ys, y, e, r) ↦ inr (x ∷ ys, y, ap (◌∷◌ x) e, rw r)
  ]

  split_last-append : (xs : List A) (x : A) → split_last (xs ++ x ∷ []) ≡ some (xs, x)
  split_last-append [] x = refl
  split_last-append (y ∷ ys) x = rw (split_last-append ys x)

  -- The elements that a Boolean test accepts, in their order.
  abbrev pub select : (A → Bool) → List A → List A
  select p [] = []
  select p (x ∷ xs) = if p x then x ∷ select p xs else select p xs

module _ {ℓ} {C : Type ℓ} where
  -- The counter mirrors the length.
  abbrev pub IsMirrored : Shard C → Type 0
  IsMirrored s = s.count ≡ length s.conns

  -- What `pop` does: nothing on an empty shard, and otherwise it splits off the last connection.
  abbrev pub Pops : Shard C → Shard C × Option (IdleConn C) → Type ℓ
  Pops s r =
      ((s.conns ≡ []) × (r ≡ (s, none)))
      ⊎ ((rest : List (IdleConn C)) × (ic : IdleConn C) × (s.conns ≡ rest ++ ic ∷ [])
          × (r ≡ (with_conns rest, some ic)))

  length-zero : (xs : List (IdleConn C)) → length xs ≡ 0 → xs ≡ []
  length-zero [] e = refl
  length-zero (x ∷ xs) e = absurd (omega arith)

  pub pop-Pops : (s : Shard C) → IsMirrored s → Pops s (pop s)
  unfolding pop
  pop-Pops s m = elim (split_last-Splits s.conns) [
    | inl (e, r) ↦ inl (e, ground (arith, ap length e))
    | inr (rest, ic, e, r) ↦
        inr (rest, ic, e, ground (arith, r, ap length e, length-append rest (ic ∷ [])))
  ]

  -- A released connection is the next to be acquired, and leaves the shard as it was.
  pub pop-push : (s : Shard C) (ic : IdleConn C) → IsMirrored s → pop (push s ic) ≡ (s, some ic)
  unfolding pop push
  pop-push s ic m = ground (arith, split_last-append s.conns ic, length-append s.conns (ic ∷ []))

  partition-select :
      (match : IdleConn C → Bool) (kept taken xs : List (IdleConn C))
      → partition match kept taken xs
        ≡ (kept ++ select (λ ic. not (match ic)) xs, taken ++ select match xs)
  unfolding partition
  partition-select match kept taken [] = simp append-nil
  partition-select match kept taken (x ∷ xs) = elim (Bool-cases (match x)) [
    | inl e ↦ rw e (simp (partition-select match kept (taken ++ x ∷ []) xs, append_assoc))
    | inr e ↦ rw e (simp (partition-select match (kept ++ x ∷ []) taken xs, append_assoc))
  ]

  -- The matching connections leave and the others stay, both in the slice's order.
  pub take_if-select :
      (match : IdleConn C → Bool) (s : Shard C)
      → IsMirrored s
      → take_if match s ≡ (with_conns (select (λ ic. not (match ic)) s.conns), select match s.conns)
  unfolding take_if
  take_if-select match s m = elim (Bool-cases (s.count == 0)) [
    | inl e ↦ let f = length-zero s.conns (ground arith) in rw e (ground (arith, f))
    | inr e ↦ rw e (ground (arith, partition-select match [] [] s.conns))
  ]
