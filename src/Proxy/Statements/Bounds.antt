-- ===== src/Proxy/Statements/Bounds.antt =====
-- examples/gpoolproxy/statements.go: a set of statements never outgrows its limit, and what was
-- remembered last is found.
use gpool.Base.{
  ℕ, suc, ◌≤◌, ◌<◌, ◌≡◌, refl, sym, ap, ◌⊎◌, inl, inr, true, false, ◌&&◌, [], ◌∷◌, Option, none,
  some, arith, if_both, length, pos, lt_int, le_int, Bytes, same_bytes, same_bytes_refl, get, put,
  del, get-put, Bool-cases, Option-cases,
}
use gpool.Proxy.Statements.Recency.{Has, evict-Since}
use gpool.Proxy.Statements.{Statement, Statements, Held, make_room, remember, lookup, next_use}

-- With a limit, no more statements than that; any other limit bounds nothing.
abbrev pub Bounded : Statements → Type 0
Bounded s = (lt_int (pos 0) s.limit ≡ false) ⊎ (le_int (pos (length s.by_name)) s.limit ≡ true)

length-put :
    (m : Held) (k : Bytes) (v : Statement)
    → ((get same_bytes m k ≡ none) × (length (put same_bytes m k v) ≡ suc (length m)))
      ⊎ ((w : Statement) × (get same_bytes m k ≡ some w)
          × (length (put same_bytes m k v) ≡ length m))
length-put [] k v = inl (refl, refl)
length-put ((a, w) ∷ m) k v = elim (Bool-cases (same_bytes a k)) [
  | inl e ↦ rw e (inr (w, refl, refl))
  | inr e ↦ rw e (elim (length-put m k v) [
    | inl (n, l) ↦ inl (n, ap suc l)
    | inr (x, n, l) ↦ inr (x, n, ap suc l)
  ])
]

length-del : (m : Held) (k : Bytes) → length (del same_bytes m k) ≤ length m
length-del [] k = omega arith
length-del ((a, w) ∷ m) k = elim (Bool-cases (same_bytes a k)) [
  | inl e ↦ rw e (omega (arith, length-del m k))
  | inr e ↦ rw e (omega (arith, length-del m k))
]

length-del-Has : (m : Held) (k : Bytes) (u : ℕ) → Has k u m → length (del same_bytes m k) < length m
length-del-Has [] k u h = elim h [ ]
length-del-Has ((a, w) ∷ m) k u (inl (e, _)) =
    let f : same_bytes a k ≡ true = rw (sym e) (same_bytes_refl a) in
    rw f (omega (arith, length-del m k))
length-del-Has ((a, w) ∷ m) k u (inr h) = elim (Bool-cases (same_bytes a k)) [
  | inl e ↦ rw e (omega (arith, length-del m k))
  | inr e ↦ rw e (omega (arith, length-del-Has m k u h))
]

-- There is room for one more, or the limit bounds nothing.
make_room-Bounded :
    (s : Statements)
    → Bounded s
    → (lt_int (pos 0) s.limit ≡ false)
      ⊎ (le_int (pos (suc (length (make_room s).0))) s.limit ≡ true)
unfolding make_room
make_room-Bounded s b =
    if_both Roomy (lt_int (pos 0) s.limit && le_int s.limit (pos (length s.by_name))) _ _
      (λ h. elim (evict-Since s.by_name) [
        | inl (e, _) ↦ ground (arith, h, b, ap length e)
        | inr (name, u, e, has, _) ↦
            rw e (ground (arith, h, b, length-del-Has s.by_name name u has))
      ])
      (λ h. ground (arith, h, b))
  where
    Roomy : Held × Option Bytes → Type 0
    Roomy r = (lt_int (pos 0) s.limit ≡ false) ⊎ (le_int (pos (suc (length r.0))) s.limit ≡ true)

-- Whatever is remembered, under whatever name, a set within its limit stays within it.
pub remember-Bounded :
    (name message : Bytes) (s : Statements) → Bounded s → Bounded (remember name message s).0
unfolding remember
remember-Bounded [] message s b = b
remember-Bounded (x ∷ name) message s b =
    let entry : Statement = record { message = message; used = next_use s } in
    let room = (make_room s).0 in
    elim (Option-cases (get same_bytes s.by_name (x ∷ name))) [
      | inl e ↦
          rw (e, remember) (ground (arith, make_room-Bounded s b, length-put room (x ∷ name) entry))
      | inr (held, e) ↦
          rw (e, remember) (ground (arith, b, length-put s.by_name (x ∷ name) entry, e))
    ]

-- What was remembered under a name is what a lookup of that name replays, whatever had to be
-- discarded to make room for it. The unnamed statement is never remembered.
pub lookup-remember :
    (b : ℕ) (name message : Bytes) (s : Statements)
    → (lookup (b ∷ name) (remember (b ∷ name) message s).0).1 ≡ some message
unfolding remember lookup
lookup-remember b name message s =
    let entry : Statement = record { message = message; used = next_use s } in
    let found = λ (m : Held). get-put same_bytes m (b ∷ name) entry (same_bytes_refl (b ∷ name)) in
    elim (Option-cases (get same_bytes s.by_name (b ∷ name))) [
      | inl e ↦ rw (e, remember) (rw (found (make_room s).0, lookup) refl)
      | inr (held, e) ↦ rw (e, remember) (rw (found s.by_name, lookup) refl)
    ]
