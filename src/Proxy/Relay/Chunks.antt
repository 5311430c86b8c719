-- ===== src/Proxy/Relay/Chunks.antt =====
-- examples/gpoolproxy/relay.go: a body that moves in passes is the body that moves at once.
use gpool.Base.{
  ℕ, zero, suc, ◌+◌, ◌-◌, min, ◌≤◌, ◌<◌, ◌≡◌, refl, ap, sym, ◌∙◌, [], ◌∷◌, ◌++◌, arith, leb, ◌==◌,
  length, Bytes, List, ◌⊎◌, inl, inr, Bool-cases,
}
use mathlib.Core.List.{append-nil, append_assoc}
use gpool.Proxy.Relay.{
  Result, ok, err, Fault, short_read, write_failed, Sink, take, drop, read_full, write, relay_chunk,
  copy_chunks, discard_body,
}

pub Result-cases {ℓ} :
    {A : Type ℓ} (r : Result A) → ((e : Fault) × (r ≡ err e)) ⊎ ((a : A) × (r ≡ ok a))
Result-cases (ok a) = inr (a, refl)
Result-cases (err e) = inl (e, refl)

pub length-take : (n : ℕ) (bs : Bytes) → n ≤ length bs → length (take n bs) ≡ n
length-take zero bs h = refl
length-take (suc n) [] h = omega arith
length-take (suc n) (b ∷ bs) h = ap suc (length-take n bs (omega arith))

pub length-drop : (n : ℕ) (bs : Bytes) → length (drop n bs) ≡ length bs - n
length-drop zero bs = omega arith
length-drop (suc n) [] = omega arith
length-drop (suc n) (b ∷ bs) = omega (arith, length-drop n bs)

pub drop-drop : (a b : ℕ) (bs : Bytes) → drop b (drop a bs) ≡ drop (a + b) bs
drop-drop zero b bs = ap (λ n. drop n bs) (omega arith)
drop-drop (suc a) zero [] = let e : suc a + zero ≡ suc a = omega arith in rw e refl
drop-drop (suc a) (suc b) [] = let e : suc a + suc b ≡ suc (a + suc b) = omega arith in rw e refl
drop-drop (suc a) b (x ∷ bs) =
    drop-drop a b bs
    ∙ ap (λ n. drop n (x ∷ bs)) (let e : suc (a + b) ≡ suc a + b = omega arith in e)

pub take-append-drop : (n : ℕ) (bs : Bytes) → take n bs ++ drop n bs ≡ bs
take-append-drop zero bs = refl
take-append-drop (suc n) [] = refl
take-append-drop (suc n) (b ∷ bs) = ap (λ r. b ∷ r) (take-append-drop n bs)

pub take-drop : (a b : ℕ) (bs : Bytes) → take a bs ++ take b (drop a bs) ≡ take (a + b) bs
take-drop zero b bs = ap (λ n. take n bs) (omega arith)
take-drop (suc a) zero [] = let e : suc a + zero ≡ suc a = omega arith in rw e refl
take-drop (suc a) (suc b) [] = let e : suc a + suc b ≡ suc (a + suc b) = omega arith in rw e refl
take-drop (suc a) b (x ∷ bs) =
    ap (λ r. x ∷ r) (take-drop a b bs)
    ∙ ap (λ n. take n (x ∷ bs)) (let e : suc (a + b) ≡ suc a + b = omega arith in e)

-- What all Write calls of a writer were given, in order.
abbrev pub written : List Bytes → Bytes
written [] = []
written (bs ∷ more) = bs ++ written more

pub written-append : (ws : List Bytes) (bs : Bytes) → written (ws ++ bs ∷ []) ≡ written ws ++ bs
written-append [] bs = append-nil bs
written-append (w ∷ ws) bs =
    ap (λ r. w ++ r) (written-append ws bs) ∙ sym (append_assoc w (written ws) bs)

-- What a loop over `n` bytes gives: it moved just these, or it says what was missing.
abbrev pub Moved : ℕ → Bytes → Sink → Result (Bytes × Sink) → Type 0
Moved n src dst (ok (rest, dst')) =
    (n ≤ length src)
    × (n ≤ dst.room)
    × (rest ≡ drop n src)
    × (dst'.room ≡ dst.room - n)
    × (written dst'.writes ≡ written dst.writes ++ take n src)
Moved n src dst (err e) =
    ((e ≡ short_read) × (length src < n)) ⊎ ((e ≡ write_failed) × (dst.room < n))

Moved-after :
    (c n : ℕ) (src : Bytes) (dst : Sink) (r : Result (Bytes × Sink))
    → c ≤ n
    → c ≤ length src
    → c ≤ dst.room
    → Moved
        (n - c)
        (drop c src)
        (record { writes = dst.writes ++ take c src ∷ []; room = dst.room - c })
        r
    → Moved n src dst r
Moved-after c n src dst (ok (rest, dst')) h k l (a, b, e, q, w) =
    let all : c + (n - c) ≡ n = omega arith in
    (
      omega (arith, a, length-drop c src),
      omega (arith, b),
      e ∙ drop-drop c (n - c) src ∙ ap (λ m. drop m src) all,
      omega (arith, q),
      w
          ∙ ap (λ t. t ++ take (n - c) (drop c src)) (written-append dst.writes (take c src))
          ∙ append_assoc (written dst.writes) (take c src) (take (n - c) (drop c src))
          ∙ ap (λ t. written dst.writes ++ t) (take-drop c (n - c) src ∙ ap (λ m. take m src) all),
    )
Moved-after c n src dst (err e) h k l (inl (f, s)) = inl (f, omega (arith, s, length-drop c src))
Moved-after c n src dst (err e) h k l (inr (f, s)) = inr (f, omega (arith, s))

-- Moving a body in passes moves the whole body and nothing else, whatever its length, unless the
-- source ends early or the destination fails; more rounds than bytes are always enough.
pub copy_chunks-Moved :
    (fuel n : ℕ) (src : Bytes) (dst : Sink)
    → n < fuel
    → Moved n src dst (copy_chunks fuel n src dst)
unfolding copy_chunks read_full write
copy_chunks-Moved zero n src dst h = elim h [ ]
copy_chunks-Moved (suc fuel) n src dst h = elim (Bool-cases (n == 0)) [
  | inl done ↦
      let e : n ≡ 0 = ground arith in
      rw (e, append-nil (written dst.writes)) (omega arith, omega arith, refl, omega arith, refl)
  | inr more ↦ rw more (elim (Bool-cases (leb (min n relay_chunk) (length src))) [
    | inr lacks ↦ rw lacks (inl (refl, ground arith))
    | inl there ↦
        rw there (elim (Bool-cases (leb (length (take (min n relay_chunk) src)) dst.room)) [
          | inr full ↦ rw full (inr (refl, ground (arith, length-take (min n relay_chunk) src)))
          | inl fits ↦
              let c : ℕ = min n relay_chunk in
              let len : length (take c src) ≡ c = ground (arith, there, length-take c src) in
              rw (fits, len)
                (Moved-after c n src dst _ (omega arith) (ground arith) (ground (arith, fits, len))
                  (copy_chunks-Moved fuel (n - c) (drop c src) _ (ground arith)))
        ])
  ])
]

-- Dropping a body in passes drops just its bytes, or finds that the source ends early.
pub discard_body-drop :
    (fuel n : ℕ) (src : Bytes)
    → n < fuel
    → ((n ≤ length src) × (discard_body fuel n src ≡ ok (drop n src)))
      ⊎ ((length src < n) × (discard_body fuel n src ≡ err short_read))
unfolding discard_body read_full
discard_body-drop zero n src h = elim h [ ]
discard_body-drop (suc fuel) n src h = elim (Bool-cases (n == 0)) [
  | inl done ↦ let e : n ≡ 0 = ground arith in rw e (inl (omega arith, refl))
  | inr more ↦ rw more (elim (Bool-cases (leb (min n relay_chunk) (length src))) [
    | inr lacks ↦ rw lacks (inr (ground arith, refl))
    | inl there ↦
        let c : ℕ = min n relay_chunk in
        let all : c + (n - c) ≡ n = omega arith in
        rw there (elim (discard_body-drop fuel (n - c) (drop c src) (ground arith)) [
          | inl (fits, e) ↦ inl (
            ground (arith, fits, there, length-drop c src),
            e ∙ ap ok (drop-drop c (n - c) src ∙ ap (λ m. drop m src) all),
          )
          | inr (lacks, e) ↦ inr (omega (arith, lacks, length-drop c src), e)
        ])
  ])
]
