-- ===== src/Proxy/Relay/Frames.antt =====
-- examples/gpoolproxy/relay.go: whole messages, moved, kept or dropped.
use mathlib.Core.List.{append-nil, append_assoc}
use gpool.Base.{
  ℕ, suc, ◌+◌, ◌-◌, ◌≤◌, ◌<◌, ◌≡◌, refl, ap, sym, ◌∙◌, true, false, [], ◌∷◌, ◌++◌, arith, leb, ◌==◌,
  length, length-append, Bytes, ◌⊎◌, ◌↔◌, inl, inr, Bool-cases,
}
use gpool.Proxy.Wire.{put_uint32}
use gpool.Proxy.Relay.{
  Result, ok, err, out_of_range, Sink, take, drop, read_full, write, relay_chunk, copy_chunks,
  discard_body, Header, header_bytes, read_header, forward_body, forward, frame, uint32,
  max_message_len, header_size,
}
use gpool.Proxy.Relay.Chunks.{written, written-append, Moved, copy_chunks-Moved, discard_body-drop}

pub take-append : (xs ys : Bytes) → take (length xs) (xs ++ ys) ≡ xs
take-append [] ys = refl
take-append (x ∷ xs) ys = ap (λ r. x ∷ r) (take-append xs ys)

pub drop-append : (xs ys : Bytes) → drop (length xs) (xs ++ ys) ≡ ys
drop-append [] ys = refl
drop-append (x ∷ xs) ys = drop-append xs ys

pub read_full-append : (xs ys : Bytes) → read_full (length xs) (xs ++ ys) ≡ ok (xs, ys)
unfolding read_full
read_full-append xs ys =
    let fits : leb (length xs) (length (xs ++ ys)) ≡ true = ground (arith, length-append xs ys) in
    rw (fits, take-append xs ys, drop-append xs ys) refl

-- The same, at a list that is spelled otherwise.
pub read_full-at :
    (n : ℕ) (src xs ys : Bytes) → n ≡ length xs → src ≡ xs ++ ys → read_full n src ≡ ok (xs, ys)
read_full-at n src xs ys e f = rw (e, f) (read_full-append xs ys)

-- The header of a message, once it is read.
abbrev pub header_of : ℕ → Bytes → Header
header_of kind body = record { kind = kind; spelled = put_uint32 (length body + 4) }

pub uint32-put_uint32 : (n : ℕ) → n ≤ max_message_len → uint32 (put_uint32 n) ≡ n
unfolding put_uint32
uint32-put_uint32 n h = omega arith

pub length-put_uint32 : (n : ℕ) → length (put_uint32 n) ≡ 4
unfolding put_uint32
length-put_uint32 n = refl

-- The header of any message within the limit is read as its letter and the length of its body.
pub read_header-frame :
    (kind : ℕ) (body rest : Bytes)
    → length body + 4 ≤ max_message_len
    → read_header (frame kind body ++ rest) ≡ ok (header_of kind body, length body, body ++ rest)
unfolding read_header
read_header-frame kind body rest h =
    let n : ℕ = length body + 4 in
    let reads : read_full header_size (frame kind body ++ rest)
        ≡ ok (kind ∷ put_uint32 n, body ++ rest) =
      read_full-at header_size (frame kind body ++ rest) (kind ∷ put_uint32 n) (body ++ rest)
        (omega (arith, length-put_uint32 n))
        (ap (λ r. kind ∷ r) (append_assoc (put_uint32 n) body rest)) in
    rw (reads, uint32-put_uint32 n h) (ground arith)

pub write-fits :
    (bs : Bytes) (dst : Sink)
    → length bs ≤ dst.room
    → write bs dst ≡ ok (record { writes = dst.writes ++ bs ∷ []; room = dst.room - length bs })
unfolding write
write-fits bs dst h = ground arith

-- What `forwardBody` gives for a body that arrives whole and that the destination takes.
abbrev pub Forwarded : Header → Bytes → Bytes → Sink → Result (Bytes × Bytes × Sink) → Type 0
Forwarded h body rest dst r =
    (out : Bytes) × (dst' : Sink) × (r ≡ ok (out, rest, dst'))
    × (written dst'.writes ≡ written dst.writes ++ (header_bytes h ++ body))
    × (length body ≤ relay_chunk → out ≡ body)
    × (dst'.room ≡ dst.room - (length (header_bytes h) + length body))

in_passes :
    (h : Header) (body rest : Bytes) (dst : Sink) (r : Result (Bytes × Sink))
    → relay_chunk < length body
    → length body ≤ dst.room
    → Moved (length body) (body ++ rest) dst r
    → (dst' : Sink) × (r ≡ ok (rest, dst'))
      × (written dst'.writes ≡ written dst.writes ++ body)
      × (dst'.room ≡ dst.room - length body)
in_passes h body rest dst (ok (src, dst')) big fits (_, _, e, q, w) = (
  dst',
  ap (λ s. ok (s, dst')) (e ∙ drop-append body rest),
  w ∙ ap (λ t. written dst.writes ++ t) (take-append body rest),
  q,
)
in_passes h body rest dst (err e) big fits (inl (_, lacks)) =
    absurd (omega (arith, lacks, length-append body rest))
in_passes h body rest dst (err e) big fits (inr (_, full)) = absurd (omega arith)

-- A whole message arrives whole: the destination is given the header and the body, and nothing of
-- what follows is read.
pub forward_body-Forwarded :
    (h : Header) (body rest : Bytes) (dst : Sink)
    → length (header_bytes h) + length body ≤ dst.room
    → Forwarded h body rest dst (forward_body h (length body) (body ++ rest) dst)
unfolding forward_body
forward_body-Forwarded h [] rest dst room = rw (write-fits (header_bytes h) dst (omega arith)) (
  [],
  record { writes = dst.writes ++ header_bytes h ∷ []; room = dst.room - length (header_bytes h) },
  refl,
  written-append dst.writes (header_bytes h)
      ∙ ap (λ t. written dst.writes ++ t) (sym (append-nil (header_bytes h))),
  λ _. refl,
  omega arith,
)
forward_body-Forwarded h (b ∷ bs) rest dst room =
    let body : Bytes = b ∷ bs in
    let dst' : Sink = record {
      writes = dst.writes ++ header_bytes h ∷ [];
      room = dst.room - length (header_bytes h);
    } in
    let joined : written dst'.writes ++ body ≡ written dst.writes ++ (header_bytes h ++ body) =
      ap (λ t. t ++ body) (written-append dst.writes (header_bytes h))
      ∙ append_assoc (written dst.writes) (header_bytes h) body in
    let more : (suc (length bs) == 0) ≡ false = ground arith in
    rw (write-fits (header_bytes h) dst (omega arith), more)
      (elim (Bool-cases (leb (length body) relay_chunk)) [
        | inl one ↦
            rw (one, read_full-append body rest, write-fits body dst' (omega arith))
              (
                body,
                record { writes = dst'.writes ++ body ∷ []; room = dst'.room - length body },
                refl,
                written-append dst'.writes body ∙ joined,
                λ _. refl,
                omega arith,
              )
        | inr many ↦
            let moved =
              in_passes h body rest dst'
                (copy_chunks (suc (length body)) (length body) (body ++ rest) dst') (ground arith)
                (omega arith)
                (copy_chunks-Moved (suc (length body)) (length body) (body ++ rest) dst'
                  (omega arith)) in
            rw (many, moved.1)
              (
                [],
                moved.0,
                refl,
                moved.2 ∙ joined,
                λ small. absurd (ground (arith, many)),
                omega (arith, moved.3),
              )
      ])

pub discard_body-append :
    (body rest : Bytes) → discard_body (suc (length body)) (length body) (body ++ rest) ≡ ok rest
discard_body-append body rest =
    elim (discard_body-drop (suc (length body)) (length body) (body ++ rest) (omega arith)) [
      | inl (_, e) ↦ e ∙ ap ok (drop-append body rest)
      | inr (lacks, _) ↦ absurd (omega (arith, lacks, length-append body rest))
    ]

-- A message within the limit goes through unchanged: the destination is given exactly its bytes,
-- what follows it is left, and a body that fits one chunk comes back, as that of ReadyForQuery.
pub forward-frame :
    (kind : ℕ) (body rest : Bytes) (dst : Sink)
    → length body + 4 ≤ max_message_len
    → length body + 5 ≤ dst.room
    → (out : Bytes) × (dst' : Sink) × (forward (frame kind body ++ rest) dst
        ≡ ok (kind, out, rest, dst'))
      × (written dst'.writes ≡ written dst.writes ++ frame kind body)
      × (length body ≤ relay_chunk → out ≡ body)
unfolding forward
forward-frame kind body rest dst small room =
    let h : Header = header_of kind body in
    let (out, dst', e, w, one, _) =
      forward_body-Forwarded h body rest dst (omega (arith, length-put_uint32 (length body + 4))) in
    (out, dst', rw (read_header-frame kind body rest small, e) refl, w, one)

-- A length field is refused exactly when it is below 4 or above the limit, and the refusal names it.
pub read_header-range :
    (kind a b c d : ℕ) (rest : Bytes)
    → let n : ℕ = uint32 (a ∷ b ∷ c ∷ d ∷ []) in
      ((n < 4) ⊎ (max_message_len < n))
      ↔ (read_header (kind ∷ a ∷ b ∷ c ∷ d ∷ rest) ≡ err (out_of_range n))
unfolding read_header
read_header-range kind a b c d rest =
    let five : Bytes = kind ∷ a ∷ b ∷ c ∷ d ∷ [] in
    rw (read_full-at header_size (five ++ rest) five rest (omega arith) refl) (ground arith)
