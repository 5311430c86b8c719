-- ===== src/Proxy/Backend/Draining.antt =====
-- examples/gpoolproxy/backend.go: the drain ends, and ends at ReadyForQuery.
use mathlib.Core.List.{append_assoc}
use gpool.Base.{
  ℕ, zero, suc, ◌+◌, ◌-◌, ◌≤◌, ◌<◌, ◌≡◌, ◌≢◌, ◌⊎◌, inl, inr, refl, ap, false, not, ◌||◌, List, [],
  ◌∷◌, ◌++◌, arith, ltb, leb, ◌==◌, if◌then◌else◌, length, Bytes, Bool-cases, if_both,
}
use gpool.Proxy.Wire.{put_uint32}
use gpool.Proxy.Relay.{
  Fault, out_of_fuel, not_idle, short_read, Result, ok, err, take, drop, read_full, header_size,
  max_message_len, msg_ready_for_query, tx_idle, frame, uint32, held_header,
}
use gpool.Proxy.Relay.Chunks.{length-drop}
use gpool.Proxy.Relay.Frames.{read_full-at, read_full-append, length-put_uint32, uint32-put_uint32}
use gpool.Proxy.Backend.{Backend, read_status, drain_to_ready}

pub read_full-cases :
    (n : ℕ) (src : Bytes)
    → (read_full n src ≡ err short_read)
      ⊎ ((n ≤ length src) × (read_full n src ≡ ok (take n src, drop n src)))
unfolding read_full
read_full-cases n src = elim (Bool-cases (leb n (length src))) [
  | inl there ↦ rw there (inr (ground arith, refl))
  | inr lacks ↦ rw lacks (inl refl)
]

-- What a drain gives: an idle connection, or an error that says why not.
pub data Drained (b : Backend) : Backend × Result (Unit {0}) → Type 0 where
  idle : {b' : Backend} → b'.tx_status ≡ tx_idle → b'.broken ≡ b.broken → Drained b (b', ok tt)
  failed : {b' : Backend} {e : Fault} → e ≢ out_of_fuel → Drained b (b', err e)

read_status-Drained : (b : Backend) (src : Bytes) → Drained b (read_status b src)
unfolding read_status
read_status-Drained b src = elim (read_full-cases 1 src) [
  | inl e ↦ rw (e, read_status) (failed (λ q. cc))
  | inr (_, e) ↦
      rw (e, read_status)
        (elim (Bool-cases ((held_header (take 1 src)).kind == tx_idle)) [
          | inl is_idle ↦ rw is_idle (idle (ground arith) refl)
          | inr open_tx ↦ rw open_tx (failed (λ q. cc))
        ])
]

Drained-from :
    {b : Backend} {src : Bytes} {r : Backend × Result (Unit {0})}
    → Drained (record b { reader = src }) r
    → Drained b r
Drained-from (idle i s) = idle i s
Drained-from (failed n) = failed n

-- However many messages the server sends and wherever its stream ends, the drain ends, with as many
-- rounds as there are bytes; it succeeds only at a status that is idle.
pub drain_to_ready-Drained :
    (fuel : ℕ) (b : Backend) → length b.reader < fuel → Drained b (drain_to_ready fuel b)
unfolding drain_to_ready
drain_to_ready-Drained zero b h = elim h [ ]
drain_to_ready-Drained (suc fuel) b h = elim (read_full-cases header_size b.reader) [
  | inl e ↦ rw (e, drain_to_ready) (failed (λ q. cc))
  | inr (five, e) ↦
      let src : Bytes = drop header_size b.reader in
      let n : ℕ = uint32 (held_header (take header_size b.reader)).spelled in
      let left : length src < fuel = omega (arith, length-drop header_size b.reader) in
      rw (e, drain_to_ready)
        (if_both (Drained b) (ltb n 4 || ltb max_message_len (n - 4)) _ _ (λ _. failed (λ q. cc))
          (λ _.
            if_both (Drained b)
              (not ((held_header (take header_size b.reader)).kind == msg_ready_for_query)) _ _
              (λ _. elim (read_full-cases (n - 4) src) [
                | inl f ↦ rw f (failed (λ q. cc))
                | inr (_, f) ↦ rw f (
                    Drained-from (
                      drain_to_ready-Drained fuel (record b { reader = drop (n - 4) src })
                        (omega (arith, left, length-drop (n - 4) src))))
              ])
              (λ _. read_status-Drained b src)))
]

-- The bytes of messages one after another, and of what follows.
abbrev pub wire : List (ℕ × Bytes) → Bytes → Bytes
wire [] rest = rest
wire ((kind, body) ∷ more) rest = frame kind body ++ wire more rest

-- No ReadyForQuery, and every length within the limit.
abbrev pub Skippable : List (ℕ × Bytes) → Type 0
Skippable [] = Unit {0}
Skippable ((kind, body) ∷ more) =
    ((kind == msg_ready_for_query) ≡ false) × (length body + 4 ≤ max_message_len) × Skippable more

header_read :
    (kind : ℕ) (body rest : Bytes)
    → read_full header_size (frame kind body ++ rest)
      ≡ ok (kind ∷ put_uint32 (length body + 4), body ++ rest)
header_read kind body rest =
    read_full-at header_size (frame kind body ++ rest) (kind ∷ put_uint32 (length body + 4))
      (body ++ rest) (omega (arith, length-put_uint32 (length body + 4)))
      (ap (λ r. kind ∷ r) (append_assoc (put_uint32 (length body + 4)) body rest))

read_status-append :
    (b : Backend) (status : ℕ) (rest : Bytes)
    → read_status b (status ∷ rest) ≡ (
      record b { reader = rest; tx_status = status },
      if status == tx_idle then ok tt else err (not_idle status),
    )
unfolding read_status
read_status-append b status rest =
    rw (read_full-at 1 (status ∷ rest) (status ∷ []) rest (omega arith) refl, read_status)
      (elim (Bool-cases (status == tx_idle)) [ inl e ↦ rw e refl | inr e ↦ rw e refl ])

-- Whatever the server answers before it is ready, the drain skips, and then takes the status over:
-- it succeeds exactly when that is idle, and what follows is left to be read.
pub drain_to_ready-wire :
    (fuel : ℕ) (before : List (ℕ × Bytes)) (status : ℕ) (rest : Bytes) (b : Backend)
    → length before < fuel
    → Skippable before
    → b.reader ≡ wire before (frame msg_ready_for_query (status ∷ []) ++ rest)
    → drain_to_ready fuel b ≡ (
      record b { reader = rest; tx_status = status },
      if status == tx_idle then ok tt else err (not_idle status),
    )
unfolding drain_to_ready
drain_to_ready-wire zero before status rest b h sk e = elim h [ ]
drain_to_ready-wire (suc fuel) [] status rest b h sk e =
    rw (e, drain_to_ready)
      (rw (header_read msg_ready_for_query (status ∷ []) rest, uint32-put_uint32 5 (omega arith))
        (read_status-append b status rest))
drain_to_ready-wire (suc fuel) ((kind, body) ∷ more) status rest b h (other, small, sk) e =
    let after : Bytes = wire more (frame msg_ready_for_query (status ∷ []) ++ rest) in
    let n : ℕ = length body + 4 in
    let long : n - 4 ≡ length body = omega arith in
    let fits : (ltb n 4 || ltb max_message_len (n - 4)) ≡ false = ground arith in
    rw (e, drain_to_ready)
      (rw
        (
          header_read kind body after,
          uint32-put_uint32 n small,
          fits,
          other,
          long,
          read_full-append body after,
        )
        (drain_to_ready-wire fuel more status rest (record b { reader = after }) (omega arith) sk
          refl))
