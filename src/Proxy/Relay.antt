-- ===== src/Proxy/Relay.antt =====
-- examples/gpoolproxy/relay.go: moving messages between two sockets without decoding them.
--
-- A reader is the list of the bytes that arrive before its connection ends. A writer keeps the
-- arguments of its Write calls; one that would go past what its connection still takes fails.
pub mod Chunks
pub mod Frames
use gpool.Base.{
  ℕ, zero, suc, ◌+◌, ◌-◌, ◌*◌, min, Bool, ◌||◌, List, [], ◌∷◌, ◌++◌, ltb, leb, ◌==◌, if◌then◌else◌,
  length, Bytes,
}
use gpool.Proxy.Wire.{put_uint32}

pub data Fault : Type 0 where
  short_read : Fault
  out_of_range : ℕ → Fault
  write_failed : Fault
  no_backend : Fault
  not_idle : ℕ → Fault
  out_of_fuel : Fault

pub data Result {ℓ} (A : Type ℓ) : Type ℓ where
  ok : A → Result A
  err : Fault → Result A

infixl 5 ◌>>=◌
abbrev pub ◌>>=◌ {ℓ κ} : {A : Type ℓ} {B : Type κ} → Result A → (A → Result B) → Result B
ok a >>= f = f a
err e >>= f = err e

pub record Sink : Type 0 where
  pub writes : List Bytes
  pub room : ℕ

abbrev pub take : ℕ → Bytes → Bytes
take zero bs = []
take (suc n) [] = []
take (suc n) (b ∷ bs) = b ∷ take n bs

abbrev pub drop : ℕ → Bytes → Bytes
drop zero bs = bs
drop (suc n) [] = []
drop (suc n) (b ∷ bs) = drop n bs

-- io.ReadFull of a number of bytes: those, and what is left.
unfoldable pub read_full : ℕ → Bytes → Result (Bytes × Bytes)
read_full n src = if leb n (length src) then ok (take n src, drop n src) else err short_read

unfoldable pub write : Bytes → Sink → Result Sink
write bs dst =
    if leb (length bs) dst.room
    then ok (record { writes = dst.writes ++ bs ∷ []; room = dst.room - length bs })
    else err write_failed

abbrev pub header_size : ℕ
header_size = 5

abbrev pub relay_chunk : ℕ
relay_chunk = 4096

abbrev pub max_message_len : ℕ
max_message_len = 268_435_456

-- The letters Q, S, F, X and Z.
abbrev pub msg_query : ℕ
msg_query = 81

abbrev pub msg_sync : ℕ
msg_sync = 83

abbrev pub msg_function_call : ℕ
msg_function_call = 70

abbrev pub msg_terminate : ℕ
msg_terminate = 88

abbrev pub msg_ready_for_query : ℕ
msg_ready_for_query = 90

-- The status I.
abbrev pub tx_idle : ℕ
tx_idle = 73

unfoldable pub ends_transaction_unit : ℕ → Bool
ends_transaction_unit kind = kind == msg_query || (kind == msg_sync || kind == msg_function_call)

-- The header that a relay holds: its letter and its four bytes of length.
pub record Header : Type 0 where
  pub kind : ℕ
  pub spelled : Bytes

abbrev pub header_bytes : Header → Bytes
header_bytes h = h.kind ∷ h.spelled

-- The number that four bytes spell, big end first; no other number of bytes is read.
abbrev pub uint32 : Bytes → ℕ
uint32 (a ∷ b ∷ c ∷ d ∷ rest) = a * 16_777_216 + b * 65_536 + c * 256 + d
uint32 bs = 0

abbrev pub held_header : Bytes → Header
held_header [] = record { kind = 0; spelled = [] }
held_header (b ∷ bs) = record { kind = b; spelled = bs }

-- The header, the length of the body, and what is left to read.
unfoldable pub read_header : Bytes → Result (Header × ℕ × Bytes)
read_header src = do
  (bytes, rest) ← read_full header_size src
  let h = held_header bytes
  let n : ℕ = uint32 h.spelled
  if ltb n 4 || ltb max_message_len n then err (out_of_range n) else ok (h, n - 4, rest)

-- The loop of `forwardBody` over the bytes remaining, on fuel.
unfoldable pub copy_chunks : ℕ → ℕ → Bytes → Sink → Result (Bytes × Sink)
copy_chunks zero remaining src dst = err out_of_fuel
copy_chunks (suc fuel) remaining src dst =
    let chunk : ℕ = min remaining relay_chunk in
    let more : Result (Bytes × Sink) =
      (read_full chunk src >>= λ r.
      write r.0 dst >>= λ dst'. copy_chunks fuel (remaining - chunk) r.1 dst') in
    if remaining == 0 then ok (src, dst) else more

-- The body where it fits one chunk, what is left to read, and the writer.
unfoldable pub forward_body : Header → ℕ → Bytes → Sink → Result (Bytes × Bytes × Sink)
forward_body h body_len src dst = do
  dst' ← write (header_bytes h) dst
  if body_len == 0
      then ok ([], src, dst')
      else if leb body_len relay_chunk
      then (read_full body_len src >>= λ r. write r.0 dst' >>= λ dst''. ok (r.0, r.1, dst''))
      else (copy_chunks (suc body_len) body_len src dst' >>= λ r. ok ([], r.0, r.1))

-- The whole message, and what is left to read.
unfoldable pub read_body : Header → ℕ → Bytes → Result (Bytes × Bytes)
read_body h body_len src = do
  (body, rest) ← read_full body_len src
  ok (header_bytes h ++ body, rest)

unfoldable pub discard_body : ℕ → ℕ → Bytes → Result Bytes
discard_body zero body_len src = err out_of_fuel
discard_body (suc fuel) body_len src =
    let chunk : ℕ = min body_len relay_chunk in
    let more : Result Bytes =
      (read_full chunk src >>= λ r. discard_body fuel (body_len - chunk) r.1) in
    if body_len == 0 then ok src else more

unfoldable pub forward : Bytes → Sink → Result (ℕ × Bytes × Bytes × Sink)
forward src dst = do
  (h, body_len, rest) ← read_header src
  (body, rest', dst') ← forward_body h body_len rest dst
  ok (h.kind, body, rest', dst')

-- A message on the wire: its letter, a length that counts itself and the body, and the body.
abbrev pub frame : ℕ → Bytes → Bytes
frame kind body = kind ∷ (put_uint32 (length body + 4) ++ body)
