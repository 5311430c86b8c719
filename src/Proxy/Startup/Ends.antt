-- ===== src/Proxy/Startup/Ends.antt =====
-- examples/gpoolproxy/session.go: the startup ends, whatever a client sends.
use gpool.Base.{
  ℕ, zero, suc, ◌+◌, ◌-◌, ◌*◌, ◌<◌, ◌≤◌, ◌≡◌, ◌≢◌, inl, inr, Bool, ◌||◌, Option, none, some, arith,
  ltb, ◌==◌, length, Bytes, Option-cases, Bool-cases,
}
use gpool.Proxy.Relay.{uint32, take, header_size, held_header}
use gpool.Proxy.Relay.Chunks.{length-drop}
use gpool.Proxy.Backend.Draining.{read_full-cases}
use gpool.Proxy.Startup.{
  Refusal, handled, io_failed, auth_failed, malformed, out_of_rounds, Client, Got, got, refused,
  ◌>>=◌, read_bytes, read_startup_packet, read_password_message, read_sasl_initial_response,
  initial_response, exchange, authenticate, negotiate_encryption, answer_cancel, open_session,
  startup, ssl_request_code, gss_enc_request_code, cancel_request_code, protocol_version_30,
  max_startup_len, msg_password,
}

-- A step that reads at least `n` bytes where it succeeds, and that does not run out of rounds.
pub data Ends {ℓ} {A : Type ℓ} (n : ℕ) (c : Client) : Got A → Type ℓ where
  read : {a : A} {k : Client} → length k.reader + n ≤ length c.reader → Ends n c (got a k)
  refuses : {e : Refusal} {k : Client} → e ≢ out_of_rounds → Ends n c (refused e k)

Ends-more {ℓ} :
    {A : Type ℓ} {n : ℕ} {c k : Client} {r : Got A}
    → length k.reader + n ≤ length c.reader
    → Ends 0 k r
    → Ends n c r
Ends-more h (read q) = read (omega (arith, h, q))
Ends-more h (refuses e) = refuses e

Ends-any {ℓ} : {A : Type ℓ} {n : ℕ} {c : Client} {r : Got A} → Ends n c r → Ends 0 c r
Ends-any (read q) = read (omega (arith, q))
Ends-any (refuses e) = refuses e

Ends-then {ℓ κ} :
    {A : Type ℓ} {B : Type κ} {n : ℕ} {c : Client} {r : Got A} (f : A → Client → Got B)
    → Ends n c r
    → ((a : A) (k : Client) → length k.reader + n ≤ length c.reader → Ends 0 k (f a k))
    → Ends n c (r >>= f)
Ends-then f (read {a} {k} h) g = Ends-more h (g a k h)
Ends-then f (refuses e) g = refuses e

read_bytes-Ends : (n : ℕ) (c : Client) → Ends n c (read_bytes n c)
unfolding read_bytes
read_bytes-Ends n c = elim (read_full-cases n c.reader) [
  | inl e ↦ rw (e, read_bytes) (refuses (λ q. cc))
  | inr (there, e) ↦ rw (e, read_bytes) (read (omega (arith, there, length-drop n c.reader)))
]

Ends-got {ℓ} : {A : Type ℓ} (a : A) (c : Client) → Ends 0 c (got a c)
Ends-got a c = read (omega arith)

read_startup_packet-Ends : (c : Client) → Ends 8 c (read_startup_packet c)
unfolding read_startup_packet
read_startup_packet-Ends c = Ends-then _ (read_bytes-Ends 8 c) (λ header k _.
    let n : ℕ = uint32 (take 4 header) in
    elim (Bool-cases (ltb n 8 || ltb max_startup_len n)) [
      | inl e ↦ rw e (refuses {e = malformed} (λ q. cc))
      | inr e ↦ rw e (Ends-any (Ends-then _ (read_bytes-Ends (n - 8) k) (λ body m _. Ends-got _ m)))
    ])

read_password_message-Ends : (c : Client) → Ends 0 c (read_password_message c)
unfolding read_password_message
read_password_message-Ends c = Ends-any (
    Ends-then _ (read_bytes-Ends header_size c) (λ header k _.
      let n : ℕ = uint32 (held_header header).spelled in
      elim (Bool-cases ((held_header header).kind == msg_password)) [
        | inr e ↦ rw e (refuses {e = auth_failed} (λ q. cc))
        | inl p ↦ rw p (elim (Bool-cases (ltb n 4 || ltb max_startup_len n)) [
          | inl e ↦ rw e (refuses {e = auth_failed} (λ q. cc))
          | inr e ↦ rw e (Ends-any (read_bytes-Ends (n - 4) k))
        ])
      ]))

read_sasl_initial_response-Ends : (c : Client) → Ends 0 c (read_sasl_initial_response c)
unfolding read_sasl_initial_response
read_sasl_initial_response-Ends c = Ends-then _ (read_password_message-Ends c) (λ body k _.
    elim (Option-cases (initial_response body)) [
      | inl n ↦ rw n (refuses {e = auth_failed} (λ q. cc))
      | inr (initial, n) ↦ rw n (Ends-got initial k)
    ])

module _ {V : Type 0} (challenge : V → Bytes → Option Bytes)
    (verify : V → Bytes → Bytes → Option Bytes) where
  exchange-Ends :
      (v : V) (known : Bool) (c : Client) → Ends 0 c (exchange challenge verify v known c)
  unfolding exchange
  exchange-Ends v known c =
      Ends-then _ (Ends-more (omega arith) (read_sasl_initial_response-Ends _)) (λ initial k _.
        elim (Option-cases (challenge v initial)) [
          | inl n ↦ rw n (refuses {e = auth_failed} (λ q. cc))
          | inr (sent, n) ↦ rw n (
              Ends-then _ (Ends-more (omega arith) (read_password_message-Ends _)) (λ final m _.
                elim (Option-cases (verify v initial final)) [
                  | inl o ↦ rw o (refuses {e = auth_failed} (λ q. cc))
                  | inr (signature, o) ↦ rw o (elim (Bool-cases known) [
                    | inl u ↦ rw u (read (omega arith))
                    | inr u ↦ rw u (refuses {e = auth_failed} (λ q. cc))
                  ])
                ]))
        ])

  -- A stream under TLS is no longer than the bytes that carry it.
  abbrev pub Shrinks : Option (Bytes → Option Bytes) → Type 0
  Shrinks none = Unit {0}
  Shrinks (some upgrade) =
      (src clear : Bytes) → upgrade src ≡ some clear → length clear ≤ length src

  negotiate_encryption-Ends :
      (tls : Option (Bytes → Option Bytes)) (code : ℕ) (c : Client)
      → Shrinks tls
      → Ends 0 c (negotiate_encryption challenge verify tls code c)
  unfolding negotiate_encryption
  negotiate_encryption-Ends none code c s = read (omega arith)
  negotiate_encryption-Ends (some upgrade) code c s = elim (Option-cases (upgrade c.reader)) [
    | inl n ↦ rw n (elim (Bool-cases (code == ssl_request_code)) [
      | inl e ↦ rw e (refuses {e = io_failed} (λ q. cc))
      | inr e ↦ rw e (read (omega arith))
    ])
    | inr (clear, n) ↦ rw n (elim (Bool-cases (code == ssl_request_code)) [
      | inl e ↦ rw e (read (omega (arith, s c.reader clear n)))
      | inr e ↦ rw e (read (omega arith))
    ])
  ]

  answer_cancel-Ends :
      (body : Bytes) (c : Client) → Ends 0 c (answer_cancel challenge verify body c)
  unfolding answer_cancel
  answer_cancel-Ends body c = elim (Bool-cases (ltb (length body) 8)) [
    | inl e ↦ rw (e, answer_cancel) (refuses {e = malformed} (λ q. cc))
    | inr e ↦ rw (e, answer_cancel) (refuses {e = handled} (λ q. cc))
  ]

  open_session-Ends :
      (users : Bytes → Option V) (decoy : V) (body : Bytes) (c : Client)
      → Ends 0 c (open_session challenge verify users decoy body c)
  unfolding open_session authenticate
  open_session-Ends users decoy body c =
      Ends-then _ (exchange-Ends _ _ c) (λ _ m _. read (omega arith))

  -- The startup ends: with a session or a refusal, after at most one round for each eight bytes
  -- that the client sends, however many requests for encryption it repeats. A stream under TLS must
  -- be no longer than the bytes that carry it.
  pub startup-Ends :
      (users : Bytes → Option V) (decoy : V) (tls : Option (Bytes → Option Bytes)) (fuel : ℕ)
      (c : Client)
      → Shrinks tls
      → length c.reader < 8 * fuel
      → Ends 0 c (startup challenge verify users decoy tls fuel c)
  unfolding startup
  startup-Ends users decoy tls zero c s h = absurd (omega arith)
  startup-Ends users decoy tls (suc fuel) c s h = Ends-any (
      Ends-then _ (read_startup_packet-Ends c) (λ packet k less.
        elim (Bool-cases (packet.0 == ssl_request_code || packet.0 == gss_enc_request_code)) [
          | inl e ↦ rw e (
              Ends-then _ (negotiate_encryption-Ends tls packet.0 k s) (λ _ m fewer.
                startup-Ends users decoy tls fuel m s (omega (arith, less, fewer, h))))
          | inr e ↦ rw e (elim (Bool-cases (packet.0 == cancel_request_code)) [
            | inl f ↦ rw f (answer_cancel-Ends packet.1 k)
            | inr f ↦ rw f (elim (Bool-cases (packet.0 == protocol_version_30)) [
              | inl g ↦ rw g (open_session-Ends users decoy packet.1 k)
              | inr g ↦ rw g (refuses {e = malformed} (λ q. cc))
            ])
          ])
        ]))
