-- ===== src/Proxy/Startup.antt =====
-- examples/gpoolproxy/session.go: the handshake with a client, up to ReadyForQuery.
--
-- The client's stream is the list of bytes that arrive; what the proxy sends is a list of messages,
-- oldest first, and sending does not fail. The SCRAM computations of scram.go, the TLS handshake,
-- which gives the decrypted stream, and the set of users are arguments.
pub mod Exchange
pub mod Ends
use gpool.Base.{
  ℕ, zero, suc, ◌+◌, ◌-◌, ◌*◌, ◌^◌, Bool, true, false, not, ◌&&◌, ◌||◌, List, [], ◌∷◌, ◌++◌, Option,
  none, some, ltb, leb, ◌==◌, if◌then◌else◌, length, Bytes, same_bytes,
}
use gpool.Proxy.Wire.{cut_bytes}
use gpool.Proxy.Relay.{
  Fault, ok, err, Result, read_full, take, drop, uint32, header_size, held_header,
}

-- How a startup ends otherwise than with a session. The first is no failure.
pub data Refusal : Type 0 where
  handled : Refusal
  io_failed : Refusal
  auth_failed : Refusal
  malformed : Refusal
  out_of_rounds : Refusal

pub data Said : Type 0 where
  one_byte : ℕ → Said
  sasl : Said
  sasl_continue : Bytes → Said
  sasl_final : Bytes → Said
  authentication_ok : Said
  session_ready : Said
  cancelled : ℕ → Bytes → Said
  error_response : Bool → Said

pub record Client : Type 0 where
  pub reader : Bytes
  pub said : List Said

abbrev pub say : Said → Client → Client
say m c = record c { said = c.said ++ m ∷ [] }

pub data Got {ℓ} (A : Type ℓ) : Type ℓ where
  got : A → Client → Got A
  refused : Refusal → Client → Got A

infixl 5 ◌>>=◌
abbrev pub ◌>>=◌ {ℓ κ} : {A : Type ℓ} {B : Type κ} → Got A → (A → Client → Got B) → Got B
got a c >>= f = f a c
refused e c >>= f = refused e c

abbrev pub ssl_request_code : ℕ
ssl_request_code = 80_877_103

abbrev pub cancel_request_code : ℕ
cancel_request_code = 80_877_102

abbrev pub gss_enc_request_code : ℕ
gss_enc_request_code = 80_877_104

abbrev pub protocol_version_30 : ℕ
protocol_version_30 = 196_608

abbrev pub max_startup_len : ℕ
max_startup_len = 10_000

-- io.ReadFull from the client.
unfoldable pub read_bytes : ℕ → Client → Got Bytes
read_bytes n c = elim (read_full n c.reader) [
  | err e ↦ refused io_failed c
  | ok (bytes, rest) ↦ got bytes (record c { reader = rest })
]

-- The code and the body of a packet.
unfoldable pub read_startup_packet : Client → Got (ℕ × Bytes)
read_startup_packet c = read_bytes 8 c >>= λ header k.
    let n : ℕ = uint32 (take 4 header) in
    if ltb n 8 || ltb max_startup_len n
    then refused malformed k
    else (read_bytes (n - 8) k >>= λ body k'. got (uint32 (drop 4 header), body) k')

-- `parameterOf`, on fuel: one round more than the body has bytes is enough. The last value is
-- whether the fuel was.
unfoldable pub parameter_of : ℕ → Bytes → Bytes → Bytes × Bool
parameter_of zero body want = ([], false)
parameter_of (suc fuel) body want = elim (cut_bytes body) [
  | none ↦ ([], true)
  | some ([], rest) ↦ ([], true)
  | some (b ∷ key, rest) ↦ elim (cut_bytes rest) [
    | none ↦ ([], true)
    | some (value, rest') ↦
        let more = parameter_of fuel rest' want in
        if same_bytes (b ∷ key) want then (value, true) else more
  ]
]

-- The letter p.
abbrev pub msg_password : ℕ
msg_password = 112

unfoldable pub read_password_message : Client → Got Bytes
read_password_message c = read_bytes header_size c >>= λ header k.
    let h = held_header header in
    let n : ℕ = uint32 h.spelled in
    if not (h.kind == msg_password)
    then refused auth_failed k
    else if ltb n 4 || ltb max_startup_len n
    then refused auth_failed k
    else read_bytes (n - 4) k

-- The text SCRAM-SHA-256.
abbrev pub scram_sha_256 : Bytes
scram_sha_256 = 83 ∷ 67 ∷ 82 ∷ 65 ∷ 77 ∷ 45 ∷ 83 ∷ 72 ∷ 65 ∷ 45 ∷ 50 ∷ 53 ∷ 54 ∷ []

-- What the body of the first SASL message carries; a length of 2^31 or more is a negative int32.
unfoldable pub initial_response : Bytes → Option Bytes
initial_response body = elim (cut_bytes body) [
  | none ↦ none
  | some (mechanism, rest) ↦
      let n : ℕ = uint32 (take 4 rest) in
      let rest' : Bytes = drop 4 rest in
      if not (same_bytes mechanism scram_sha_256)
      then none
      else if ltb (length rest) 4
      then none
      else if leb (2 ^ 31) n || ltb (length rest') n
      then none
      else some (take n rest')
]

unfoldable pub read_sasl_initial_response : Client → Got Bytes
read_sasl_initial_response c = read_password_message c >>= λ body k. elim (initial_response body) [
  | none ↦ refused auth_failed k
  | some initial ↦ got initial k
]

module _ {V : Type 0} (challenge : V → Bytes → Option Bytes)
    (verify : V → Bytes → Bytes → Option Bytes) where
  -- `authenticate` after the lookup: the verifier, and whether it is a user's.
  unfoldable pub exchange : V → Bool → Client → Got (Unit {0})
  exchange credential known c = read_sasl_initial_response (say sasl c) >>= λ initial k.
      elim (challenge credential initial) [
        | none ↦ refused auth_failed k
        | some data_sent ↦ read_password_message (say (sasl_continue data_sent) k) >>= λ final m.
            elim (verify credential initial final) [
              | none ↦ refused auth_failed m
              | some signature ↦
                  if known
                  then got tt (say authentication_ok (say (sasl_final signature) m))
                  else refused auth_failed m
            ]
      ]

  abbrev credential_of : V → Option V → V × Bool
  credential_of decoy none = (decoy, false)
  credential_of decoy (some v) = (v, true)

  unfoldable pub authenticate : (Bytes → Option V) → V → Bytes → Client → Got (Unit {0})
  authenticate users decoy user c =
      exchange (credential_of decoy (users user)).0 (credential_of decoy (users user)).1 c

  -- `negotiateEncryption`; `upgrade` is the TLS handshake, if TLS is configured.
  unfoldable pub negotiate_encryption : Option (Bytes → Option Bytes) → ℕ → Client → Got (Unit {0})
  negotiate_encryption none code c = got tt (say (one_byte 78) c)
  negotiate_encryption (some upgrade) code c = elim (upgrade c.reader) [
    | none ↦
        if code == ssl_request_code
        then refused io_failed (say (one_byte 83) c)
        else got tt (say (one_byte 78) c)
    | some clear ↦
        if code == ssl_request_code
        then got tt (record (say (one_byte 83) c) { reader = clear })
        else got tt (say (one_byte 78) c)
  ]

  -- The text user.
  abbrev user_key : Bytes
  user_key = 117 ∷ 115 ∷ 101 ∷ 114 ∷ []

  unfoldable pub answer_cancel : Bytes → Client → Got (Unit {0})
  answer_cancel body c =
      if ltb (length body) 8
      then refused malformed c
      else refused handled (say (cancelled (uint32 (take 4 body)) (drop 4 body)) c)

  unfoldable pub open_session : (Bytes → Option V) → V → Bytes → Client → Got (Unit {0})
  open_session users decoy body c =
      authenticate users decoy (parameter_of (suc (length body)) body user_key).0 c >>= λ _ k.
      got tt (say session_ready k)

  -- `startup`, on fuel.
  unfoldable pub startup :
      (Bytes → Option V) → V → Option (Bytes → Option Bytes) → ℕ → Client → Got (Unit {0})
  startup users decoy tls zero c = refused out_of_rounds c
  startup users decoy tls (suc fuel) c = read_startup_packet c >>= λ packet k.
      let again : Got (Unit {0}) =
        (negotiate_encryption tls packet.0 k >>= λ _ m. startup users decoy tls fuel m) in
      if packet.0 == ssl_request_code || packet.0 == gss_enc_request_code
      then again
      else if packet.0 == cancel_request_code
      then answer_cancel packet.1 k
      else if packet.0 == protocol_version_30
      then open_session users decoy packet.1 k
      else refused malformed k

  -- `serve`, up to the session: what a refused client is told, and whether a session begins.
  unfoldable pub serve :
      (Bytes → Option V) → V → Option (Bytes → Option Bytes) → ℕ → Client → Client × Bool
  serve users decoy tls fuel c = elim (startup users decoy tls fuel c) [
    | got _ k ↦ (k, true)
    | refused handled k ↦ (k, false)
    | refused auth_failed k ↦ (say (error_response true) k, false)
    | refused io_failed k ↦ (say (error_response false) k, false)
    | refused malformed k ↦ (say (error_response false) k, false)
    | refused out_of_rounds k ↦ (say (error_response false) k, false)
  ]
