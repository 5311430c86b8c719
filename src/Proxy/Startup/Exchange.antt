-- ===== src/Proxy/Startup/Exchange.antt =====
-- examples/gpoolproxy/session.go: who gets in, and what the others can tell from the exchange.
use gpool.Base.{
  ℕ, ◌^◌, ◌<◌, ◌≡◌, ◌⊎◌, inl, inr, refl, true, false, ◌||◌, ◌∷◌, ◌++◌, Option, none, some, arith,
  ltb, leb, if◌then◌else◌, length, length-append, Bytes, Option-cases, Bool-cases, same_bytes,
}
use gpool.Proxy.Wire.{put_uint32}
use gpool.Proxy.Wire.Names.{IsText, cut_bytes-append}
use gpool.Proxy.Relay.{uint32, take, drop}
use gpool.Proxy.Startup.{
  Refusal, auth_failed, sasl_final, authentication_ok, Client, say, Got, got, refused,
  initial_response, scram_sha_256, exchange, authenticate, read_sasl_initial_response,
  read_password_message, sasl, sasl_continue,
}
use gpool.Proxy.Relay.Frames.{take-append}

pub Got-cases {ℓ} :
    {A : Type ℓ} (r : Got A)
    → ((e : Refusal) × (c : Client) × (r ≡ refused e c)) ⊎ ((a : A) × (c : Client) × (r ≡ got a c))
Got-cases (refused e c) = inl (e, c, refl)
Got-cases (got a c) = inr (a, c, refl)

module _ {V : Type 0} (challenge : V → Bytes → Option Bytes)
    (verify : V → Bytes → Bytes → Option Bytes) where
  -- One refusal, or the same run up to the last answer: two messages for a user, none for a stranger.
  abbrev pub SameUpToGrant : Got (Unit {0}) → Got (Unit {0}) → Type 0
  SameUpToGrant user stranger =
      ((e : Refusal) × (c : Client) × (user ≡ refused e c) × (stranger ≡ refused e c))
      ⊎ ((signature : Bytes) × (c : Client) × (user
            ≡ got tt (say authentication_ok (say (sasl_final signature) c)))
          × (stranger ≡ refused auth_failed c))

  exchange-Same :
      (v : V) (c : Client)
      → SameUpToGrant (exchange challenge verify v true c) (exchange challenge verify v false c)
  unfolding exchange
  exchange-Same v c = elim (Got-cases (read_sasl_initial_response (say sasl c))) [
    | inl (e, k, q) ↦ rw q (inl (e, k, refl, refl))
    | inr (initial, k, q) ↦ rw q (elim (Option-cases (challenge v initial)) [
      | inl n ↦ rw n (inl (auth_failed, k, refl, refl))
      | inr (sent, n) ↦
          rw n (elim (Got-cases (read_password_message (say (sasl_continue sent) k))) [
            | inl (e, m, p) ↦ rw p (inl (e, m, refl, refl))
            | inr (final, m, p) ↦ rw p (elim (Option-cases (verify v initial final)) [
              | inl o ↦ rw o (inl (auth_failed, m, refl, refl))
              | inr (signature, o) ↦ rw o (inr (signature, m, refl, refl))
            ])
          ])
    ])
  ]

  -- A name that is not in the list is refused whatever its client sends, after the exchange that a
  -- user who holds the decoy's own credential would have: the same messages, until one proves that
  -- credential, and the same refusal otherwise.
  pub authenticate-Same :
      (users : Bytes → Option V) (decoy : V) (user : Bytes) (c : Client)
      → users user ≡ none
      → SameUpToGrant
          (authenticate challenge verify (λ _. some decoy) decoy user c)
          (authenticate challenge verify users decoy user c)
  unfolding authenticate
  authenticate-Same users decoy user c stranger = rw stranger (exchange-Same decoy c)

  -- A session begins only for a user.
  pub authenticate-user :
      (users : Bytes → Option V) (decoy : V) (user : Bytes) (c k : Client)
      → authenticate challenge verify users decoy user c ≡ got tt k
      → (v : V) × (users user ≡ some v)
  authenticate-user users decoy user c k h = elim (Option-cases (users user)) [
    | inr known ↦ known
    | inl stranger ↦ elim (authenticate-Same users decoy user c stranger) [
      | inl (e, m, _, q) ↦ absurd (ground (arith, q, h))
      | inr (s, m, _, q) ↦ absurd (ground (arith, q, h))
    ]
  ]

-- What a client encodes as its first SASL message is read back whatever it sends after, and so is
-- the mechanism: any other is refused.
pub initial_response-reads :
    (mechanism message rest : Bytes)
    → IsText mechanism
    → length message < 2 ^ 31
    → initial_response (mechanism ++ 0 ∷ (put_uint32 (length message) ++ (message ++ rest)))
      ≡ (if same_bytes mechanism scram_sha_256 then some message else none)
unfolding initial_response put_uint32
initial_response-reads mechanism message rest t h =
    let n : ℕ = length message in
    let after : Bytes = message ++ rest in
    let rest' : Bytes = put_uint32 n ++ after in
    let spelled : uint32 (take 4 rest') ≡ n = omega arith in
    let body : drop 4 rest' ≡ after = refl in
    let long : ltb (length rest') 4 ≡ false = ground arith in
    let fits : (leb (2 ^ 31) n || ltb (length after) n) ≡ false =
      ground (arith, length-append message rest) in
    rw (cut_bytes-append mechanism rest' t, initial_response)
      (elim (Bool-cases (same_bytes mechanism scram_sha_256)) [
        | inl e ↦ rw (e, long, spelled, fits, take-append message rest) refl
        | inr e ↦ rw e refl
      ])
