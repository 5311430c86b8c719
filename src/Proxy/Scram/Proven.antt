-- ===== src/Proxy/Scram/Proven.antt =====
-- examples/gpoolproxy/scram.go: what an exchange that succeeds has proved.
use gpool.Base.{
  ◌≡◌, refl, sym, subst, inl, inr, [], ◌∷◌, ◌++◌, Option, none, some, arith, length, Bytes,
  Option-cases, same_bytes→eq,
}
use mathlib.Core.List.{append_assoc}
use gpool.Proxy.Scram.{
  ◌>>=◌, cut_prefix, cut, comma, field, nonce_mark, binding_mark, proof_mark, signature_mark,
  split_gs2, xor_bytes, Verifier, ScramServer, new_scram_server, challenge_text, challenge, Crypto,
  header_from, auth_message, check_binding, check_nonce, check_proof, verify,
}

pub bind-some {ℓ κ} :
    {A : Type ℓ} {B : Type κ} (o : Option A) (f : A → Option B) {b : B}
    → (o >>= f) ≡ some b
    → (a : A) × (o ≡ some a) × (f a ≡ some b)
bind-some none f h = ground (arith, h)
bind-some (some a) f h = (a, refl, h)

pub cut_prefix-splits : (text p rest : Bytes) → cut_prefix text p ≡ some rest → text ≡ p ++ rest
unfolding cut_prefix
cut_prefix-splits text [] rest h = ground (arith, h)
cut_prefix-splits [] (p ∷ ps) rest h = ground (arith, h)
cut_prefix-splits (b ∷ text) (p ∷ ps) rest h =
    let later = cut_prefix-splits text ps rest in ground (arith, h, later)

pub cut-splits :
    (text sep before after : Bytes)
    → cut text sep ≡ some (before, after)
    → text ≡ before ++ (sep ++ after)
unfolding cut
cut-splits [] sep before after h = ground (arith, h)
cut-splits (b ∷ text) sep before after h = elim (Option-cases (cut_prefix (b ∷ text) sep)) [
  | inl n ↦ elim (Option-cases (cut text sep)) [
    | inl m ↦ ground (arith, h, n, m)
    | inr ((l, r), m) ↦ ground (arith, h, n, m, cut-splits text sep l r m)
  ]
  | inr (rest, n) ↦ ground (arith, h, n, cut_prefix-splits (b ∷ text) sep rest n)
]

module _ (c : Crypto) where
  check_binding-same :
      (s : ScramServer) (without_proof : Bytes)
      → check_binding c s without_proof ≡ some tt
      → field without_proof binding_mark ≡ some (c.encode s.gs2_header)
  unfolding check_binding
  check_binding-same s without_proof h = elim (Option-cases (field without_proof binding_mark)) [
    | inl n ↦ ground (arith, h, n)
    | inr (binding, n) ↦ ground (arith, h, n, same_bytes→eq binding (c.encode s.gs2_header))
  ]

  check_proof-key :
      (s : ScramServer) (message proof : Bytes)
      → check_proof c s message proof ≡ some tt
      → (length proof ≡ length (c.hmac s.verifier.stored_key message))
        × (c.sha256 (xor_bytes proof (c.hmac s.verifier.stored_key message))
            ≡ s.verifier.stored_key)
  unfolding check_proof
  check_proof-key s message proof h =
      let signature : Bytes = c.hmac s.verifier.stored_key message in
      let same = same_bytes→eq (c.sha256 (xor_bytes proof signature)) s.verifier.stored_key in
      ground (arith, h, same)

header_from-splits :
    (flag rest header bare : Bytes)
    → header_from flag (cut rest (comma ∷ [])) ≡ some (header, bare)
    → flag ++ rest ≡ header ++ bare
header_from-splits flag rest header bare h = elim (Option-cases (cut rest (comma ∷ []))) [
  | inl n ↦ ground (arith, h, n)
  | inr ((authz, after), n) ↦
      let splits = cut-splits rest (comma ∷ []) authz after n in
      rw splits (
        ground (
          arith,
          h,
          n,
          append_assoc flag (authz ++ comma ∷ []) after,
          append_assoc authz (comma ∷ []) after,
        ))
]

split_gs2-splits :
    (text header bare : Bytes) → split_gs2 text ≡ some (header, bare) → text ≡ header ++ bare
unfolding split_gs2
split_gs2-splits [] header bare h = ground (arith, h)
split_gs2-splits (flag ∷ []) header bare h = ground (arith, h)
split_gs2-splits (flag ∷ mark ∷ rest) header bare h =
    let splits = header_from-splits (flag ∷ mark ∷ []) rest header bare in ground (arith, h, splits)

module _ (c : Crypto) where
  -- The texts that a signature covers.
  abbrev pub covered : Bytes → Bytes → Bytes → Bytes
  covered bare sent without_proof = bare ++ comma ∷ (sent ++ comma ∷ without_proof)

  -- What an accepted exchange has shown, from its four messages and the bytes of the nonce.
  pub record Proven (v : Verifier) (nonce first sent final reply : Bytes) : Type 0 where
    pub header : Bytes
    pub bare : Bytes
    pub client_nonce : Bytes
    pub without_proof : Bytes
    pub encoded : Bytes
    pub proof : Bytes
    pub first_said : first ≡ header ++ bare
    pub sent_said : sent ≡ challenge_text c v client_nonce nonce
    pub final_said : final ≡ without_proof ++ (proof_mark ++ encoded)
    pub bound : field without_proof binding_mark ≡ some (c.encode header)
    pub decoded : c.decode encoded ≡ some proof
    pub keyed :
        c.sha256 (xor_bytes proof (c.hmac v.stored_key (covered bare sent without_proof)))
        ≡ v.stored_key
    pub replied :
        reply ≡ signature_mark ++ c.encode (c.hmac v.server_key (covered bare sent without_proof))

  pub record Challenged (v : Verifier) (nonce first sent : Bytes) (s : ScramServer) : Type 0 where
    pub header_said : first ≡ s.gs2_header ++ s.client_first_bare
    pub asked : Bytes
    pub sent_for : sent ≡ challenge_text c v asked nonce
    pub kept : s.server_first ≡ sent
    pub same_verifier : s.verifier ≡ v

  challenge-Challenged :
      (v : Verifier) (nonce first sent : Bytes) (r : ScramServer × Option Bytes)
      → challenge c nonce (new_scram_server v) first ≡ r
      → r.1 ≡ some sent
      → Challenged v nonce first sent r.0
  unfolding challenge
  challenge-Challenged v nonce first sent r h g = elim (Option-cases (split_gs2 first)) [
    | inl n ↦ ground (arith, h, g, n)
    | inr ((gs2, bare), n) ↦ elim (Option-cases (field bare nonce_mark)) [
      | inl m ↦ ground (arith, h, g, n, m)
      | inr (asked, m) ↦
          let text : Bytes = challenge_text c v asked nonce in
          let s : ScramServer = record {
            verifier = v;
            gs2_header = gs2;
            client_first_bare = bare;
            server_first = text;
          } in
          let e : (s, some text) ≡ r = ground (arith, h, n, m) in
          subst
            (λ (x : ScramServer × Option Bytes).
              x.1 ≡ some sent → Challenged v nonce first sent x.0)
            e
            (λ q. record {
              header_said = split_gs2-splits first gs2 bare n;
              asked = asked;
              sent_for = ground (arith, q);
              kept = ground (arith, q);
              same_verifier = refl;
            })
            g
    ]
  ]

  verify-checks :
      (s : ScramServer) (final reply : Bytes)
      → verify c s final ≡ some reply
      → (without_proof : Bytes) × (encoded : Bytes) × (proof : Bytes) × (cut final proof_mark
          ≡ some (without_proof, encoded))
        × (c.decode encoded ≡ some proof)
        × (check_binding c s without_proof ≡ some tt)
        × (check_proof c s (auth_message c s without_proof) proof ≡ some tt)
        × (reply
            ≡ signature_mark
              ++ c.encode (c.hmac s.verifier.server_key (auth_message c s without_proof)))
  unfolding verify
  verify-checks s final reply h =
      let (parts, split, h₁) = bind-some (cut final proof_mark) _ h in
      let (proof, decoded, h₂) = bind-some (c.decode parts.1) _ h₁ in
      let (_, bound, h₃) = bind-some (check_binding c s parts.0) _ h₂ in
      let (_, _, h₄) = bind-some (check_nonce c s parts.0) _ h₃ in
      let (_, keyed, h₅) = bind-some (check_proof c s (auth_message c s parts.0) proof) _ h₄ in
      (parts.0, parts.1, proof, split, decoded, bound, keyed, ground (arith, h₅))

  -- Whoever the proxy authenticates holds a key that SHA-256 takes to the stored one: the client's
  -- proof gives such a key by the HMAC of this exchange's messages, the nonce just drawn among them,
  -- and the client repeats the header it sent, so that nobody took channel binding out of it. The
  -- signature that the proxy answers covers the same messages.
  pub verify-Proven :
      (v : Verifier) (nonce first sent final reply : Bytes) (s : ScramServer)
      → challenge c nonce (new_scram_server v) first ≡ (s, some sent)
      → verify c s final ≡ some reply
      → Proven v nonce first sent final reply
  verify-Proven v nonce first sent final reply s h g =
      let start = challenge-Challenged v nonce first sent (s, some sent) h refl in
      let (without_proof, encoded, proof, parts, read, same, key, says) =
        verify-checks s final reply g in
      let keeps = check_proof-key c s (auth_message c s without_proof) proof key in
      let kept = start.kept in
      let ours = start.same_verifier in
      record {
        header = s.gs2_header;
        bare = s.client_first_bare;
        client_nonce = start.asked;
        without_proof = without_proof;
        encoded = encoded;
        proof = proof;
        first_said = start.header_said;
        sent_said = start.sent_for;
        final_said = cut-splits final proof_mark without_proof encoded parts;
        bound = check_binding-same c s without_proof same;
        decoded = read;
        keyed = rw (sym kept, sym ours) keeps.1;
        replied = rw (sym kept, sym ours) says;
      }
