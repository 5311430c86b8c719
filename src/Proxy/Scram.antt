-- ===== src/Proxy/Scram.antt =====
-- examples/gpoolproxy/verifier.go and scram.go: the stored secret of a user, and the server's half of
-- one SCRAM-SHA-256 exchange.
--
-- HMAC, SHA-256, base64 and the decimal text of a number are the record `Crypto`, an argument, and so
-- are the bytes of the nonce. A text is its bytes. Every failure is the same error, so
-- the functions return options.
pub mod Proven
pub mod Stored
use gpool.Base.{
  ℕ, zero, suc, ◌+◌, ◌*◌, ◌/◌, ◌%◌, Bool, true, false, not, List, [], ◌∷◌, ◌++◌, Option, none, some,
  ◌==◌, if◌then◌else◌, length, ℤ, pos, lt_int, Bytes, same_bytes,
}

infixl 5 ◌>>=◌
abbrev pub ◌>>=◌ {ℓ κ} : {A : Type ℓ} {B : Type κ} → Option A → (A → Option B) → Option B
none >>= f = none
some a >>= f = f a

-- strings.CutPrefix, with the text first.
unfoldable pub cut_prefix : Bytes → Bytes → Option Bytes
cut_prefix text [] = some text
cut_prefix [] (p ∷ ps) = none
cut_prefix (b ∷ text) (p ∷ ps) = let rest = cut_prefix text ps in if b == p then rest else none

abbrev after_byte : ℕ → Option (Bytes × Bytes) → Option (Bytes × Bytes)
after_byte b none = none
after_byte b (some (before, after)) = some (b ∷ before, after)

-- strings.Cut, at the first separator; the separators of the code are not empty.
unfoldable pub cut : Bytes → Bytes → Option (Bytes × Bytes)
cut [] sep = none
cut (b ∷ text) sep =
    let later = after_byte b (cut text sep) in
    elim (cut_prefix (b ∷ text) sep) [ none ↦ later | some rest ↦ some ([], rest) ]

abbrev add_byte : ℕ → List Bytes → List Bytes
add_byte b [] = (b ∷ []) ∷ []
add_byte b (part ∷ parts) = (b ∷ part) ∷ parts

-- strings.SplitSeq at a comma.
abbrev pub comma : ℕ
comma = 44

unfoldable pub split : Bytes → List Bytes
split [] = [] ∷ []
split (b ∷ text) = let parts = split text in if b == comma then [] ∷ parts else add_byte b parts

unfoldable pub first_value : List Bytes → Bytes → Option Bytes
first_value [] prefix = none
first_value (part ∷ parts) prefix =
    let later = first_value parts prefix in
    elim (cut_prefix part prefix) [ none ↦ later | some value ↦ some value ]

unfoldable pub field : Bytes → Bytes → Option Bytes
field message prefix = first_value (split message) prefix

-- The texts "r=", "c=", ",p=", "v=", ",s=" and ",i=".
abbrev pub nonce_mark : Bytes
nonce_mark = 114 ∷ 61 ∷ []

abbrev pub binding_mark : Bytes
binding_mark = 99 ∷ 61 ∷ []

abbrev pub proof_mark : Bytes
proof_mark = 44 ∷ 112 ∷ 61 ∷ []

abbrev pub signature_mark : Bytes
signature_mark = 118 ∷ 61 ∷ []

abbrev pub salt_mark : Bytes
salt_mark = 44 ∷ 115 ∷ 61 ∷ []

abbrev pub iterations_mark : Bytes
iterations_mark = 44 ∷ 105 ∷ 61 ∷ []

abbrev pub header_from : Bytes → Option (Bytes × Bytes) → Option (Bytes × Bytes)
header_from flag none = none
header_from flag (some (authz, bare)) = some (flag ++ (authz ++ comma ∷ []), bare)

-- A header that asks for channel binding, and one that is malformed, are refused.
unfoldable pub split_gs2 : Bytes → Option (Bytes × Bytes)
split_gs2 (flag ∷ mark ∷ rest) =
    if mark == comma
    then (if flag == 110
        then header_from (flag ∷ mark ∷ []) (cut rest (comma ∷ []))
        else if flag == 121
        then header_from (flag ∷ mark ∷ []) (cut rest (comma ∷ []))
        else none)
    else none
split_gs2 text = none

-- The exclusive or of two numbers of so many bits.
unfoldable pub xor_bits : ℕ → ℕ → ℕ → ℕ
xor_bits zero a b = 0
xor_bits (suc w) a b = (a + b) % 2 + 2 * xor_bits w (a / 2) (b / 2)

-- subtle.XORBytes, for texts of one length.
unfoldable pub xor_bytes : Bytes → Bytes → Bytes
xor_bytes (x ∷ xs) (y ∷ ys) = xor_bits 8 x y ∷ xor_bytes xs ys
xor_bytes xs ys = []

pub record Verifier : Type 0 where
  pub iterations : ℤ
  pub salt : Bytes
  pub stored_key : Bytes
  pub server_key : Bytes

pub record ScramServer : Type 0 where
  pub verifier : Verifier
  pub gs2_header : Bytes
  pub client_first_bare : Bytes
  pub server_first : Bytes

abbrev pub new_scram_server : Verifier → ScramServer
new_scram_server v = record {
  verifier = v;
  gs2_header = [];
  client_first_bare = [];
  server_first = [];
}

-- The text SCRAM-SHA-256$, a colon and a dollar sign.
abbrev pub verifier_prefix : Bytes
verifier_prefix = 83 ∷ 67 ∷ 82 ∷ 65 ∷ 77 ∷ 45 ∷ 83 ∷ 72 ∷ 65 ∷ 45 ∷ 50 ∷ 53 ∷ 54 ∷ 36 ∷ []

abbrev pub colon : ℕ
colon = 58

abbrev pub dollar : ℕ
dollar = 36

-- What the code takes from Go's library.
pub record Crypto : Type 0 where
  pub encode : Bytes → Bytes
  pub decode : Bytes → Option Bytes
  pub itoa : ℤ → Bytes
  pub atoi : Bytes → Option ℤ
  pub hmac : Bytes → Bytes → Bytes
  pub sha256 : Bytes → Bytes

module _ (c : Crypto) where
  unfoldable pub parse_iterations : Bytes → Option ℤ
  parse_iterations text = c.atoi text >>= λ n. if lt_int n (pos 1) then none else some n

  unfoldable pub parse_verifier : Bytes → Option Verifier
  parse_verifier text = cut_prefix text verifier_prefix >>= λ rest.
      cut rest (dollar ∷ []) >>= λ sections. cut sections.0 (colon ∷ []) >>= λ params.
      cut sections.1 (colon ∷ []) >>= λ keys. parse_iterations params.0 >>= λ n.
      c.decode params.1 >>= λ salt. c.decode keys.0 >>= λ stored. c.decode keys.1 >>= λ server.
      some (record { iterations = n; salt = salt; stored_key = stored; server_key = server })

  unfoldable pub string : Verifier → Bytes
  string v =
      verifier_prefix
      ++ ((c.itoa v.iterations ++ colon ∷ c.encode v.salt)
          ++ dollar ∷ (c.encode v.stored_key ++ colon ∷ c.encode v.server_key))

  unfoldable pub challenge_text : Verifier → Bytes → Bytes → Bytes
  challenge_text v client_nonce nonce =
      nonce_mark
      ++ (client_nonce
          ++ (c.encode nonce
              ++ (salt_mark ++ (c.encode v.salt ++ (iterations_mark ++ c.itoa v.iterations)))))

  unfoldable pub challenge : Bytes → ScramServer → Bytes → ScramServer × Option Bytes
  challenge nonce s client_first = elim (split_gs2 client_first) [
    | none ↦ (s, none)
    | some (gs2, bare) ↦
        let s' : ScramServer = record s { gs2_header = gs2; client_first_bare = bare } in
        elim (field bare nonce_mark) [
          | none ↦ (s', none)
          | some client_nonce ↦
              let first : Bytes = challenge_text s.verifier client_nonce nonce in
              (record s' { server_first = first }, some first)
        ]
  ]

  abbrev pub auth_message : ScramServer → Bytes → Bytes
  auth_message s without_proof =
      s.client_first_bare ++ comma ∷ (s.server_first ++ comma ∷ without_proof)

  unfoldable pub check_binding : ScramServer → Bytes → Option (Unit {0})
  check_binding s without_proof = field without_proof binding_mark >>= λ binding.
      if same_bytes binding (c.encode s.gs2_header) then some tt else none

  unfoldable pub check_nonce : ScramServer → Bytes → Option (Unit {0})
  check_nonce s without_proof = field without_proof nonce_mark >>= λ nonce.
      cut_prefix s.server_first (nonce_mark ++ nonce) >>= λ _. some tt

  unfoldable pub check_proof : ScramServer → Bytes → Bytes → Option (Unit {0})
  check_proof s message proof =
      let signature : Bytes = c.hmac s.verifier.stored_key message in
      if not (length proof == length signature)
      then none
      else if same_bytes (c.sha256 (xor_bytes proof signature)) s.verifier.stored_key
      then some tt
      else none

  unfoldable pub verify : ScramServer → Bytes → Option Bytes
  verify s client_final = cut client_final proof_mark >>= λ parts. c.decode parts.1 >>= λ proof.
      check_binding s parts.0 >>= λ _. check_nonce s parts.0 >>= λ _.
      check_proof s (auth_message s parts.0) proof >>= λ _.
      some (signature_mark ++ c.encode (c.hmac s.verifier.server_key (auth_message s parts.0)))
