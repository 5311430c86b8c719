-- ===== src/Proxy/Tests/Authentication.antt =====
-- The theorems on the SCRAM exchange and on stored secrets, each on a small input.
use gpool.Base.{◌+◌, ◌-◌, ◌≡◌, refl, ap, [], ◌∷◌, none, some, arith, ℤ, pos, negsuc, Option, Bytes}
use gpool.Proxy.Scram.{
  cut, cut_prefix, field, split, first_value, split_gs2, xor_bytes, xor_bits, Verifier, Crypto,
  ScramServer, challenge_text, challenge, check_binding, check_nonce, check_proof, verify,
}
use gpool.Proxy.Users.{Userlist, lookup, load_userlist}
use gpool.Proxy.Users.Loaded.{lines_of, last_secret, load_userlist-lookup}
use gpool.Proxy.Scram.Proven.{Proven, verify-Proven}
use gpool.Proxy.Scram.Stored.{Lacks, CryptoLaws}

abbrev shift : Bytes → Bytes
shift [] = []
shift (b ∷ bs) = (b + 100) ∷ shift bs

abbrev unshift : Bytes → Bytes
unshift [] = []
unshift (b ∷ bs) = (b - 100) ∷ unshift bs

abbrev digits : ℤ → Bytes
digits (pos n) = (n + 100) ∷ []
digits (negsuc n) = 45 ∷ (n + 100) ∷ []

abbrev number : Bytes → Option ℤ
number [] = none
number (b ∷ []) = some (pos (b - 100))
number (sign ∷ b ∷ bs) = some (negsuc (b - 100))

abbrev toy : Crypto
toy = record {
  encode = shift;
  decode = λ text. some (unshift text);
  itoa = digits;
  atoi = number;
  hmac = λ key message. key;
  sha256 = λ bytes. bytes;
}

unshift-shift : (bytes : Bytes) → unshift (shift bytes) ≡ bytes
unshift-shift [] = refl
unshift-shift (b ∷ bs) = ground (arith, unshift-shift bs)

shift-Lacks : (bytes : Bytes) → Lacks 58 (shift bytes) × Lacks 36 (shift bytes)
shift-Lacks [] = (tt, tt)
shift-Lacks (b ∷ bs) =
    let rest = shift-Lacks bs in
    (((λ q. omega (arith, q)), rest.0), ((λ q. omega (arith, q)), rest.1))

number-digits : (n : ℤ) → number (digits n) ≡ some n
number-digits (pos n) = ground arith
number-digits (negsuc n) = ground arith

digits-Lacks : (n : ℤ) → Lacks 58 (digits n) × Lacks 36 (digits n)
digits-Lacks (pos n) = (((λ q. omega (arith, q)), tt), ((λ q. omega (arith, q)), tt))
digits-Lacks (negsuc n) = (
  ((λ q. omega (arith, q)), ((λ q. omega (arith, q)), tt)),
  ((λ q. omega (arith, q)), ((λ q. omega (arith, q)), tt)),
)

toy-Laws : CryptoLaws toy
toy-Laws = record {
  decode-encode = λ bytes. ap some (unshift-shift bytes);
  atoi-itoa = number-digits;
  encode-Lacks = shift-Lacks;
  itoa-Lacks = digits-Lacks;
}

abbrev alice : Verifier
alice = record { iterations = pos 2; salt = 9 ∷ []; stored_key = 1 ∷ 2 ∷ []; server_key = 7 ∷ [] }

abbrev bob : Bytes
bob = 98 ∷ 111 ∷ 98 ∷ []

abbrev trimmed : Bytes → Bytes
trimmed text = text

abbrev no_password : Bytes → Option Verifier
no_password password = none

load_userlist-lookup_example :
    (users : Userlist) × (load_userlist toy no_password trimmed
        (lines_of toy no_password trimmed ((bob, alice) ∷ []))
      ≡ some users)
    × ((name : Bytes)
        → lookup users name ≡ last_secret toy no_password trimmed ((bob, alice) ∷ []) none name)
load_userlist-lookup_example =
    load_userlist-lookup toy no_password trimmed toy-Laws (bob, alice) []
      (
        (
          ((λ q. omega (arith, q)), ((λ q. omega (arith, q)), ((λ q. omega (arith, q)), tt))),
          refl,
          refl,
          refl,
        ),
        tt,
      )

-- The client's first message, "n,,r=x", and its last, with a proof of two zero bytes.
abbrev first : Bytes
first = 110 ∷ 44 ∷ 44 ∷ 114 ∷ 61 ∷ 120 ∷ []

abbrev final : Bytes
final = 99 ∷ 61 ∷ 210 ∷ 144 ∷ 144 ∷ 44 ∷ 114 ∷ 61 ∷ 120 ∷ 101 ∷ 44 ∷ 112 ∷ 61 ∷ 100 ∷ 100 ∷ []

-- "r=x", the nonce, ",s=", the salt, ",i=" and the number.
abbrev sent : Bytes
sent = 114 ∷ 61 ∷ 120 ∷ 101 ∷ 44 ∷ 115 ∷ 61 ∷ 109 ∷ 44 ∷ 105 ∷ 61 ∷ 102 ∷ []

abbrev challenged : ScramServer
challenged = record {
  verifier = alice;
  gs2_header = 110 ∷ 44 ∷ 44 ∷ [];
  client_first_bare = 114 ∷ 61 ∷ 120 ∷ [];
  server_first = sent;
}

verify-Proven_example : Proven toy alice (1 ∷ []) first sent final (118 ∷ 61 ∷ 107 ∷ [])
unfolding challenge split_gs2 cut cut_prefix field split first_value challenge_text verify
    check_binding check_nonce check_proof xor_bytes xor_bits
verify-Proven_example =
    verify-Proven toy alice (1 ∷ []) first sent final (118 ∷ 61 ∷ 107 ∷ []) challenged refl refl
