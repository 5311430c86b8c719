-- ===== src/Proxy/Scram/Stored.antt =====
-- examples/gpoolproxy/verifier.go: the text of a stored secret.
use gpool.Base.{ℕ, ◌≡◌, ◌≢◌, refl, false, [], ◌∷◌, ◌++◌, some, arith, ℤ, pos, lt_int, Bytes}
use gpool.Proxy.Scram.{
  cut_prefix, cut, verifier_prefix, colon, dollar, Verifier, Crypto, parse_iterations,
  parse_verifier, string,
}

abbrev pub Lacks : ℕ → Bytes → Type 0
Lacks sep [] = Unit {0}
Lacks sep (b ∷ text) = (b ≢ sep) × Lacks sep text

pub Lacks-append : (sep : ℕ) (xs ys : Bytes) → Lacks sep xs → Lacks sep ys → Lacks sep (xs ++ ys)
Lacks-append sep [] ys l m = m
Lacks-append sep (x ∷ xs) ys l m = (l.0, Lacks-append sep xs ys l.1 m)

pub cut-append :
    (sep : ℕ) (before after : Bytes)
    → Lacks sep before
    → cut (before ++ sep ∷ after) (sep ∷ []) ≡ some (before, after)
unfolding cut cut_prefix
cut-append sep [] after l = ground arith
cut-append sep (b ∷ before) after l =
    let later = cut-append sep before after l.1 in let other = l.0 in ground (arith, later, other)

pub cut_prefix-append : (p rest : Bytes) → cut_prefix (p ++ rest) p ≡ some rest
unfolding cut_prefix
cut_prefix-append [] rest = refl
cut_prefix-append (b ∷ p) rest = ground (arith, cut_prefix-append p rest)

-- Base64 and the decimal text of a number: both are read back, and neither writes a separator.
pub record CryptoLaws (c : Crypto) : Type 0 where
  pub decode-encode : (bytes : Bytes) → c.decode (c.encode bytes) ≡ some bytes
  pub atoi-itoa : (n : ℤ) → c.atoi (c.itoa n) ≡ some n
  pub encode-Lacks : (bytes : Bytes) → Lacks colon (c.encode bytes) × Lacks dollar (c.encode bytes)
  pub itoa-Lacks : (n : ℤ) → Lacks colon (c.itoa n) × Lacks dollar (c.itoa n)

-- The text that the proxy writes of a secret with a positive number of iterations is read back as
-- that secret.
pub parse_verifier-string :
    (c : Crypto)
    → CryptoLaws c
    → (v : Verifier) → lt_int v.iterations (pos 1) ≡ false
    → parse_verifier c (string c v) ≡ some v
unfolding parse_verifier string parse_iterations
parse_verifier-string c laws v h =
    let number : Bytes = c.itoa v.iterations in
    let salt : Bytes = c.encode v.salt in
    let stored : Bytes = c.encode v.stored_key in
    let server : Bytes = c.encode v.server_key in
    let params =
      Lacks-append dollar number (colon ∷ salt) (laws.itoa-Lacks v.iterations).1
        ((λ q. ground (arith, q)), (laws.encode-Lacks v.salt).1) in
    rw
      (
        cut_prefix-append verifier_prefix
            ((number ++ colon ∷ salt) ++ dollar ∷ (stored ++ colon ∷ server)),
        cut-append dollar (number ++ colon ∷ salt) (stored ++ colon ∷ server) params,
        cut-append colon number salt (laws.itoa-Lacks v.iterations).0,
        cut-append colon stored server (laws.encode-Lacks v.stored_key).0,
        laws.atoi-itoa v.iterations,
        h,
        laws.decode-encode v.salt,
        laws.decode-encode v.stored_key,
        laws.decode-encode v.server_key,
      )
      refl
