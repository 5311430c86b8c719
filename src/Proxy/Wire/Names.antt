-- ===== src/Proxy/Wire/Names.antt =====
-- examples/gpoolproxy/statements.go: a name is read back from the messages that carry it.
use gpool.Base.{
  ℕ, ◌+◌, ◌*◌, ◌^◌, ◌<◌, ◌≡◌, refl, ap, ◌∙◌, [], ◌∷◌, ◌++◌, Option, none, some, arith, length,
  length-append, Bytes,
}
use gpool.Proxy.Wire.{
  msg_close, msg_bind, cut_bytes, c_string, bind_name, target_name, statement_name_of, put_uint32,
  close_body, close_statement,
}

-- No zero byte.
abbrev pub IsText : Bytes → Type 0
IsText [] = Unit {0}
IsText (b ∷ bs) = (0 < b) × IsText bs

pub cut_bytes-append :
    (name rest : Bytes) → IsText name → cut_bytes (name ++ 0 ∷ rest) ≡ some (name, rest)
unfolding cut_bytes
cut_bytes-append [] rest t = refl
cut_bytes-append (b ∷ bs) rest t = let cut = cut_bytes-append bs rest t.1 in ground (arith, t, cut)

-- A Bind names its statement after its portal, whatever follows.
pub statement_name_of-bind :
    (portal name rest : Bytes)
    → IsText portal
    → IsText name
    → statement_name_of msg_bind (portal ++ 0 ∷ (name ++ 0 ∷ rest)) ≡ some name
unfolding statement_name_of bind_name c_string
statement_name_of-bind portal name rest p t =
    rw (cut_bytes-append portal (name ++ 0 ∷ rest) p, cut_bytes-append name rest t) refl

-- The number that four bytes spell, big end first, and what follows them.
abbrev pub read_uint32 : Bytes → Option (ℕ × Bytes)
read_uint32 (a ∷ b ∷ c ∷ d ∷ rest) = some (a * 16_777_216 + b * 65_536 + c * 256 + d, rest)
read_uint32 bs = none

pub put_uint32-read :
    (n : ℕ) (rest : Bytes) → n < 2 ^ 32 → read_uint32 (put_uint32 n ++ rest) ≡ some (n, rest)
unfolding put_uint32
put_uint32-read n rest h = ap (λ k. some (k, rest)) (omega arith)

-- The Close that the proxy writes is one that it would read back: after its letter comes a length
-- that counts itself and the body, and from the body the statement's name.
pub close_statement-reads :
    (name : Bytes)
    → IsText name
    → length name + 6 < 2 ^ 32
    → (body : Bytes) × (rest : Bytes) × (close_statement name ≡ msg_close ∷ rest)
      × (read_uint32 rest ≡ some (length rest, body))
      × (statement_name_of msg_close body ≡ some name)
unfolding close_statement close_body statement_name_of target_name c_string
close_statement-reads name t h =
    let long : length (close_body name) ≡ length name + 2 =
      omega (arith, length-append name (0 ∷ [])) in
    let n : ℕ = length (close_body name) + 4 in
    let counts : n ≡ length (put_uint32 n ++ close_body name) = unfold put_uint32 in omega arith in
    (
      close_body name,
      put_uint32 (length (close_body name) + 4) ++ close_body name,
      refl,
      put_uint32-read (length (close_body name) + 4) (close_body name) (omega (arith, long))
          ∙ ap (λ k. some (k, close_body name)) counts,
      rw (cut_bytes-append name [] t) refl,
    )
