-- ===== src/Proxy/Users.antt =====
-- examples/gpoolproxy/userlist.go: the users that may connect, read once from a file.
--
-- The file is the list of its lines; opening it and the test of its permissions are not here.
-- strings.TrimSpace and the derivation of a secret from a password are arguments.
pub mod Loaded
use gpool.Base.{
  Bool, true, false, ◌&&◌, ◌||◌, List, [], ◌∷◌, Option, none, some, ◌==◌, if◌then◌else◌, Bytes,
  same_bytes, get, put,
}
use gpool.Proxy.Scram.{
  ◌>>=◌, cut_prefix, cut, colon, verifier_prefix, Verifier, Crypto, parse_verifier,
}

abbrev pub Userlist : Type 0
Userlist = List (Bytes × Verifier)

unfoldable pub lookup : Userlist → Bytes → Option Verifier
lookup users name = get same_bytes users name

abbrev pub is_empty {ℓ} : {A : Type ℓ} → List A → Bool
is_empty [] = true
is_empty (x ∷ xs) = false

-- A blank line, or one that begins with a number sign.
abbrev pub is_comment : Bytes → Bool
is_comment [] = true
is_comment (b ∷ text) = b == 35

module _ (c : Crypto) (derive_verifier : Bytes → Option Verifier) (trim_space : Bytes → Bytes) where
  unfoldable pub parse_secret : Bytes → Option Verifier
  parse_secret secret = elim (cut_prefix secret verifier_prefix) [
    | none ↦ derive_verifier secret
    | some _ ↦ parse_verifier c secret
  ]

  unfoldable pub parse_line : Userlist → Bytes → Option Userlist
  parse_line users text = cut text (colon ∷ []) >>= λ parts.
      if is_empty parts.0 || is_empty parts.1
      then none
      else (parse_secret parts.1 >>= λ v. some (put same_bytes users parts.0 v))

  -- The loop over the lines.
  unfoldable pub load_lines : List Bytes → Userlist → Option Userlist
  load_lines [] users = some users
  load_lines (line ∷ lines) users =
      let text : Bytes = trim_space line in
      let skip = load_lines lines users in
      if is_comment text
      then skip
      else (parse_line users text >>= λ users'. load_lines lines users')

  unfoldable pub load_userlist : List Bytes → Option Userlist
  load_userlist lines = load_lines lines [] >>= λ users. if is_empty users then none else some users
