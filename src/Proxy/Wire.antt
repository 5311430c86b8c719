-- ===== src/Proxy/Wire.antt =====
-- examples/gpoolproxy/statements.go: the statement names in wire messages, and the Close message.
pub mod Names
use gpool.Base.{
  ℕ, ◌+◌, ◌*◌, ◌/◌, ◌%◌, ◌≡◌, Bool, true, false, not, ◌||◌, List, [], ◌∷◌, ◌++◌, Option, none, some,
  ◌==◌, if◌then◌else◌, length, Bytes,
}

-- The letters P, B, D, C and S.
abbrev pub msg_parse : ℕ
msg_parse = 80

abbrev pub msg_bind : ℕ
msg_bind = 66

abbrev pub msg_describe : ℕ
msg_describe = 68

abbrev pub msg_close : ℕ
msg_close = 67

abbrev pub describe_statement : ℕ
describe_statement = 83

abbrev after_byte : ℕ → Option (Bytes × Bytes) → Option (Bytes × Bytes)
after_byte b none = none
after_byte b (some (value, rest)) = some (b ∷ value, rest)

-- The string up to the first zero byte, and what follows that byte.
unfoldable pub cut_bytes : Bytes → Option (Bytes × Bytes)
cut_bytes [] = none
cut_bytes (b ∷ bs) = let cut = cut_bytes bs in if b == 0 then some ([], bs) else after_byte b cut

abbrev value_of : Option (Bytes × Bytes) → Option Bytes
value_of none = none
value_of (some (value, rest)) = some value

unfoldable pub c_string : Bytes → Option Bytes
c_string body = value_of (cut_bytes body)

unfoldable pub parse_name : Bytes → Option Bytes
parse_name body = c_string body

abbrev then_string : Option (Bytes × Bytes) → Option Bytes
then_string none = none
then_string (some (value, rest)) = c_string rest

unfoldable pub bind_name : Bytes → Option Bytes
bind_name body = then_string (cut_bytes body)

unfoldable pub target_name : Bytes → Option Bytes
target_name [] = none
target_name (b ∷ body) = if b == describe_statement then c_string body else none

unfoldable pub names_statement : ℕ → Bool
names_statement kind =
    kind == msg_parse || (kind == msg_bind || (kind == msg_describe || kind == msg_close))

unfoldable pub statement_name_of : ℕ → Bytes → Option Bytes
statement_name_of kind body =
    if kind == msg_bind
    then bind_name body
    else if kind == msg_describe || kind == msg_close
    then target_name body
    else none

-- PutUint32, big end first; the divisions wrap the number to 32 bits.
unfoldable pub put_uint32 : ℕ → Bytes
put_uint32 n = n / 16_777_216 % 256 ∷ n / 65_536 % 256 ∷ n / 256 % 256 ∷ n % 256 ∷ []

unfoldable pub close_body : Bytes → Bytes
close_body name = describe_statement ∷ (name ++ 0 ∷ [])

unfoldable pub close_statement : Bytes → Bytes
close_statement name = msg_close ∷ (put_uint32 (length (close_body name) + 4) ++ close_body name)
