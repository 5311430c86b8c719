-- ===== src/Sql/Value.antt =====
-- pkg/sqldriver/value.go: a driver's value is copied into a caller's destination.
--
-- A destination is the kind of its pointer, and what is assigned is the value that it then holds.
-- Integers are mathematical ones within their width: a signed value is an integer, an unsigned one a
-- natural number. Floating-point numbers, times and the text of the two are a record of functions,
-- and so is a caller's own Scanner. `int` and `uint` have 64 bits.
pub mod Integers
use gpool.Base.{
  ℕ, zero, suc, ◌+◌, ◌-◌, ◌*◌, ◌%◌, Bool, true, false, not, ◌&&◌, List, [], ◌∷◌, Option, none, some,
  ltb, leb, ◌==◌, if◌then◌else◌, ℤ, pos, negsuc, Bytes,
}

-- The values that a driver gives: those that database/sql documents, and the native ones that are
-- told apart by their kind. The width of an integer is its number of bits.
pub data Value (F T : Type 0) : Type 0 where
  null : Value F T
  int64 : ℤ → Value F T
  float64 : F → Value F T
  boolean : Bool → Value F T
  bytes : Bytes → Value F T
  text : Bytes → Value F T
  time : T → Value F T
  int_kind : ℤ → Value F T
  uint_kind : ℕ → Value F T
  float_kind : F → Value F T
  bool_kind : Bool → Value F T
  string_kind : Bytes → Value F T
  other : Value F T

-- The widths of Go's integers, of both signs.
pub data Width : Type 0 where
  w8 : Width
  w16 : Width
  w32 : Width
  w64 : Width

-- The number of values that a width has.
abbrev pub range_of : Width → ℕ
range_of w8 = 256
range_of w16 = 65_536
range_of w32 = 4_294_967_296
range_of w64 = 18_446_744_073_709_551_616

pub data Dest : Type 0 where
  any_dest : Dest
  bytes_dest : Dest
  string_dest : Dest
  bool_dest : Dest
  time_dest : Dest
  uint_dest : Width → Dest
  int_dest : Width → Dest
  float32_dest : Dest
  float64_dest : Dest
  unknown_dest : Dest

-- What the destination holds afterwards; a nil slice is `nil_held`.
pub data Held (F T : Type 0) : Type 0 where
  any_held : Value F T → Held F T
  nil_held : Held F T
  bytes_held : Bytes → Held F T
  bool_held : Bool → Held F T
  time_held : T → Held F T
  uint_held : ℕ → Held F T
  int_held : ℤ → Held F T
  float_held : F → Held F T

-- What is taken from the library: floats, times and the texts of values.
pub record Formats (F T : Type 0) : Type 0 where
  pub to_float32 : F → F
  pub float_of : ℤ → F
  pub truncate : F → ℤ
  pub parse_float : Bytes → Option F
  pub parse_int : Bytes → Option ℤ
  pub parse_bool : Bytes → Option Bool
  pub parse_time : Bytes → Bytes → Option T
  pub stringify_value : Value F T → Bytes

-- The conversions `uintW(v)` and `intW(v)` of a 64-bit value: its last bits, read without a sign and
-- in two's complement.
unfoldable pub wrap_uint : Width → ℤ → ℕ
wrap_uint w (pos n) = n % range_of w
wrap_uint w (negsuc n) = range_of w - 1 - n % range_of w

unfoldable pub signed : Width → ℕ → ℤ
signed w n = if ltb (n * 2) (range_of w) then pos n else negsuc (range_of w - 1 - n)

unfoldable pub wrap_int : Width → ℤ → ℤ
wrap_int w v = signed w (wrap_uint w v)

module _ {F T : Type 0} (f : Formats F T) where
  abbrev of_bool : Bool → ℤ
  of_bool true = pos 1
  of_bool false = pos 0

  unfoldable pub to_int64 : Value F T → Option ℤ
  to_int64 null = none
  to_int64 (int64 v) = some v
  to_int64 (float64 x) = some (f.truncate x)
  to_int64 (boolean b) = some (of_bool b)
  to_int64 (bytes s) = f.parse_int s
  to_int64 (text s) = f.parse_int s
  to_int64 (time t) = none
  to_int64 (int_kind v) = some v
  to_int64 (uint_kind n) = some (wrap_int w64 (pos n))
  to_int64 (float_kind x) = some (f.truncate x)
  to_int64 (bool_kind b) = some (of_bool b)
  to_int64 (string_kind s) = f.parse_int s
  to_int64 other = none

  unfoldable pub to_uint64 : Value F T → Option ℕ
  to_uint64 (uint_kind n) = some n
  to_uint64 src = elim (to_int64 src) [ none ↦ none | some v ↦ some (wrap_uint w64 v) ]

  unfoldable pub to_float64 : Value F T → Option F
  to_float64 null = none
  to_float64 (int64 v) = some (f.float_of v)
  to_float64 (float64 x) = some x
  to_float64 (boolean b) = none
  to_float64 (bytes s) = f.parse_float s
  to_float64 (text s) = f.parse_float s
  to_float64 (time t) = none
  to_float64 (int_kind v) = some (f.float_of v)
  to_float64 (uint_kind n) = some (f.float_of (pos n))
  to_float64 (float_kind x) = some x
  to_float64 (bool_kind b) = none
  to_float64 (string_kind s) = f.parse_float s
  to_float64 other = none

  unfoldable pub assign_integer : Dest → Value F T → Option (Held F T)
  assign_integer (uint_dest w) src = elim (to_uint64 src) [
    | none ↦ none
    | some n ↦ some (uint_held (n % range_of w))
  ]
  assign_integer (int_dest w) src = elim (to_int64 src) [
    | none ↦ none
    | some v ↦ some (int_held (wrap_int w v))
  ]
  assign_integer dest src = none

  unfoldable pub assign_float : Dest → Value F T → Option (Held F T)
  assign_float float32_dest src = elim (to_float64 src) [
    | none ↦ none
    | some x ↦ some (float_held (f.to_float32 x))
  ]
  assign_float float64_dest src = elim (to_float64 src) [
    | none ↦ none
    | some x ↦ some (float_held x)
  ]
  assign_float dest src = none

  unfoldable pub stringify : Value F T → Bytes
  stringify null = []
  stringify (text s) = s
  stringify (bytes s) = s
  stringify src = f.stringify_value src

  unfoldable pub assign_bytes : Value F T → Held F T
  assign_bytes null = nil_held
  assign_bytes src = bytes_held (stringify src)

  unfoldable pub assign_string : Value F T → Option (Held F T)
  assign_string null = none
  assign_string src = some (bytes_held (stringify src))

  abbrev is_set : ℤ → Bool
  is_set (pos n) = not (n == 0)
  is_set (negsuc n) = true

  abbrev held_bool : Option Bool → Option (Held F T)
  held_bool none = none
  held_bool (some b) = some (bool_held b)

  unfoldable pub assign_bool : Value F T → Option (Held F T)
  assign_bool (boolean b) = some (bool_held b)
  assign_bool (int64 v) = some (bool_held (is_set v))
  assign_bool (bytes s) = held_bool (f.parse_bool s)
  assign_bool (text s) = held_bool (f.parse_bool s)
  assign_bool src = elim (to_int64 src) [ none ↦ none | some v ↦ some (bool_held (is_set v)) ]

  -- The first of the layouts that reads the text.
  unfoldable pub parse_time : List Bytes → Bytes → Option T
  parse_time [] value = none
  parse_time (layout ∷ layouts) value =
      let later = parse_time layouts value in
      elim (f.parse_time layout value) [ none ↦ later | some t ↦ some t ]

  unfoldable pub assign_time : List Bytes → Value F T → Option T
  assign_time layouts (time t) = some t
  assign_time layouts (bytes s) = parse_time layouts s
  assign_time layouts (text s) = parse_time layouts s
  assign_time layouts src = none

  abbrev held_time : Option T → Option (Held F T)
  held_time none = none
  held_time (some t) = some (time_held t)

  -- The number, or what the other kind of number makes of the value.
  abbrev or_float : Dest → Value F T → Option (Held F T) → Option (Held F T)
  or_float dest src none = assign_float dest src
  or_float dest src (some h) = some h

  unfoldable pub assign_number : Dest → Value F T → Option (Held F T)
  assign_number dest null = none
  assign_number dest src = or_float dest src (assign_integer dest src)

  -- `assign`, for a destination that is no Scanner.
  unfoldable pub assign : List Bytes → Dest → Value F T → Option (Held F T)
  assign layouts any_dest src = some (any_held src)
  assign layouts bytes_dest src = some (assign_bytes src)
  assign layouts string_dest src = assign_string src
  assign layouts bool_dest src = assign_bool src
  assign layouts time_dest src = held_time (assign_time layouts src)
  assign layouts dest src = assign_number dest src

  -- `RawValues`: a value as text, and nil for NULL.
  unfoldable pub raw_values : List (Value F T) → List (Option Bytes)
  raw_values [] = []
  raw_values (null ∷ values) = none ∷ raw_values values
  raw_values (src ∷ values) = some (stringify src) ∷ raw_values values

  abbrev and_held : Option (Held F T) → Option (List (Held F T)) → Option (List (Held F T))
  and_held none rest = none
  and_held (some h) none = none
  and_held (some h) (some rest) = some (h ∷ rest)

  -- `scanInto`: what the destinations hold, if there is one for each value and all can be assigned.
  unfoldable pub scan_into : List Bytes → List Dest → List (Value F T) → Option (List (Held F T))
  scan_into layouts [] [] = some []
  scan_into layouts [] (v ∷ values) = none
  scan_into layouts (d ∷ dests) [] = none
  scan_into layouts (d ∷ dests) (v ∷ values) =
      and_held (assign layouts d v) (scan_into layouts dests values)
