-- ===== src/Binlog/Position.antt =====
-- vendors/mysql/cdc/position.go: a place in the binary log, and its text.
--
-- GTID sets are a third party's, and the decimal text of a number is the library's: a record has
-- them. `add_gtid` is what Update leaves of a set, whether it gives an error or not.
pub mod Parsed
use gpool.Base.{ℕ, List, [], ◌∷◌, ◌++◌, Option, none, some, Bytes, codes}
use gpool.Proxy.Scram.{cut, cut_prefix, colon}

pub record Texts (G : Type 0) : Type 0 where
  pub gtid_text : G → Bytes
  pub parse_gtid : Bytes → Option G
  pub add_gtid : G → Bytes → G
  pub digits : ℕ → Bytes
  pub parse_uint32 : Bytes → Option ℕ

abbrev pub gtid_scheme : Bytes
gtid_scheme = codes "gtid:"

abbrev pub file_scheme : Bytes
file_scheme = codes "file:"

pub data Position (G : Type 0) : Type 0 where
  gtid_at : G → Position G
  file_at : Bytes → ℕ → Position G

module _ {G : Type 0} (x : Texts G) where
  unfoldable pub encode : Position G → Bytes
  encode (gtid_at set) = gtid_scheme ++ x.gtid_text set
  encode (file_at name pos) = file_scheme ++ (name ++ colon ∷ x.digits pos)

  abbrev pub gtid_position : Option G → Option (Position G)
  gtid_position none = none
  gtid_position (some set) = some (gtid_at set)

  abbrev pub offset_position : Bytes → Option ℕ → Option (Position G)
  offset_position name none = none
  offset_position name (some pos) = some (file_at name pos)

  abbrev pub file_position : Option (Bytes × Bytes) → Option (Position G)
  file_position none = none
  file_position (some ([], offset)) = none
  file_position (some (b ∷ name, offset)) = offset_position (b ∷ name) (x.parse_uint32 offset)

  abbrev pub file_rest : Option Bytes → Option (Position G)
  file_rest none = none
  file_rest (some rest) = file_position (cut rest (colon ∷ []))

  unfoldable pub read_position : Bytes → Option (Position G)
  read_position text = elim (cut_prefix text gtid_scheme) [
    | none ↦ file_rest (cut_prefix text file_scheme)
    | some set ↦ gtid_position (x.parse_gtid set)
  ]
