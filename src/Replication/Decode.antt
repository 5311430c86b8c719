-- ===== src/Replication/Decode.antt =====
-- pkg/vendors/postgres/cdc/decoder.go and transaction.go: row messages become events.
--
-- The messages are those that pglogrepl parses, with the fields that the code reads. `render` is
-- pglogrepl's `LSN.String`, which writes a position.
pub mod Columns
use gpool.Base.{
  ℕ, ◌≡◌, List, [], ◌∷◌, Option, none, some, ◌==◌, if◌then◌else◌, Bytes, same_bytes, get, put,
}

pub record Relation : Type 0 where
  pub namespace : Bytes
  pub name : Bytes
  pub columns : List Bytes

pub record Column : Type 0 where
  pub kind : ℕ
  pub content : Bytes

abbrev pub Tuple : Type 0
Tuple = List Column

-- A column of a row: absent, a real NULL (`none`), or text.
abbrev pub Row : Type 0
Row = List (Bytes × Option Bytes)

pub data Op : Type 0 where
  op_insert op_update op_delete : Op

pub record Transaction : Type 0 where
  pub position : Bytes
  pub committed : ℕ

-- A nil map is `none`.
pub record Event : Type 0 where
  pub op : Op
  pub schema : Bytes
  pub table : Bytes
  pub position : Bytes
  pub timestamp : ℕ
  pub transaction : Bytes
  pub before : Option Row
  pub after : Option Row

-- The letters n and t; a third one, u, stands for a value that was not sent.
abbrev pub tuple_null : ℕ
tuple_null = 110

abbrev pub tuple_text : ℕ
tuple_text = 116

-- What a column adds to the row.
abbrev pub column_value : Column → Option (Option Bytes)
column_value col =
    if col.kind == tuple_null
    then some none
    else if col.kind == tuple_text
    then some (some col.content)
    else none

abbrev pub put_value : Row → Bytes → Option (Option Bytes) → Row
put_value row name none = row
put_value row name (some v) = put same_bytes row name v

-- The loop over the columns that both the tuple and the relation have.
unfoldable pub decode_columns : List Bytes → Tuple → Row → Row
decode_columns [] cols row = row
decode_columns (name ∷ names) [] row = row
decode_columns (name ∷ names) (col ∷ cols) row =
    decode_columns names cols (put_value row name (column_value col))

unfoldable pub decode_tuple : Relation → Option Tuple → Option Row
decode_tuple rel none = none
decode_tuple rel (some cols) = some (decode_columns rel.columns cols [])

module _ (render : ℕ → Bytes) where
  pub decode_insert : Relation → Option Tuple → ℕ → Transaction → Event
  decode_insert rel tuple lsn tx = record {
    op = op_insert;
    schema = rel.namespace;
    table = rel.name;
    position = render lsn;
    timestamp = tx.committed;
    transaction = tx.position;
    before = none;
    after = decode_tuple rel tuple;
  }

  pub decode_update : Relation → Option Tuple → Option Tuple → ℕ → Transaction → Event
  decode_update rel old_tuple new_tuple lsn tx = record {
    op = op_update;
    schema = rel.namespace;
    table = rel.name;
    position = render lsn;
    timestamp = tx.committed;
    transaction = tx.position;
    before = decode_tuple rel old_tuple;
    after = decode_tuple rel new_tuple;
  }

  pub decode_delete : Relation → Option Tuple → ℕ → Transaction → Event
  decode_delete rel old_tuple lsn tx = record {
    op = op_delete;
    schema = rel.namespace;
    table = rel.name;
    position = render lsn;
    timestamp = tx.committed;
    transaction = tx.position;
    before = decode_tuple rel old_tuple;
    after = none;
  }
