-- ===== src/Binlog/Rows.antt =====
-- vendors/mysql/cdc/decoder.go: the changes of one event of the binary log.
--
-- A cell is what the parser gives, and what a consumer gets: bytes become text.
use gpool.Base.{ℕ, List, [], ◌∷◌, Option, none, some, Bytes, same_bytes, put}
use gpool.Replication.Decode.{Op, op_insert, op_update, op_delete}
use gpool.Binlog.Columns.{Table}

pub data Cell (V : Type 0) : Type 0 where
  raw : Bytes → Cell V
  text : Bytes → Cell V
  value : V → Cell V

pub data EventType : Type 0 where
  write_rows0 write_rows1 write_rows2 : EventType
  update_rows0 update_rows1 update_rows2 partial_update_rows : EventType
  delete_rows0 delete_rows1 delete_rows2 : EventType
  other_type : EventType

unfoldable pub op_of : EventType → Option Op
op_of write_rows0 = some op_insert
op_of write_rows1 = some op_insert
op_of write_rows2 = some op_insert
op_of update_rows0 = some op_update
op_of update_rows1 = some op_update
op_of update_rows2 = some op_update
op_of partial_update_rows = some op_update
op_of delete_rows0 = some op_delete
op_of delete_rows1 = some op_delete
op_of delete_rows2 = some op_delete
op_of other_type = none

abbrev pub Columns : Type 0 → Type 0
Columns V = Option (List (Bytes × Cell V))

pub record Change (V : Type 0) : Type 0 where
  pub op : Op
  pub schema : Bytes
  pub table : Bytes
  pub position : Bytes
  pub transaction : Bytes
  pub timestamp : ℕ
  pub before : Columns V
  pub after : Columns V

module _ {V : Type 0} where
  abbrev as_text : Cell V → Cell V
  as_text (raw b) = text b
  as_text (text b) = text b
  as_text (value v) = value v

  abbrev pair_up : List Bytes → List (Cell V) → List (Bytes × Cell V) → List (Bytes × Cell V)
  pair_up names [] values = values
  pair_up [] (v ∷ row) values = values
  pair_up (n ∷ names) (v ∷ row) values = pair_up names row (put same_bytes values n (as_text v))

  unfoldable pub column_map : List Bytes → List (Cell V) → Columns V
  column_map names [] = none
  column_map names (v ∷ row) = some (pair_up names (v ∷ row) [])

  -- The rows of an update are pairs, and those of a deletion are what was there before.
  unfoldable pub decode_rows :
      Table → Op → List Bytes → Bytes → ℕ → List (List (Cell V)) → List (Change V)
  decode_rows table op names at committed [] = []
  decode_rows table op_update names at committed (row ∷ []) = []
  decode_rows table op_update names at committed (row ∷ row' ∷ more) =
      record {
        op = op_update;
        schema = table.schema;
        table = table.name;
        position = at;
        transaction = at;
        timestamp = committed;
        before = column_map names row;
        after = column_map names row';
      }
      ∷ decode_rows table op_update names at committed more
  decode_rows table op_insert names at committed (row ∷ more) =
      record {
        op = op_insert;
        schema = table.schema;
        table = table.name;
        position = at;
        transaction = at;
        timestamp = committed;
        before = none;
        after = column_map names row;
      }
      ∷ decode_rows table op_insert names at committed more
  decode_rows table op_delete names at committed (row ∷ more) =
      record {
        op = op_delete;
        schema = table.schema;
        table = table.name;
        position = at;
        transaction = at;
        timestamp = committed;
        before = column_map names row;
        after = none;
      }
      ∷ decode_rows table op_delete names at committed more
