-- ===== src/Binlog/Reader.antt =====
-- vendors/mysql/cdc/event_stream.go: the reader of the binary log.
--
-- A round of the loop is what it gets: an event, the filter at that time, and what the catalog would
-- answer. `room` is the number of changes that the consumer takes before it closes the stream, which
-- ends the context.
mod Steps
pub mod Transactions
mod Following
pub mod Resumes
use gpool.Base.{
  ℕ, zero, suc, ◌%◌, Bool, true, false, not, ◌&&◌, List, [], ◌∷◌, ◌++◌, Option, none, some, ltb,
  if◌then◌else◌, Bytes, same_bytes, put, codes,
}
use gpool.Replication.Decode.{Op}
use gpool.Replication.Catalog.{is_empty}
use gpool.Binlog.Position.{Texts, Position, gtid_at, file_at, encode}
use gpool.Binlog.Filter.{Folding, allows}
use gpool.Binlog.Columns.{Table, Cache, Names, named, load_failed, schema_mismatch, column_names}
use gpool.Binlog.Rows.{Cell, EventType, op_of, Change, decode_rows}

pub data Body (V : Type 0) : Type 0 where
  rotate : Bytes → ℕ → Body V
  gtid : Option Bytes → Body V
  mariadb_gtid : Bytes → Body V
  rows : Table → List (List (Cell V)) → Body V
  xid : Body V
  query : Bytes → Body V
  other : Body V

pub record Round (V : Type 0) : Type 0 where
  pub body : Body V
  pub event_type : EventType
  pub timestamp : ℕ
  pub log_pos : ℕ
  pub filter : List Bytes
  pub loaded : Option (List Bytes)

pub record Tracker (G : Type 0) : Type 0 where
  pub set : Option G
  pub next : Bytes
  pub file_name : Bytes
  pub file_pos : ℕ

pub record Reader (V G : Type 0) : Type 0 where
  pub tracker : Tracker G
  pub resume : Bytes
  pub cache : Cache
  pub delivered : List (Change V)
  pub room : ℕ
  pub running : Bool
  pub failed : Bool

module _ {G : Type 0} (x : Texts G) where
  abbrev pub commit_set : Option G → Tracker G → Tracker G × Bytes
  commit_set none t = (t, encode x (file_at t.file_name t.file_pos))
  commit_set (some set) t =
      if is_empty t.next then (t, encode x (file_at t.file_name t.file_pos)) else (
        record t { set = some (x.add_gtid set t.next); next = [] },
        encode x (gtid_at (x.add_gtid set t.next)),
      )

  unfoldable pub commit : Tracker G → Tracker G × Bytes
  commit t = commit_set t.set t

  unfoldable pub new_tracker : Position G → Tracker G
  new_tracker (gtid_at set) = record { set = some set; next = []; file_name = []; file_pos = 0 }
  new_tracker (file_at name pos) = record {
    set = none;
    next = [];
    file_name = name;
    file_pos = pos;
  }

module _ {V : Type 0} where
  abbrev pub announced : Body V → Bytes → Bytes
  announced (gtid (some next)) was = next
  announced (mariadb_gtid next) was = next
  announced body was = was

module _ {V : Type 0} (fold : Folding) where
  unfoldable pub is_commit : Body V → Bool
  is_commit xid = true
  is_commit (query q) = fold.equal_fold (fold.trim_space q) (codes "COMMIT")
  is_commit body = false

module _ {V G : Type 0} where
  abbrev pub observed : Body V → ℕ → Tracker G → Tracker G
  observed (rotate name pos) log_pos t = record t {
    file_name = name;
    file_pos = pos % 4_294_967_296;
  }
  observed body log_pos t = record t {
    next = announced body t.next;
    file_pos = if ltb 0 log_pos then log_pos else t.file_pos;
  }

  unfoldable pub observe : Round V → Tracker G → Tracker G
  observe r t = observed r.body r.log_pos t

  unfoldable pub deliver_within : ℕ → List (Change V) → Reader V G → Reader V G
  deliver_within room [] s = record s { room = room }
  deliver_within zero (c ∷ changes) s = record s { room = 0; running = false }
  deliver_within (suc room) (c ∷ changes) s =
      deliver_within room changes (record s { delivered = s.delivered ++ c ∷ [] })

  unfoldable pub deliver : List (Change V) → Reader V G → Reader V G
  deliver changes s = deliver_within s.room changes s

  abbrev pub with_names :
      Table → Op → ℕ → List (List (Cell V)) → Cache × Names → Reader V G → Reader V G
  with_names table op committed values (cache, named names) s =
      deliver (decode_rows table op names s.resume committed values) (record s { cache = cache })
  with_names table op committed values (cache, load_failed) s = record s {
    cache = cache;
    running = false;
    failed = true;
  }
  with_names table op committed values (cache, schema_mismatch) s = record s {
    cache = cache;
    running = false;
    failed = true;
  }

  abbrev pub committed : Tracker G × Bytes → Reader V G → Reader V G
  committed (t, place) s = record s { tracker = t; resume = place }

module _ {V G : Type 0} (fold : Folding) (x : Texts G) where
  abbrev pub with_op : Option Op → Table → List (List (Cell V)) → Round V → Reader V G → Reader V G
  with_op none table values r s = s
  with_op (some op) table values r s =
      let named_rows =
        with_names table op r.timestamp values
          (column_names fold table table.column_count r.loaded s.cache) s in
      if allows fold table.schema table.name r.filter then named_rows else s

  unfoldable pub handle_rows : Table → List (List (Cell V)) → Round V → Reader V G → Reader V G
  handle_rows table values r s = with_op (op_of r.event_type) table values r s

  abbrev pub handle_body : Body V → Round V → Reader V G → Reader V G
  handle_body (rows table values) r s = handle_rows table values r s
  handle_body body r s = if is_commit fold body then committed (commit x s.tracker) s else s

  unfoldable pub handle : Round V → Reader V G → Reader V G
  handle r s = handle_body r.body r s

  unfoldable pub read_round : Round V → Reader V G → Reader V G
  read_round r s = if s.running then handle r (record s { tracker = observe r s.tracker }) else s

  unfoldable pub run : List (Round V) → Reader V G → Reader V G
  run [] s = s
  run (r ∷ rounds) s = run rounds (read_round r s)

module _ {V G : Type 0} (x : Texts G) where
  unfoldable pub new_reader : Position G → ℕ → Reader V G
  new_reader start room = record {
    tracker = new_tracker x start;
    resume = encode x start;
    cache = [];
    delivered = [];
    room = room;
    running = true;
    failed = false;
  }
