-- ===== src/Binlog/Reader/Transactions.antt =====
-- vendors/mysql/cdc/event_stream.go: the log as transactions, and what a reader should report of them.
use gpool.Base.{◌≡◌, true, false, List, [], ◌∷◌, ◌++◌, none, some, ltb, Bytes}
use gpool.Replication.Catalog.{is_empty}
use gpool.Binlog.Position.{Texts, Position, gtid_at, file_at, encode}
use gpool.Binlog.Filter.{Folding}
use gpool.Binlog.Rows.{Change}
use gpool.Binlog.Reader.{
  Body, Round, rotate, gtid, mariadb_gtid, rows, xid, query, other, Reader, is_commit, run,
}
use gpool.Binlog.Reader.Steps.{AllAt}

-- A transaction in the log: its events, among them those that name its GTID or the file that follows,
-- and what ends it.
pub record LogTransaction (V : Type 0) : Type 0 where
  pub events : List (Round V)
  pub closing : Round V

abbrev pub rounds_of : {V : Type 0} → LogTransaction V → List (Round V)
rounds_of tx = tx.events ++ tx.closing ∷ []

-- The GTID that was named last, of MySQL or of MariaDB, and the file that was.
abbrev pub named_by : {V : Type 0} → Body V → Bytes → Bytes
named_by (rotate name pos) was = was
named_by (gtid none) was = was
named_by (gtid (some next)) was = next
named_by (mariadb_gtid next) was = next
named_by (rows table values) was = was
named_by xid was = was
named_by (query q) was = was
named_by other was = was

abbrev pub filed_by : {V : Type 0} → Body V → Bytes → Bytes
filed_by (rotate name pos) was = name
filed_by (gtid next) was = was
filed_by (mariadb_gtid next) was = was
filed_by (rows table values) was = was
filed_by xid was = was
filed_by (query q) was = was
filed_by other was = was

abbrev pub last_gtid : {V : Type 0} → List (Round V) → Bytes → Bytes
last_gtid [] was = was
last_gtid (r ∷ rounds) was = last_gtid rounds (named_by r.body was)

abbrev pub last_file : {V : Type 0} → List (Round V) → Bytes → Bytes
last_file [] was = was
last_file (r ∷ rounds) was = last_file rounds (filed_by r.body was)

abbrev pub NoCommits : {V : Type 0} → Folding → List (Round V) → Type 0
NoCommits fold [] = Unit {0}
NoCommits fold (r ∷ rounds) = (is_commit fold r.body ≡ false) × NoCommits fold rounds

pub record IsTransaction {V : Type 0} (fold : Folding) (tx : LogTransaction V) : Type 0 where
  pub goes_on : NoCommits fold tx.events
  pub closes : is_commit fold tx.closing.body ≡ true
  pub ends : ltb 0 tx.closing.log_pos ≡ true

-- A stream that follows GTIDs can name the place after the transaction only if that has one.
abbrev pub Identified : {V G : Type 0} → Position G → LogTransaction V → Type 0
Identified (gtid_at set) tx = is_empty (last_gtid tx.events []) ≡ false
Identified (file_at name pos) tx = Unit {0}

module _ {V G : Type 0} (fold : Folding) (x : Texts G) where
  -- The place after a transaction: the set with the GTID that it named last, or where it ends in the
  -- file that was named last.
  abbrev pub place_after : LogTransaction V → Position G → Position G
  place_after tx (gtid_at set) = gtid_at (x.add_gtid set (last_gtid tx.events []))
  place_after tx (file_at name pos) = file_at (last_file tx.events name) tx.closing.log_pos

  abbrev pub AllTransactions : Position G → List (LogTransaction V) → Type 0
  AllTransactions place [] = Unit {0}
  AllTransactions place (tx ∷ txs) =
      IsTransaction fold tx × Identified place tx × AllTransactions (place_after tx place) txs

-- What reading adds to the changes that are delivered, all of it at this place.
abbrev pub Adds : {V G : Type 0} (x : Texts G) → Position G → Reader V G → Reader V G → Type 0
Adds {V} x place s s' =
    (changes : List (Change V)) × (s'.delivered ≡ s.delivered ++ changes)
    × AllAt (encode x place) changes

module _ {V G : Type 0} (fold : Folding) (x : Texts G) where
  -- A reader that is at a place reads these transactions and then the rest: what each transaction
  -- adds is at the place after the one before it.
  abbrev pub Reports : Position G → List (LogTransaction V) → List (Round V) → Reader V G → Type 0
  Reports place [] rest s = Adds x place s (run fold x rest s)
  Reports place (tx ∷ txs) rest s =
      Adds x place s (run fold x (rounds_of tx) s)
      × Reports (place_after fold x tx place) txs rest (run fold x (rounds_of tx) s)
