-- ===== src/Binlog/Tests.antt =====
-- Runs of the reader of the binary log, and each property at a concrete input.
use gpool.Base.{
  ℕ, ◌≡◌, refl, arith, true, ◌||◌, List, [], ◌∷◌, ◌++◌, Option, none, some, Bytes, codes,
  same_bytes,
}
use gpool.Proxy.Scram.Stored.{Lacks}
use gpool.Proxy.Scram.{colon}
use gpool.Binlog.Position.{Texts, Position, file_at, encode, read_position}
use gpool.Binlog.Position.Parsed.{TextsLaws, read_position-encode}
use gpool.Binlog.Filter.{
  Folding, none_in, normalize, qualify, set_tables, is_tracked, allows, add, remove,
}
use gpool.Binlog.Filter.Edits.{Edit, adds, removes, edit, told, named_among, is_tracked-edit}
use gpool.Binlog.Columns.{Table, column_names}
use gpool.Binlog.Rows.{value, write_rows2, other_type, Change, op_of, decode_rows}
use gpool.Binlog.Reader.{
  Body, gtid, mariadb_gtid, rotate, rows, xid, query, Round, run, new_reader, is_commit, read_round,
  handle, handle_rows, deliver, deliver_within, commit, observe, new_tracker,
}
use gpool.Binlog.Reader.Transactions.{
  LogTransaction, rounds_of, AllTransactions, NoCommits, Reports,
}
use gpool.Binlog.Reader.Resumes.{run-Reports}

abbrev folding : Folding
folding = record { to_lower = λ s. s; trim_space = λ s. s; equal_fold = same_bytes }

-- A GTID set is its text, and so is a number a single byte.
abbrev first_of : Bytes → Option ℕ
first_of [] = none
first_of (n ∷ s) = some n

abbrev texts : Texts Bytes
texts = record {
  gtid_text = λ set. set;
  parse_gtid = λ set. some set;
  add_gtid = λ set next. next;
  digits = λ n. n ∷ [];
  parse_uint32 = first_of;
}

texts-laws : TextsLaws texts
texts-laws = record { parse_gtid-gtid_text = λ set. refl; parse_uint32-digits = λ n h. refl }

bin-Lacks : Lacks colon (codes "bin.1")
bin-Lacks = (
  (λ q. ground (arith, q)),
  (
    (λ q. ground (arith, q)),
    ((λ q. ground (arith, q)), ((λ q. ground (arith, q)), ((λ q. ground (arith, q)), tt))),
  ),
)

read_position-encode_example :
    read_position texts (encode texts (file_at (codes "bin.1") 9))
    ≡ some (file_at (codes "bin.1") 9)
read_position-encode_example =
    read_position-encode texts texts-laws (file_at (codes "bin.1") 9) (bin-Lacks, refl)

abbrev edits : List Edit
edits = adds (codes "a.c" ∷ []) ∷ removes (codes "a.b" ∷ []) ∷ []

is_tracked-edit_example :
    let f : List Bytes = edit folding edits (set_tables folding (codes "a.b" ∷ [])) in
    (is_tracked folding (codes "a.b") f
      ≡ told folding edits
          (normalize folding (codes "a.b"))
          (named_among folding (codes "a.b" ∷ []) (normalize folding (codes "a.b"))))
    × (allows folding (codes "a") (codes "c") f ≡ (
        none_in f
        || told folding edits
            (qualify folding (codes "a") (codes "c"))
            (named_among folding (codes "a.b" ∷ []) (qualify folding (codes "a") (codes "c")))))
is_tracked-edit_example =
    is_tracked-edit folding (codes "a.b" ∷ []) edits (codes "a.b") (codes "a") (codes "c")

-- Once the last table is removed, its changes are let through.
removed_allows :
    allows folding
      (codes "a")
      (codes "b")
      (edit folding (removes (codes "a.b" ∷ []) ∷ []) (set_tables folding (codes "a.b" ∷ [])))
    ≡ true
unfolding allows edit remove set_tables add normalize
removed_allows = refl

abbrev table : Table
table = record {
  schema = codes "a";
  name = codes "b";
  column_names = codes "id" ∷ [];
  column_count = 1;
}

abbrev inserted : ℕ → ℕ → Round ℕ
inserted v pos = record {
  body = rows table ((value v ∷ []) ∷ []);
  event_type = write_rows2;
  timestamp = 0;
  log_pos = pos;
  filter = [];
  loaded = none;
}

abbrev control : Body ℕ → ℕ → Round ℕ
control body pos = record {
  body = body;
  event_type = other_type;
  timestamp = 0;
  log_pos = pos;
  filter = [];
  loaded = none;
}

-- An inserted row after the GTID of a statement that ended nothing, and then a file of its own.
abbrev first_transaction : LogTransaction ℕ
first_transaction = record {
  events =
      control (mariadb_gtid (7 ∷ [])) 5
      ∷ control (gtid (some (1 ∷ []))) 10
      ∷ inserted 1 20
      ∷ inserted 2 30
      ∷ [];
  closing = control xid 40;
}

abbrev second_transaction : LogTransaction ℕ
second_transaction = record {
  events = control (rotate (codes "bin.2") 4) 0 ∷ inserted 3 20 ∷ [];
  closing = control (query (codes "COMMIT")) 30;
}

abbrev log : List (LogTransaction ℕ)
log = first_transaction ∷ second_transaction ∷ []

abbrev start : Position Bytes
start = file_at (codes "bin.1") 4

abbrev positions : {V : Type 0} → List (Change V) → List Bytes
positions [] = []
positions (c ∷ changes) = c.position ∷ positions changes

reported :
    positions
      (run folding texts
        (rounds_of first_transaction ++ rounds_of second_transaction ++ inserted 4 40 ∷ [])
        (new_reader texts start 9)).delivered
    ≡ encode texts start
      ∷ encode texts start
      ∷ encode texts (file_at (codes "bin.1") 40)
      ∷ encode texts (file_at (codes "bin.2") 30)
      ∷ []
unfolding run read_round new_reader handle is_commit handle_rows op_of allows column_names deliver
    deliver_within decode_rows encode commit observe new_tracker
reported = refl

log-AllTransactions : AllTransactions folding texts start log
unfolding is_commit
log-AllTransactions = (
  record { goes_on = (refl, (refl, (refl, (refl, tt)))); closes = refl; ends = refl },
  tt,
  (record { goes_on = (refl, (refl, tt)); closes = refl; ends = refl }, tt, tt),
)

rest-NoCommits : NoCommits folding (inserted 4 40 ∷ [])
unfolding is_commit
rest-NoCommits = (refl, tt)

run-Reports_example :
    Reports folding texts start log (inserted 4 40 ∷ []) (new_reader texts start 9)
run-Reports_example =
    run-Reports folding texts start 9 log (inserted 4 40 ∷ []) log-AllTransactions rest-NoCommits
