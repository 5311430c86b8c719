-- ===== src/Replication/Statements.antt =====
-- pkg/vendors/postgres/cdc/statement.go and config.go: the statements that the subscriber sends and
-- the configuration that it accepts.
use gpool.Base.{
  ℕ, Bool, true, false, not, ◌&&◌, ◌||◌, List, [], ◌∷◌, ◌++◌, Option, none, some, leb,
  if◌then◌else◌, length, ℤ, pos, le_int, Bytes, codes,
}
use gpool.Replication.Catalog.{quote_identifier, quote_qualified_names, is_empty}

unfoldable pub create_publication_sql : Bytes → List Bytes → Bytes
create_publication_sql name tables =
    codes "CREATE PUBLICATION "
    ++ (quote_identifier name ++ (codes " FOR TABLE " ++ quote_qualified_names tables))

unfoldable pub set_publication_tables_sql : Bytes → List Bytes → Bytes
set_publication_tables_sql name tables =
    codes "ALTER PUBLICATION "
    ++ (quote_identifier name ++ (codes " SET TABLE " ++ quote_qualified_names tables))

unfoldable pub add_publication_tables_sql : Bytes → List Bytes → Bytes
add_publication_tables_sql name tables =
    codes "ALTER PUBLICATION "
    ++ (quote_identifier name ++ (codes " ADD TABLE " ++ quote_qualified_names tables))

unfoldable pub drop_publication_tables_sql : Bytes → List Bytes → Bytes
drop_publication_tables_sql name tables =
    codes "ALTER PUBLICATION "
    ++ (quote_identifier name ++ (codes " DROP TABLE " ++ quote_qualified_names tables))

unfoldable pub drop_publication_sql : Bytes → Bytes
drop_publication_sql name = codes "DROP PUBLICATION IF EXISTS " ++ quote_identifier name

-- The statements, as the data that a server is given, and their text.
pub data Statement : Type 0 where
  create_for : Bytes → List Bytes → Statement
  set_to : Bytes → List Bytes → Statement
  add_to : Bytes → List Bytes → Statement
  drop_from : Bytes → List Bytes → Statement
  drop_whole : Bytes → Statement

unfoldable pub sql : Statement → Bytes
sql (create_for name tables) = create_publication_sql name tables
sql (set_to name tables) = set_publication_tables_sql name tables
sql (add_to name tables) = add_publication_tables_sql name tables
sql (drop_from name tables) = drop_publication_tables_sql name tables
sql (drop_whole name) = drop_publication_sql name

pub record Config : Type 0 where
  pub conn_string : Bytes
  pub slot_name : Bytes
  pub publication_name : Bytes
  pub tables : List Bytes
  pub create_slot : Bool
  pub create_publication : Bool
  pub start_lsn : ℕ
  pub standby_interval : ℤ
  pub buffer : ℤ

-- Ten seconds, in nanoseconds.
abbrev pub default_standby_interval : ℤ
default_standby_interval = pos 10_000_000_000

abbrev pub default_buffer : ℤ
default_buffer = pos 256

unfoldable pub with_defaults : Config → Config
with_defaults c = record c {
  standby_interval =
      if le_int c.standby_interval (pos 0) then default_standby_interval else c.standby_interval;
  buffer = if le_int c.buffer (pos 0) then default_buffer else c.buffer;
}

-- The characters [a-z0-9_].
unfoldable pub is_slot_char : ℕ → Bool
is_slot_char b = (leb 97 b && leb b 122) || ((leb 48 b && leb b 57) || (leb 95 b && leb b 95))

unfoldable pub all_slot_chars : Bytes → Bool
all_slot_chars [] = true
all_slot_chars (b ∷ name) = is_slot_char b && all_slot_chars name

-- `slotNamePattern`.
unfoldable pub is_slot_name : Bytes → Bool
is_slot_name name = leb 1 (length name) && (leb (length name) 63 && all_slot_chars name)

abbrev pub no_tables : List Bytes → Bool
no_tables [] = true
no_tables (t ∷ ts) = false

pub data Complaint : Type 0 where
  no_conn_string : Complaint
  no_slot_name : Complaint
  bad_slot_name : Complaint
  no_publication_name : Complaint
  tables_required : Complaint

unfoldable pub validate : Config → Option Complaint
validate c =
    if is_empty c.conn_string
    then some no_conn_string
    else if is_empty c.slot_name
    then some no_slot_name
    else if not (is_slot_name c.slot_name)
    then some bad_slot_name
    else if is_empty c.publication_name
    then some no_publication_name
    else if c.create_publication && no_tables c.tables
    then some tables_required
    else none
