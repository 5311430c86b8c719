-- ===== src/Binlog/Columns.antt =====
-- vendors/mysql/cdc/columns.go: the names of a row's columns.
--
-- What the catalog gives to a query is an argument, none if the query fails. The cache's mutex is not
-- held across the query, but one reader only asks for names.
use gpool.Base.{
  ℕ, List, Option, none, some, ◌==◌, if◌then◌else◌, length, Bytes, same_bytes, get, put, del,
}
use gpool.Binlog.Filter.{Folding, qualify}

pub record Table : Type 0 where
  pub schema : Bytes
  pub name : Bytes
  pub column_names : List Bytes
  pub column_count : ℕ

abbrev pub Cache : Type 0
Cache = List (Bytes × List Bytes)

pub data Names : Type 0 where
  named : List Bytes → Names
  load_failed : Names
  schema_mismatch : Names

abbrev pub lookup : Bytes → Cache → Option (List Bytes)
lookup key cache = get same_bytes cache key

abbrev pub store : Bytes → List Bytes → Cache → Cache
store key names cache = put same_bytes cache key names

abbrev pub forget : Bytes → Cache → Cache
forget key cache = del same_bytes cache key

-- `names` from the query on.
unfoldable pub ask_names : Bytes → ℕ → Option (List Bytes) → Cache → Cache × Names
ask_names key want none cache = (cache, load_failed)
ask_names key want (some loaded) cache =
    if length loaded == want
    then (store key loaded cache, named loaded)
    else (cache, schema_mismatch)

abbrev pub known_names :
    Bytes → ℕ → Option (List Bytes) → Option (List Bytes) → Cache → Cache × Names
known_names key want loaded none cache = ask_names key want loaded cache
known_names key want loaded (some cached) cache =
    let again = ask_names key want loaded (forget key cache) in
    if length cached == want then (cache, named cached) else again

unfoldable pub column_names : Folding → Table → ℕ → Option (List Bytes) → Cache → Cache × Names
column_names fold table want loaded cache =
    let key = qualify fold table.schema table.name in
    let known = known_names key want loaded (lookup key cache) cache in
    if length table.column_names == want then (cache, named table.column_names) else known
