-- ===== src/Binlog/Filter.antt =====
-- vendors/mysql/cdc/filter.go: the set of tables that a stream delivers.
--
-- A set is the list of its names, and a lock makes each method one step. Lower case, trimming
-- and the comparison up to case are the library's, a record of functions. `list` without its order is the list itself.
pub mod Edits
use gpool.Base.{
  ℕ, Bool, true, false, not, ◌&&◌, List, [], ◌∷◌, ◌++◌, Bytes, same_bytes, codes, if◌then◌else◌,
}
use gpool.Replication.Catalog.{has}

pub record Folding : Type 0 where
  pub to_lower : Bytes → Bytes
  pub trim_space : Bytes → Bytes
  pub equal_fold : Bytes → Bytes → Bool

abbrev pub none_in : List Bytes → Bool
none_in [] = true
none_in (t ∷ ts) = false

abbrev pub insert : Bytes → List Bytes → List Bytes
insert t ts = if has ts t then ts else t ∷ ts

abbrev pub discard : Bytes → List Bytes → List Bytes
discard t [] = []
discard t (u ∷ us) = let rest = discard t us in if same_bytes u t then rest else u ∷ rest

module _ (fold : Folding) where
  unfoldable pub normalize : Bytes → Bytes
  normalize table = fold.to_lower (fold.trim_space table)

  unfoldable pub qualify : Bytes → Bytes → Bytes
  qualify schema table = fold.to_lower (schema ++ codes "." ++ table)

  unfoldable pub add : List Bytes → List Bytes → List Bytes
  add [] f = f
  add (table ∷ tables) f = add tables (insert (normalize table) f)

  unfoldable pub remove : List Bytes → List Bytes → List Bytes
  remove [] f = f
  remove (table ∷ tables) f = remove tables (discard (normalize table) f)

  unfoldable pub set_tables : List Bytes → List Bytes
  set_tables tables = add tables []

  unfoldable pub is_tracked : Bytes → List Bytes → Bool
  is_tracked table f = has f (normalize table)

  unfoldable pub allows : Bytes → Bytes → List Bytes → Bool
  allows schema table f = if none_in f then true else has f (qualify schema table)
