-- ===== src/CopyRows.antt =====
-- pkg/gpool/copy_rows.go: a cursor over rows that a callback gives by index.
pub mod Laws
mod Tests
use gpool.Base.{
  ℕ, ◌≡◌, Bool, true, false, List, [], ◌∷◌, Option, none, some, ℤ, pos, negsuc, incr, lt_int,
}

-- What the callback gives for an index: the values of a row, or an error.
pub data Fetched {ℓ} (R E : Type ℓ) : Type ℓ where
  fetched : R → Fetched R E
  failed : E → Fetched R E

pub record SliceRows {ℓ} (E : Type ℓ) : Type ℓ where
  pub length : ℤ
  pub index : ℤ
  pub error : Option E

module _ {ℓ} {R E : Type ℓ} where
  abbrev pub record_error : Fetched R E → SliceRows E → SliceRows E × Option R
  record_error (fetched r) s = (s, some r)
  record_error (failed e) s = (record s { error = some e }, none)

  unfoldable pub values : (ℤ → Fetched R E) → SliceRows E → SliceRows E × Option R
  values next s = record_error (next s.index) s

module _ {ℓ} {E : Type ℓ} where
  abbrev pub copy_from_slice : ℤ → SliceRows E
  copy_from_slice length = record { length = length; index = negsuc 0; error = none }

  unfoldable pub advance : SliceRows E → SliceRows E × Bool
  advance s = elim s.error [
    | some e ↦ (s, false)
    | none ↦ (record s { index = incr s.index }, lt_int (incr s.index) s.length)
  ]
