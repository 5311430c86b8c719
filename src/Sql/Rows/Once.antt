-- ===== src/Sql/Rows/Once.antt =====
-- pkg/sqldriver/row.go: the connection of a single row goes back to the pool once.
use gpool.Base.{◌≡◌, Bool, true, List, [], ◌∷◌, Option, arith}
use gpool.Sql.Rows.{
  Answer, row, failure, eof, new_rows, one, close, next, rows_closed, Row, new_row, scan_row,
  release_row,
}

-- A caller's call on a row.
pub data RowCall : Type 0 where
  scans : RowCall
  releases : RowCall

module _ {R E : Type 0} where
  unfoldable pub row_call : RowCall → Row R E → Row R E
  row_call scans r = (scan_row r).0
  row_call releases r = release_row r

  unfoldable pub use_row : List RowCall → Row R E → Row R E
  use_row [] r = r
  use_row (call ∷ calls) r = use_row calls (row_call call r)

  -- Its rows are closed, and what they hold was given back once.
  pub record Finished (owned prepared : Bool) (r : Row R E) : Type 0 where
    pub used : r.done ≡ true
    pub shut : r.rows.closed ≡ true
    pub once : r.rows.releases ≡ one owned 0
    pub statement : r.rows.statements ≡ one prepared 0
    pub ended : r.rows.ends ≡ 1

  row_call-Finished :
      (owned prepared : Bool) (call : RowCall) (r : Row R E)
      → Finished owned prepared r
      → Finished owned prepared (row_call call r)
  unfolding row_call scan_row release_row
  row_call-Finished owned prepared scans r h = ground arith
  row_call-Finished owned prepared releases r h = ground arith

  use_row-Finished :
      (owned prepared : Bool) (calls : List RowCall) (r : Row R E)
      → Finished owned prepared r
      → Finished owned prepared (use_row calls r)
  unfolding use_row
  use_row-Finished owned prepared [] r h = h
  use_row-Finished owned prepared (call ∷ calls) r h =
      use_row-Finished owned prepared calls (row_call call r)
        (row_call-Finished owned prepared call r h)

  first_call-Finished :
      (coming : List (Answer R E)) (owned prepared : Bool) (close_error : Option E) (call : RowCall)
      → Finished owned prepared
          (row_call call (new_row (new_rows coming owned prepared close_error)))
  unfolding row_call scan_row release_row new_row new_rows close next
  first_call-Finished [] owned prepared close_error scans = ground arith
  first_call-Finished (row v ∷ rest) owned prepared close_error scans = ground arith
  first_call-Finished (failure e ∷ rest) owned prepared close_error scans = ground arith
  first_call-Finished (eof ∷ rest) owned prepared close_error scans = ground arith
  first_call-Finished coming owned prepared close_error releases = ground arith

  scan_row-again :
      (owned prepared : Bool) (r : Row R E)
      → Finished owned prepared r
      → (scan_row r).1 ≡ rows_closed
  unfolding scan_row
  scan_row-again owned prepared r h = ground arith

  -- The first call on a row, of Scan or of Release, finishes it whatever the query gives: the rows
  -- are closed, the statement that was prepared is too, and a connection that the rows own goes back
  -- to the pool. All of that happens once, however often either is called, and no later Scan reads.
  pub use_row-Finished_once :
      (coming : List (Answer R E)) (owned prepared : Bool) (close_error : Option E) (call : RowCall)
      (calls : List RowCall)
      → let r : Row R E =
          use_row (call ∷ calls) (new_row (new_rows coming owned prepared close_error)) in
        Finished owned prepared r × ((scan_row r).1 ≡ rows_closed)
  unfolding use_row
  use_row-Finished_once coming owned prepared close_error call calls =
      let finished =
        use_row-Finished owned prepared calls _
          (first_call-Finished coming owned prepared close_error call) in
      (finished, scan_row-again owned prepared _ finished)
