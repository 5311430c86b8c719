-- ===== src/Sql/Rows.antt =====
-- pkg/sqldriver/rows.go and row.go: the result set of a query, and a single row of it.
--
-- What the driver will give is the list of its answers, after which it gives io.EOF. `releases`
-- counts how often the connection went back to the pool, `statements` how often the statement was
-- closed and `ends` how often the driver's rows were. A row's values are opaque here.
pub mod Once
pub mod Iterate
use gpool.Base.{
  ℕ, zero, suc, Bool, true, false, not, ◌&&◌, ◌||◌, List, [], ◌∷◌, ◌++◌, Option, none, some,
  if◌then◌else◌,
}

pub data Answer (R E : Type 0) : Type 0 where
  row : R → Answer R E
  failure : E → Answer R E
  eof : Answer R E

pub record Rows (R E : Type 0) : Type 0 where
  pub coming : List (Answer R E)
  pub values : Option R
  pub error : Option E
  pub closed : Bool
  pub owned : Bool
  pub prepared : Bool
  pub close_error : Option E
  pub releases : ℕ
  pub statements : ℕ
  pub ends : ℕ

abbrev pub first {ℓ} : {E : Type ℓ} → Option E → Option E → Option E
first none later = later
first (some e) later = some e

abbrev pub one : Bool → ℕ → ℕ
one true n = suc n
one false n = n

abbrev pub has_error {ℓ} : {E : Type ℓ} → Option E → Bool
has_error none = false
has_error (some e) = true

-- What `Scan` of a row gives: it has been used, there was an error, there was no row, or the values
-- that are assigned.
pub data Scanned (R E : Type 0) : Type 0 where
  rows_closed : Scanned R E
  row_error : E → Scanned R E
  no_rows : Scanned R E
  scanned : Option R → Scanned R E

pub record Row (R E : Type 0) : Type 0 where
  pub rows : Rows R E
  pub done : Bool

module _ {R E : Type 0} where
  -- A new result set; the connection is its own in a query on the pool, and it has a statement to
  -- close if one was prepared for it.
  unfoldable pub new_rows : List (Answer R E) → Bool → Bool → Option E → Rows R E
  new_rows coming owned prepared close_error = record {
    coming = coming;
    values = none;
    error = none;
    closed = false;
    owned = owned;
    prepared = prepared;
    close_error = close_error;
    releases = 0;
    statements = 0;
    ends = 0;
  }

  unfoldable pub close : Rows R E → Rows R E
  close r = if r.closed then r else record r {
    closed = true;
    ends = suc r.ends;
    error = first r.error r.close_error;
    statements = one r.prepared r.statements;
    releases = one r.owned r.releases;
  }

  abbrev answered : Rows R E → List (Answer R E) → Rows R E × Bool
  answered r [] = (r, false)
  answered r (eof ∷ rest) = (record r { coming = rest }, false)
  answered r (failure e ∷ rest) = (record r { coming = rest; error = some e }, false)
  answered r (row values ∷ rest) = (record r { coming = rest; values = some values }, true)

  unfoldable pub next : Rows R E → Rows R E × Bool
  next r = if r.closed || has_error r.error then (r, false) else answered r r.coming

  -- `Scan`, up to the assignment of the values: what is refused is `none`.
  unfoldable pub scan : Rows R E → Option (Option R)
  scan r = if r.closed then none else some r.values

  -- The loop of `All`, on one round for each answer to come and one more; the consumer says after each
  -- row whether it goes on. The rows that it is given are the result.
  unfoldable pub loop : ℕ → (ℕ → Bool) → ℕ → Rows R E → List (Option R) → Rows R E × List (Option R)
  loop zero wants n r seen = (r, seen)
  loop (suc fuel) wants n r seen =
      let more = next r in
      let seen' : List (Option R) = seen ++ more.0.values ∷ [] in
      let rest = loop fuel wants (suc n) more.0 seen' in
      if not more.1 then (more.0, seen) else if wants n then rest else (more.0, seen')

  -- `All`, which closes the rows however the iteration ends.
  unfoldable pub all : ℕ → (ℕ → Bool) → Rows R E → Rows R E × List (Option R)
  all fuel wants r = let (r', seen) = loop fuel wants 0 r [] in (close r', seen)

  abbrev scan_next : Rows R E × Bool → Scanned R E
  scan_next (r, true) = scanned r.values
  scan_next (r, false) = elim r.error [ none ↦ no_rows | some e ↦ row_error e ]

  unfoldable pub new_row : Rows R E → Row R E
  new_row r = record { rows = r; done = false }

  unfoldable pub scan_row : Row R E → Row R E × Scanned R E
  scan_row r =
      if r.done
      then (r, rows_closed)
      else (record { rows = close (next r.rows).0; done = true }, scan_next (next r.rows))

  unfoldable pub release_row : Row R E → Row R E
  release_row r = if r.done then r else record { rows = close r.rows; done = true }
