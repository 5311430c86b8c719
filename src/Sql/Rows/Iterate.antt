-- ===== src/Sql/Rows/Iterate.antt =====
-- pkg/sqldriver/rows.go: what `All` gives a consumer.
use mathlib.Core.List.{append-nil, append_assoc}
use gpool.Base.{
  ℕ, suc, ◌≡◌, refl, sym, subst, Bool, true, false, List, [], ◌∷◌, ◌++◌, Option, none, some, arith,
  if◌then◌else◌, length,
}
use gpool.Sql.Rows.{Answer, row, failure, eof, Rows, new_rows, first, one, close, next, loop, all}

module _ {R E : Type 0} where
  -- The rows that come before the end or a failure, up to the one at which the consumer stops.
  abbrev pub wanted : (ℕ → Bool) → ℕ → List (Answer R E) → List (Option R)
  wanted wants n [] = []
  wanted wants n (eof ∷ rest) = []
  wanted wants n (failure e ∷ rest) = []
  wanted wants n (row v ∷ rest) =
      let later = wanted wants (suc n) rest in some v ∷ (if wants n then later else [])

  -- The failure that ends the rows, if the consumer gets as far.
  abbrev pub met : (ℕ → Bool) → ℕ → List (Answer R E) → Option E
  met wants n [] = none
  met wants n (eof ∷ rest) = none
  met wants n (failure e ∷ rest) = some e
  met wants n (row v ∷ rest) = let later = met wants (suc n) rest in if wants n then later else none

  abbrev opened : List (Answer R E) → Option R → Bool → Bool → Option E → Rows R E
  opened coming values owned prepared close_error = record {
    coming = coming;
    values = values;
    error = none;
    closed = false;
    owned = owned;
    prepared = prepared;
    close_error = close_error;
    releases = 0;
    statements = 0;
    ends = 0;
  }

  -- What a run of the loop leaves of rows that were open.
  record Ran (owned prepared : Bool) (close_error problem : Option E) (rows : List (Option R))
      (result : Rows R E × List (Option R)) : Type 0 where
    seen : result.1 ≡ rows
    error : result.0.error ≡ problem
    closed : result.0.closed ≡ false
    owner : result.0.owned ≡ owned
    prepares : result.0.prepared ≡ prepared
    late : result.0.close_error ≡ close_error
    releases : result.0.releases ≡ 0
    statements : result.0.statements ≡ 0
    ends : result.0.ends ≡ 0

  stays-Ran :
      (owned prepared : Bool) (close_error problem : Option E) (before : List (Option R))
      (coming : List (Answer R E)) (values : Option R)
      → Ran owned prepared close_error problem
          (before ++ [])
          (record (opened coming values owned prepared close_error) { error = problem }, before)
  stays-Ran owned prepared close_error problem before coming values = record {
    seen = sym (append-nil before);
    error = refl;
    closed = refl;
    owner = refl;
    prepares = refl;
    late = refl;
    releases = refl;
    statements = refl;
    ends = refl;
  }

  step-Ran :
      (goes : Bool) (owned prepared : Bool) (close_error problem : Option E)
      (rows before : List (Option R)) (v : R) (rest : List (Answer R E))
      (result : Rows R E × List (Option R))
      → Ran owned prepared close_error problem ((before ++ some v ∷ []) ++ rows) result
      → Ran owned prepared close_error
          (if goes then problem else none)
          (before ++ some v ∷ (if goes then rows else []))
          (if goes
            then result
            else (opened rest (some v) owned prepared close_error, before ++ some v ∷ []))
  step-Ran true owned prepared close_error problem rows before v rest result h =
      subst (λ list. Ran owned prepared close_error problem list result)
        (append_assoc before (some v ∷ []) rows) h
  step-Ran false owned prepared close_error problem rows before v rest result h = record {
    seen = refl;
    error = refl;
    closed = refl;
    owner = refl;
    prepares = refl;
    late = refl;
    releases = refl;
    statements = refl;
    ends = refl;
  }

  loop-Ran :
      (wants : ℕ → Bool) (owned prepared : Bool) (close_error : Option E)
      (coming : List (Answer R E)) (n : ℕ) (values : Option R) (before : List (Option R))
      → Ran owned prepared close_error (met wants n coming) (before ++ wanted wants n coming) (
          loop
            (suc (length coming))
            wants
            n
            (opened coming values owned prepared close_error)
            before)
  unfolding loop next
  loop-Ran wants owned prepared close_error [] n values before =
      stays-Ran owned prepared close_error none before [] values
  loop-Ran wants owned prepared close_error (eof ∷ rest) n values before =
      stays-Ran owned prepared close_error none before rest values
  loop-Ran wants owned prepared close_error (failure e ∷ rest) n values before =
      stays-Ran owned prepared close_error (some e) before rest values
  loop-Ran wants owned prepared close_error (row v ∷ rest) n values before =
      step-Ran (wants n) owned prepared close_error (met wants (suc n) rest)
        (wanted wants (suc n) rest) before v rest _
        (loop-Ran wants owned prepared close_error rest (suc n) (some v) (before ++ some v ∷ []))

  -- What an iteration over fresh rows comes to.
  pub record Iterated (owned prepared : Bool) (problem : Option E) (rows : List (Option R))
      (result : Rows R E × List (Option R)) : Type 0 where
    pub given : result.1 ≡ rows
    pub reported : result.0.error ≡ problem
    pub shut : result.0.closed ≡ true
    pub released : result.0.releases ≡ one owned 0
    pub dropped : result.0.statements ≡ one prepared 0
    pub ended : result.0.ends ≡ 1

  close-Iterated :
      (owned prepared : Bool) (close_error problem : Option E) (rows seen : List (Option R))
      (r : Rows R E)
      → Ran owned prepared close_error problem rows (r, seen)
      → Iterated owned prepared (first problem close_error) rows (close r, seen)
  unfolding close
  close-Iterated owned prepared close_error problem rows seen r h = ground arith

  -- An iteration over the rows of a query gives the consumer those that come before the end or the
  -- first failure, up to the one at which it stops. Afterwards the failure that it met, or else that
  -- of closing, is reported, and the rows are closed: once, with the statement that was prepared and
  -- the connection if they own it.
  pub all-Iterated :
      (wants : ℕ → Bool) (owned prepared : Bool) (close_error : Option E)
      (coming : List (Answer R E))
      → Iterated owned prepared
          (first (met wants 0 coming) close_error)
          (wanted wants 0 coming)
          (all (suc (length coming)) wants (new_rows coming owned prepared close_error))
  unfolding all new_rows
  all-Iterated wants owned prepared close_error coming =
      close-Iterated owned prepared close_error (met wants 0 coming) (wanted wants 0 coming) _ _
        (loop-Ran wants owned prepared close_error coming 0 none [])
