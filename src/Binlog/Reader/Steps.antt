-- ===== src/Binlog/Reader/Steps.antt =====
-- vendors/mysql/cdc/event_stream.go: what one round of the reader delivers and keeps.
use mathlib.Core.List.{append-nil, append_assoc}
use gpool.Base.{
  ◌∙◌, ◌⊎◌, ℕ, zero, suc, ◌≡◌, refl, sym, subst, inl, inr, true, false, List, [], ◌∷◌, ◌++◌, Option,
  none, some, arith, Bytes, Bool-cases,
}
use gpool.Replication.Decode.{Op, op_insert, op_update, op_delete}
use gpool.Binlog.Position.{Texts}
use gpool.Binlog.Filter.{Folding, allows}
use gpool.Binlog.Columns.{Table, Cache, Names, named, load_failed, schema_mismatch}
use gpool.Binlog.Rows.{Cell, op_of, Change, decode_rows}
use gpool.Binlog.Reader.{
  Body, rotate, gtid, mariadb_gtid, rows, xid, query, other, Round, Tracker, Reader, observe,
  handle_body, commit, is_commit, deliver, deliver_within, with_names, with_op, handle_rows,
  committed, handle, read_round,
}

-- Every change is at this place.
abbrev pub AllAt : {V : Type 0} → Bytes → List (Change V) → Type 0
AllAt p [] = Unit {0}
AllAt p (c ∷ changes) = (c.position ≡ p) × (c.transaction ≡ p) × AllAt p changes

-- What a step delivers, all of it at this place.
pub record Grown {V G : Type 0} (p : Bytes) (s s' : Reader V G) : Type 0 where
  pub fresh : List (Change V)
  pub grown : s'.delivered ≡ s.delivered ++ fresh
  pub at : AllAt p fresh

-- The stream has ended, or its place to resume and its tracker are as told.
abbrev pub Standing : {V G : Type 0} → Bytes → (Tracker G → Type 0) → Reader V G → Type 0
Standing p P s = (s.running ≡ false) ⊎ ((s.resume ≡ p) × P s.tracker)

module _ {V : Type 0} where
  decode_rows-AllAt :
      (table : Table) (op : Op) (names : List Bytes) (at : Bytes) (committed : ℕ)
      (values : List (List (Cell V)))
      → AllAt at (decode_rows table op names at committed values)
  unfolding decode_rows
  decode_rows-AllAt table op_insert names at committed [] = tt
  decode_rows-AllAt table op_update names at committed [] = tt
  decode_rows-AllAt table op_delete names at committed [] = tt
  decode_rows-AllAt table op_update names at committed (row ∷ []) = tt
  decode_rows-AllAt table op_update names at committed (row ∷ row' ∷ more) =
      (refl, refl, decode_rows-AllAt table op_update names at committed more)
  decode_rows-AllAt table op_insert names at committed (row ∷ more) =
      (refl, refl, decode_rows-AllAt table op_insert names at committed more)
  decode_rows-AllAt table op_delete names at committed (row ∷ more) =
      (refl, refl, decode_rows-AllAt table op_delete names at committed more)

module _ {V G : Type 0} where
  -- Delivering changes neither what to resume from nor the tracker.
  record Delivers (p : Bytes) (s s' : Reader V G) : Type 0 where
    changes : Grown p s s'
    same_resume : s'.resume ≡ s.resume
    same_tracker : s'.tracker ≡ s.tracker

  unchanged-Delivers :
      (p : Bytes) (s s' : Reader V G)
      → s'.delivered ≡ s.delivered
      → s'.resume ≡ s.resume
      → s'.tracker ≡ s.tracker
      → Delivers p s s'
  unchanged-Delivers p s s' h r t = record {
    changes = record { fresh = []; grown = h ∙ sym (append-nil s.delivered); at = tt };
    same_resume = r;
    same_tracker = t;
  }

  deliver_within-Delivers :
      (p : Bytes) (room : ℕ) (changes : List (Change V)) (s : Reader V G)
      → AllAt p changes
      → Delivers p s (deliver_within room changes s)
  unfolding deliver_within
  deliver_within-Delivers p room [] s h = unchanged-Delivers p s _ refl refl refl
  deliver_within-Delivers p zero (c ∷ changes) s h = unchanged-Delivers p s _ refl refl refl
  deliver_within-Delivers p (suc room) (c ∷ changes) s h =
      let s' : Reader V G = record s { delivered = s.delivered ++ c ∷ [] } in
      let rest = deliver_within-Delivers p room changes s' h.2 in
      record {
        changes = record {
          fresh = c ∷ rest.changes.fresh;
          grown = rest.changes.grown ∙ append_assoc s.delivered (c ∷ []) rest.changes.fresh;
          at = (h.0, h.1, rest.changes.at);
        };
        same_resume = rest.same_resume;
        same_tracker = rest.same_tracker;
      }

  with_names-Delivers :
      (table : Table) (op : Op) (at : ℕ) (values : List (List (Cell V))) (found : Cache × Names)
      (s : Reader V G)
      → Delivers s.resume s (with_names table op at values found s)
  unfolding deliver
  with_names-Delivers table op at values (cache, named names) s =
      let s' : Reader V G = record s { cache = cache } in
      let d =
        deliver_within-Delivers s.resume s.room (decode_rows table op names s.resume at values) s'
          (decode_rows-AllAt table op names s.resume at values) in
      record {
        changes = record { fresh = d.changes.fresh; grown = d.changes.grown; at = d.changes.at };
        same_resume = d.same_resume;
        same_tracker = d.same_tracker;
      }
  with_names-Delivers table op at values (cache, load_failed) s =
      unchanged-Delivers s.resume s _ refl refl refl
  with_names-Delivers table op at values (cache, schema_mismatch) s =
      unchanged-Delivers s.resume s _ refl refl refl

module _ {V G : Type 0} (fold : Folding) (x : Texts G) where
  with_op-Delivers :
      (op : Option Op) (table : Table) (values : List (List (Cell V))) (r : Round V)
      (s : Reader V G)
      → Delivers s.resume s (with_op fold x op table values r s)
  with_op-Delivers none table values r s = unchanged-Delivers s.resume s s refl refl refl
  with_op-Delivers (some op) table values r s =
      elim (Bool-cases (allows fold table.schema table.name r.filter)) [
        | inl e ↦ rw e (with_names-Delivers table op r.timestamp values _ s)
        | inr e ↦ rw e (unchanged-Delivers s.resume s s refl refl refl)
      ]

  handle_body-Delivers :
      (body : Body V) (r : Round V) (s : Reader V G)
      → is_commit fold body ≡ false
      → Delivers s.resume s (handle_body fold x body r s)
  unfolding handle_rows
  handle_body-Delivers (rows table values) r s h =
      with_op-Delivers (op_of r.event_type) table values r s
  handle_body-Delivers (rotate name pos) r s h =
      rw h (unchanged-Delivers s.resume s s refl refl refl)
  handle_body-Delivers (gtid next) r s h = rw h (unchanged-Delivers s.resume s s refl refl refl)
  handle_body-Delivers (mariadb_gtid next) r s h =
      rw h (unchanged-Delivers s.resume s s refl refl refl)
  handle_body-Delivers xid r s h = rw h (unchanged-Delivers s.resume s s refl refl refl)
  handle_body-Delivers (query q) r s h = rw h (unchanged-Delivers s.resume s s refl refl refl)
  handle_body-Delivers other r s h = rw h (unchanged-Delivers s.resume s s refl refl refl)

  handle_body-commit :
      (body : Body V) (r : Round V) (s : Reader V G)
      → is_commit fold body ≡ true
      → handle_body fold x body r s ≡ committed (commit x s.tracker) s
  unfolding is_commit
  handle_body-commit (rows table values) r s h = cc
  handle_body-commit (rotate name pos) r s h = cc
  handle_body-commit (gtid next) r s h = cc
  handle_body-commit (mariadb_gtid next) r s h = cc
  handle_body-commit xid r s h = refl
  handle_body-commit (query q) r s h = rw h refl
  handle_body-commit other r s h = cc

  read_round-stopped :
      (r : Round V) (s : Reader V G) → s.running ≡ false → read_round fold x r s ≡ s
  unfolding read_round
  read_round-stopped r s e = ground (arith, e)

  read_round-goes :
      (r : Round V) (s : Reader V G)
      → s.running ≡ true
      → read_round fold x r s
        ≡ handle_body fold x r.body r (record s { tracker = observe r s.tracker })
  unfolding read_round handle
  read_round-goes r s e = ground (arith, e)

  -- A round that ends no transaction: what it delivers is at the place to resume, which stays.
  pub read_round-Standing :
      (p : Bytes) (P Q : Tracker G → Type 0) (r : Round V) (s : Reader V G)
      → is_commit fold r.body ≡ false
      → ((t : Tracker G) → P t → Q (observe r t))
      → Standing p P s
      → Grown p s (read_round fold x r s) × Standing p Q (read_round fold x r s)
  read_round-Standing p P Q r s h step (inl e) =
      rw (read_round-stopped r s e) ((unchanged-Delivers p s s refl refl refl).changes, inl e)
  read_round-Standing p P Q r s h step (inr (e, q)) = elim (Bool-cases s.running) [
    | inl a ↦
        let s' : Reader V G = record s { tracker = observe r s.tracker } in
        let d = handle_body-Delivers r.body r s' h in
        let kept = subst Q (sym d.same_tracker) (step s.tracker q) in
        let g = d.changes in
        rw (read_round-goes r s a) (
          subst (λ place. Grown place s (handle_body fold x r.body r s')) e
              (record { fresh = g.fresh; grown = g.grown; at = g.at }),
          inr (d.same_resume ∙ e, kept),
        )
    | inr a ↦
        rw (read_round-stopped r s a) ((unchanged-Delivers p s s refl refl refl).changes, inl a)
  ]

  -- A round that ends one.
  pub read_round-Committed :
      (p p' : Bytes) (P Q : Tracker G → Type 0) (r : Round V) (s : Reader V G)
      → is_commit fold r.body ≡ true
      → ((t : Tracker G) → P t → ((commit x (observe r t)).1 ≡ p') × Q (commit x (observe r t)).0)
      → Standing p P s
      → Grown p s (read_round fold x r s) × Standing p' Q (read_round fold x r s)
  read_round-Committed p p' P Q r s h step (inl e) =
      rw (read_round-stopped r s e) ((unchanged-Delivers p s s refl refl refl).changes, inl e)
  read_round-Committed p p' P Q r s h step (inr (e, q)) = elim (Bool-cases s.running) [
    | inl a ↦
        let s' : Reader V G = record s { tracker = observe r s.tracker } in
        rw (read_round-goes r s a, handle_body-commit r.body r s' h)
          (
            record { fresh = []; grown = sym (append-nil s.delivered); at = tt },
            inr (step s.tracker q),
          )
    | inr a ↦
        rw (read_round-stopped r s a) ((unchanged-Delivers p s s refl refl refl).changes, inl a)
  ]
