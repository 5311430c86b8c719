-- ===== src/Binlog/Reader/Following.antt =====
-- vendors/mysql/cdc/event_stream.go: the tracker over the events of a transaction.
use mathlib.Core.List.{append-nil, append_assoc}
use gpool.Base.{
  ◌∙◌, ℕ, ◌≡◌, refl, sym, ap, subst, true, false, List, [], ◌∷◌, ◌++◌, Option, none, some, arith,
  ltb, Bytes,
}
use gpool.Replication.Catalog.{is_empty}
use gpool.Binlog.Position.{Texts, Position, gtid_at, file_at, encode}
use gpool.Binlog.Filter.{Folding}
use gpool.Binlog.Rows.{Change}
use gpool.Binlog.Reader.{
  Body, rotate, gtid, mariadb_gtid, rows, xid, query, other, Round, Tracker, Reader, observe,
  observed, commit, commit_set, is_commit, run, new_tracker,
}
use gpool.Binlog.Reader.Steps.{AllAt, Grown, Standing, read_round-Standing}
use gpool.Binlog.Reader.Transactions.{NoCommits, named_by, filed_by, last_gtid, last_file}

-- What the tracker holds, but for its offset.
abbrev pub Holds : {G : Type 0} → Option G → Bytes → Bytes → Tracker G → Type 0
Holds set next name t = (t.set ≡ set) × (t.next ≡ next) × (t.file_name ≡ name)

-- The tracker is at a place; `also` is the part of it that the place does not say.
abbrev pub Follows : {G : Type 0} → Position G → Bytes → Tracker G → Type 0
Follows (gtid_at set) also t = Holds (some set) [] also t
Follows (file_at name pos) also t = Holds none also name t

module _ {V G : Type 0} where
  observed-Holds :
      (body : Body V) (pos : ℕ) (set : Option G) (next name : Bytes) (t : Tracker G)
      → Holds set next name t
      → Holds set (named_by body next) (filed_by body name) (observed body pos t)
  observed-Holds (rotate name' p) pos set next name t h = (h.0, h.1, refl)
  observed-Holds (gtid none) pos set next name t h = h
  observed-Holds (gtid (some next')) pos set next name t h = (h.0, refl, h.2)
  observed-Holds (mariadb_gtid next') pos set next name t h = (h.0, refl, h.2)
  observed-Holds (rows table values) pos set next name t h = h
  observed-Holds xid pos set next name t h = h
  observed-Holds (query q) pos set next name t h = h
  observed-Holds other pos set next name t h = h

module _ {V G : Type 0} (fold : Folding) (x : Texts G) where
  pub AllAt-append : (p : Bytes) (a b : List (Change V)) → AllAt p a → AllAt p b → AllAt p (a ++ b)
  AllAt-append p [] b h k = k
  AllAt-append p (c ∷ a) b h k = (h.0, h.1, AllAt-append p a b h.2 k)

  pub Grown-trans :
      (p : Bytes) (s s' s'' : Reader V G) → Grown p s s' → Grown p s' s'' → Grown p s s''
  Grown-trans p s s' s'' g h = record {
    fresh = g.fresh ++ h.fresh;
    grown =
        h.grown ∙ ap (λ seen. seen ++ h.fresh) g.grown ∙ append_assoc s.delivered g.fresh h.fresh;
    at = AllAt-append p g.fresh h.fresh g.at h.at;
  }

  pub run-Holds :
      (p : Bytes) (set : Option G) (next name : Bytes) (rounds : List (Round V)) (s : Reader V G)
      → NoCommits fold rounds
      → Standing p (Holds set next name) s
      → Grown p s (run fold x rounds s)
        × Standing p
            (Holds set (last_gtid rounds next) (last_file rounds name))
            (run fold x rounds s)
  unfolding run observe
  run-Holds p set next name [] s h k =
      (record { fresh = []; grown = sym (append-nil s.delivered); at = tt }, k)
  run-Holds p set next name (r ∷ rounds) s h k =
      let next' : Bytes = named_by r.body next in
      let name' : Bytes = filed_by r.body name in
      let one =
        read_round-Standing fold x p (Holds set next name) (Holds set next' name') r s h.0
          (observed-Holds r.body r.log_pos set next name) k in
      let rest = run-Holds p set next' name' rounds _ h.1 one.1 in
      (Grown-trans p s _ _ one.0 rest.0, rest.1)

  pub run-append :
      (a b : List (Round V)) (s : Reader V G)
      → run fold x (a ++ b) s ≡ run fold x b (run fold x a s)
  unfolding run
  run-append [] b s = refl
  run-append (r ∷ a) b s = run-append a b _

  pub run-Quiet :
      (p : Bytes) (rounds : List (Round V)) (s : Reader V G)
      → NoCommits fold rounds
      → Standing p (λ t. Unit {0}) s
      → Grown p s (run fold x rounds s)
  unfolding run
  run-Quiet p [] s h k = record { fresh = []; grown = sym (append-nil s.delivered); at = tt }
  run-Quiet p (r ∷ rounds) s h k =
      let one =
        read_round-Standing fold x p (λ t. Unit {0}) (λ t. Unit {0}) r s h.0 (λ t u. tt) k in
      Grown-trans p s _ _ one.0 (run-Quiet p rounds _ h.1 one.1)

module _ {G : Type 0} (x : Texts G) where
  pub new_tracker-Follows : (start : Position G) → Follows start [] (new_tracker x start)
  unfolding new_tracker
  new_tracker-Follows (gtid_at set) = (refl, refl, refl)
  new_tracker-Follows (file_at name pos) = (refl, refl, refl)

  pub commit-gtid :
      (set : G) (next name : Bytes) (t : Tracker G)
      → Holds (some set) next name t
      → is_empty next ≡ false
      → ((commit x t).1 ≡ encode x (gtid_at (x.add_gtid set next)))
        × Holds (some (x.add_gtid set next)) [] name (commit x t).0
  unfolding commit
  commit-gtid set next name t h n =
      subst
        (λ o.
          ((commit_set x o t).1 ≡ encode x (gtid_at (x.add_gtid set next)))
          × Holds (some (x.add_gtid set next)) [] name (commit_set x o t).0)
        (sym h.0) (let e = h.1 in let f = h.2 in ground (arith, n, e, f))

  pub commit-file :
      (next name : Bytes) (pos : ℕ) (t : Tracker G)
      → Holds none next name t
      → t.file_pos ≡ pos
      → ((commit x t).1 ≡ encode x (file_at name pos)) × Holds none next name (commit x t).0
  unfolding commit
  commit-file next name pos t h e =
      subst
        (λ o.
          ((commit_set x o t).1 ≡ encode x (file_at name pos))
          × Holds none next name (commit_set x o t).0)
        (sym h.0)
        (ap (λ f. encode x (file_at f t.file_pos)) h.2 ∙ ap (λ q. encode x (file_at name q)) e, h)

module _ {V G : Type 0} (fold : Folding) where
  pub observed-closing :
      (body : Body V) (pos : ℕ) (t : Tracker G)
      → is_commit fold body ≡ true
      → ltb 0 pos ≡ true
      → ((observed body pos t).set ≡ t.set)
        × ((observed body pos t).next ≡ t.next)
        × ((observed body pos t).file_name ≡ t.file_name)
        × ((observed body pos t).file_pos ≡ pos)
  unfolding is_commit
  observed-closing (rows table values) pos t h e = cc
  observed-closing (rotate name p) pos t h e = cc
  observed-closing (gtid next) pos t h e = cc
  observed-closing (mariadb_gtid next) pos t h e = cc
  observed-closing xid pos t h e = (refl, refl, refl, ground (arith, e))
  observed-closing (query q) pos t h e = (refl, refl, refl, ground (arith, e))
  observed-closing other pos t h e = cc
