-- ===== src/Replication/Subscriber/Published.antt =====
-- pkg/vendors/postgres/cdc/subscriber.go: what the methods on tables make of the local list.
use gpool.Base.{sym, ap, ◌||◌, ◌&&◌, ◌++◌, ◌≡◌, refl, ◌∙◌, Bool, not, List, [], ◌∷◌, arith, Bytes}
use gpool.Replication.Statements.{Statement, set_to, add_to, drop_from, Config, no_tables}
use gpool.Replication.Catalog.{has, dedupe, difference, intersection}
use gpool.Replication.Subscriber.{Server, Postgres, return}
use gpool.Replication.Subscriber.Methods.{alter, add_missing, remove_present, sync_to}
use gpool.Replication.Subscriber.Outcomes.{Ends, choose-Ends}
use gpool.Replication.Subscriber.Steps.{Kept}
use gpool.Replication.Catalog.Tables.{difference-intersection}
use gpool.Replication.Subscriber.Tracks.{
  Publishes, Tracking, moved, tracking, Listed, Tracking-Listed, alter-Ends,
}

has-append : (xs ys : List Bytes) (v : Bytes) → has (xs ++ ys) v ≡ (has xs v || has ys v)
has-append [] ys v = refl
has-append (x ∷ xs) ys v = ground (arith, has-append xs ys v)

module _ {S : Type 0} (srv : Server S) (published : S → Bytes → Bytes → Bool)
    (laws : Publishes srv published) where
  abbrev pub T : Config → Postgres S → Type 0
  T c = Tracking srv published laws c

  abbrev pub L : Config → Postgres S → Type 0
  L c = Listed srv published laws c.publication_name

  pub T-moved :
      (c : Config) (q : Postgres S) (t : S)
      → T c q
      → published t ≡ published q.server
      → T c (record q { server = t })
  T-moved c q t h e = (moved srv published laws c q.server t e h.0, h.1)

  -- The new list is what the statement made of the publication.
  relisted :
      (c : Config) (tables : List Bytes) (q : Postgres S) (t : S)
      → q.config ≡ c
      → ((table : Bytes) → has tables table ≡ published t c.publication_name table)
      → L c (record q { server = t; config = record q.config { tables = tables } })
  relisted c tables q t e h = record {
    named_so = ap (λ (k : Config). k.publication_name) e;
    listed = h;
  }

  pub add_missing-Listed :
      (tables : List Bytes) (c : Config) (p : Postgres S)
      → T c p
      → Ends (T c) (L c) (add_missing srv tables c p)
  unfolding add_missing
  add_missing-Listed tables c p h =
      let missing : List Bytes = difference (dedupe tables) c.tables in
      let add : Statement = add_to c.publication_name missing in
      choose-Ends (T c) (L c) (no_tables missing) (return tt) (alter srv add (c.tables ++ missing))
        p (λ _. Tracking-Listed srv published laws c p h)
        (λ _.
          alter-Ends srv published laws c (T c) (L c) add (c.tables ++ missing)
            (tracking srv published laws c) (T-moved c)
            (λ q t k performed. relisted c (c.tables ++ missing) q t k.1 (λ table.
              has-append c.tables missing table
              ∙ (ap (λ b. b || has missing table) (k.0 table) ∙ sym (performed table))))
            p h)

  pub remove_present-Listed :
      (tables : List Bytes) (c : Config) (p : Postgres S)
      → T c p
      → Ends (T c) (L c) (remove_present srv tables c p)
  unfolding remove_present
  remove_present-Listed tables c p h =
      let present : List Bytes = intersection (dedupe tables) c.tables in
      let drop : Statement = drop_from c.publication_name present in
      let left : List Bytes = difference c.tables present in
      choose-Ends (T c) (L c) (no_tables present) (return tt) (alter srv drop left) p
        (λ _. Tracking-Listed srv published laws c p h)
        (λ _.
          alter-Ends srv published laws c (T c) (L c) drop left (tracking srv published laws c)
            (T-moved c)
            (λ q t k performed. relisted c left q t k.1 (λ table.
              (difference-intersection c.tables present table).0
              ∙ (ap (λ b. b && not (has present table)) (k.0 table) ∙ sym (performed table))))
            p h)

  pub sync_to-Listed :
      (P : Postgres S → Type 0) (wanted : List Bytes) (c : Config)
      → Kept srv c P P
      → ((q : Postgres S) (t : S)
          → P q
          → published t ≡ published q.server
          → P (record q { server = t }))
      → (p : Postgres S) → P p
      → Ends P (L c) (sync_to srv wanted c p)
  unfolding sync_to
  sync_to-Listed P wanted c kept no_change p h =
      alter-Ends srv published laws c P (L c) (set_to c.publication_name wanted) wanted kept
        no_change
        (λ q t k performed.
          relisted c wanted q t (kept.config_is q k) (λ table. sym (performed table)))
        p h
