-- ===== src/Binlog/Filter/Edits.antt =====
-- vendors/mysql/cdc/filter.go: what a filter comes to after any edits.
use gpool.Base.{
  ◌≡◌, refl, ap, ◌∙◌, inl, inr, Bool, false, not, ◌&&◌, ◌||◌, List, [], ◌∷◌, arith, Bytes,
  same_bytes, same_bytes→eq, Bool-cases,
}
use gpool.Replication.Catalog.{has}
use gpool.Binlog.Filter.{
  Folding, none_in, insert, discard, normalize, qualify, add, remove, set_tables, is_tracked,
  allows,
}

pub data Edit : Type 0 where
  sets : List Bytes → Edit
  adds : List Bytes → Edit
  removes : List Bytes → Edit

has-insert :
    (t : Bytes) (f : List Bytes) (k : Bytes) → has (insert t f) k ≡ (same_bytes t k || has f k)
has-insert t f k = elim (Bool-cases (same_bytes t k)) [
  | inl e ↦ let s = ap (has f) (same_bytes→eq t k e) in ground (arith, e, s)
  | inr e ↦ ground (arith, e)
]

has-discard :
    (t : Bytes) (f : List Bytes) (k : Bytes)
    → has (discard t f) k ≡ (has f k && not (same_bytes t k))
has-discard t [] k = refl
has-discard t (u ∷ f) k =
    let h = has-discard t f k in
    elim (Bool-cases (same_bytes t k)) [
      | inl e ↦ let s = ap (same_bytes u) (same_bytes→eq t k e) in ground (arith, h, e, s)
      | inr e ↦ elim (Bool-cases (same_bytes u t)) [
        | inl q ↦
            let s = ap (λ v. same_bytes v k) (same_bytes→eq u t q) in ground (arith, h, e, q, s)
        | inr q ↦ ground (arith, h, e, q)
      ]
    ]

module _ (fold : Folding) where
  -- Whether the tables name this one, up to case and surrounding space.
  abbrev pub named_among : List Bytes → Bytes → Bool
  named_among [] k = false
  named_among (t ∷ ts) k = same_bytes (normalize fold t) k || named_among ts k

  -- Whether a table is among those that the edits leave: the last edit that names it decides, or a
  -- list that replaces all others.
  abbrev pub told : List Edit → Bytes → Bool → Bool
  told [] k was = was
  told (sets tables ∷ edits) k was = told edits k (named_among tables k)
  told (adds tables ∷ edits) k was = told edits k (was || named_among tables k)
  told (removes tables ∷ edits) k was = told edits k (was && not (named_among tables k))

  unfoldable pub edit : List Edit → List Bytes → List Bytes
  edit [] f = f
  edit (sets tables ∷ edits) f = edit edits (set_tables fold tables)
  edit (adds tables ∷ edits) f = edit edits (add fold tables f)
  edit (removes tables ∷ edits) f = edit edits (remove fold tables f)

  has-add :
      (tables f : List Bytes) (k : Bytes)
      → has (add fold tables f) k ≡ (has f k || named_among tables k)
  unfolding add
  has-add [] f k = ground arith
  has-add (t ∷ tables) f k =
      let h = has-add tables (insert (normalize fold t) f) k in
      let i = has-insert (normalize fold t) f k in ground (arith, h, i)

  has-remove :
      (tables f : List Bytes) (k : Bytes)
      → has (remove fold tables f) k ≡ (has f k && not (named_among tables k))
  unfolding remove
  has-remove [] f k = ground arith
  has-remove (t ∷ tables) f k =
      let h = has-remove tables (discard (normalize fold t) f) k in
      let i = has-discard (normalize fold t) f k in ground (arith, h, i)

  has-edit :
      (edits : List Edit) (f : List Bytes) (k : Bytes)
      → has (edit edits f) k ≡ told edits k (has f k)
  unfolding edit set_tables
  has-edit [] f k = refl
  has-edit (sets tables ∷ edits) f k =
      has-edit edits (add fold tables []) k ∙ ap (told edits k) (has-add tables [] k)
  has-edit (adds tables ∷ edits) f k =
      has-edit edits (add fold tables f) k ∙ ap (told edits k) (has-add tables f k)
  has-edit (removes tables ∷ edits) f k =
      has-edit edits (remove fold tables f) k ∙ ap (told edits k) (has-remove tables f k)

  -- A filter made from a list of tables is, after any edits, the set that the edits describe, where
  -- names count up to case and surrounding space: IsTracking says whether a table is in it, and a
  -- change is let through if its table is in it, or if no table is left at all.
  pub is_tracked-edit :
      (tables : List Bytes) (edits : List Edit) (table schema name : Bytes)
      → let f : List Bytes = edit edits (set_tables fold tables) in
        (is_tracked fold table f
          ≡ told edits (normalize fold table) (named_among tables (normalize fold table)))
        × (allows fold schema name f ≡ (
            none_in f
            || told edits
                (qualify fold schema name)
                (named_among tables (qualify fold schema name))))
  unfolding is_tracked allows edit
  is_tracked-edit tables edits table schema name =
      let h = has-edit (sets tables ∷ edits) [] (normalize fold table) in
      let k = has-edit (sets tables ∷ edits) [] (qualify fold schema name) in (h, ground (arith, k))
