-- ===== src/Replication/Decode/Columns.antt =====
-- pkg/vendors/postgres/cdc/decoder.go: which columns a decoded row has, and with what values.
use gpool.Base.{
  ℕ, zero, suc, ◌≡◌, refl, sym, ap, ◌∙◌, inl, inr, false, List, [], ◌∷◌, Option, none, some, arith,
  if◌then◌else◌, get_elem?, Bytes, same_bytes, same_bytes_refl, same_bytes→eq, get, put, get-put,
  Bool-cases,
}
use gpool.Replication.Decode.{
  Relation, Column, Tuple, Row, column_value, put_value, decode_columns, decode_tuple,
}

-- No column name comes twice.
abbrev pub Fresh : Bytes → List Bytes → Type 0
Fresh name [] = Unit {0}
Fresh name (n ∷ ns) = (same_bytes name n ≡ false) × Fresh name ns

abbrev pub Distinct : List Bytes → Type 0
Distinct [] = Unit {0}
Distinct (n ∷ ns) = Fresh n ns × Distinct ns

get-put_other :
    (m : Row) (k a : Bytes) (v : Option Bytes)
    → same_bytes a k ≡ false
    → get same_bytes (put same_bytes m a v) k ≡ get same_bytes m k
get-put_other [] k a v h = rw h refl
get-put_other ((b, w) ∷ m) k a v h = elim (Bool-cases (same_bytes b a)) [
  | inl e ↦ rw e (let f = same_bytes→eq b a e in rw (f, h) (ground (arith, f, h)))
  | inr e ↦ rw e (ap (λ o. if same_bytes b k then some w else o) (get-put_other m k a v h))
]

put_value-other :
    (row : Row) (a k : Bytes) (o : Option (Option Bytes))
    → same_bytes a k ≡ false
    → get same_bytes (put_value row a o) k ≡ get same_bytes row k
put_value-other row a k none h = refl
put_value-other row a k (some v) h = get-put_other row k a v h

put_value-get :
    (row : Row) (k : Bytes) (o : Option (Option Bytes))
    → get same_bytes row k ≡ none
    → get same_bytes (put_value row k o) k ≡ o
put_value-get row k none h = h
put_value-get row k (some v) h = get-put same_bytes row k v (same_bytes_refl k)

same_bytes_comm : (xs ys : Bytes) → same_bytes xs ys ≡ same_bytes ys xs
same_bytes_comm [] [] = refl
same_bytes_comm [] (y ∷ ys) = refl
same_bytes_comm (x ∷ xs) [] = refl
same_bytes_comm (x ∷ xs) (y ∷ ys) = ground (arith, same_bytes_comm xs ys)

-- The columns after a name do not touch it.
decode_columns-Fresh :
    (names : List Bytes) (cols : Tuple) (row : Row) (k : Bytes)
    → Fresh k names
    → get same_bytes (decode_columns names cols row) k ≡ get same_bytes row k
unfolding decode_columns
decode_columns-Fresh [] cols row k f = refl
decode_columns-Fresh (n ∷ ns) [] row k f = refl
decode_columns-Fresh (n ∷ ns) (c ∷ cs) row k f =
    decode_columns-Fresh ns cs (put_value row n (column_value c)) k f.1
    ∙ put_value-other row n k (column_value c) (same_bytes_comm n k ∙ f.0)

Fresh-get_elem? :
    (k : Bytes) (ns : List Bytes) (i : ℕ) (n : Bytes)
    → Fresh k ns
    → get_elem? ns i ≡ some n
    → same_bytes k n ≡ false
Fresh-get_elem? k [] i n f e = cc
Fresh-get_elem? k (m ∷ ns) zero n f e = ground (f, e, arith)
Fresh-get_elem? k (m ∷ ns) (suc i) n f e = Fresh-get_elem? k ns i n f.1 e

decode_columns-get :
    (names : List Bytes) (cols : Tuple) (row : Row) (i : ℕ) (n : Bytes) (c : Column)
    → Distinct names
    → get_elem? names i ≡ some n
    → get_elem? cols i ≡ some c
    → get same_bytes row n ≡ none
    → get same_bytes (decode_columns names cols row) n ≡ column_value c
unfolding decode_columns
decode_columns-get [] cols row i n c d e f h = cc
decode_columns-get (m ∷ ns) [] row i n c d e f h = cc
decode_columns-get (m ∷ ns) (x ∷ cs) row zero n c d e f h =
    let e' : m ≡ n = ground (e, arith) in
    let f' : x ≡ c = ground (f, arith) in
    rw (sym e', sym f')
      (decode_columns-Fresh ns cs (put_value row m (column_value x)) m d.0
        ∙ put_value-get row m (column_value x) (rw e' h))
decode_columns-get (m ∷ ns) (x ∷ cs) row (suc i) n c d e f h =
    decode_columns-get ns cs (put_value row m (column_value x)) i n c d.1 e f
      (put_value-other row m n (column_value x) (Fresh-get_elem? m ns i n d.0 e) ∙ h)

-- A decoded row has, under the name of each column of the relation that is in the tuple too, what
-- the server sent for it: for the kind 'n' a NULL that is there, for 't' the text, and for 'u', a
-- value that did not change and was not sent, no entry at all. The names of the relation's columns
-- are all different.
pub decode_tuple-get :
    (rel : Relation) (cols : Tuple) (i : ℕ) (n : Bytes) (c : Column)
    → Distinct rel.columns
    → get_elem? rel.columns i ≡ some n
    → get_elem? cols i ≡ some c
    → (row : Row) × (decode_tuple rel (some cols) ≡ some row)
      × ((c.kind ≡ 110 → get same_bytes row n ≡ some none)
          × (c.kind ≡ 116 → get same_bytes row n ≡ some (some c.content))
          × (c.kind ≡ 117 → get same_bytes row n ≡ none))
unfolding decode_tuple
decode_tuple-get rel cols i n c d e f = (
  decode_columns rel.columns cols [],
  refl,
  let value = decode_columns-get rel.columns cols [] i n c d e f refl in
      (
        λ k. value ∙ ground (arith, k),
        λ k. value ∙ ground (arith, k),
        λ k. value ∙ ground (arith, k),
      ),
)
