-- ===== src/Replication/Catalog/Tables.antt =====
-- pkg/vendors/postgres/cdc/identifier.go: dedupe, difference and intersection as sets of tables.
use gpool.Base.{
  ◌+◌, ◌≡◌, refl, ap, ◌∙◌, inl, inr, true, false, not, ◌&&◌, List, [], ◌∷◌, arith, length, Bytes,
  same_bytes, same_bytes_refl, same_bytes→eq, Bool-cases, if_both,
}
use gpool.Replication.Catalog.{has, is_empty, dedupe, dedupe_from, difference, intersection}

has-same : (xs : List Bytes) (v w : Bytes) → same_bytes v w ≡ true → has xs v ≡ has xs w
has-same xs v w h = ap (has xs) (same_bytes→eq v w h)

-- A member of the difference is a value that the other list has not, a member of the intersection
-- one that it has, and every value is in one of the two, repetitions included.
pub difference-intersection :
    (values other : List Bytes) (v : Bytes)
    → (has (difference values other) v ≡ (has values v && not (has other v)))
      × (has (intersection values other) v ≡ (has values v && has other v))
      × (length (difference values other) + length (intersection values other) ≡ length values)
unfolding difference intersection
difference-intersection [] other v = (refl, refl, refl)
difference-intersection (x ∷ xs) other v =
    let (d, i, l) = difference-intersection xs other v in
    elim (Bool-cases (same_bytes x v)) [
      | inl e ↦ let s = has-same other x v e in ground (arith, d, i, l, e, s)
      | inr e ↦ ground (arith, d, i, l, e)
    ]

is_empty-same : (v w : Bytes) → same_bytes v w ≡ true → is_empty v ≡ is_empty w
is_empty-same v w h = ap is_empty (same_bytes→eq v w h)

has-dedupe_from :
    (seen values : List Bytes) (v : Bytes)
    → has (dedupe_from seen values) v ≡ (has values v && (not (is_empty v) && not (has seen v)))
unfolding dedupe_from
has-dedupe_from seen [] v = refl
has-dedupe_from seen (x ∷ xs) v =
    let a = has-dedupe_from seen xs v in
    let b = has-dedupe_from (x ∷ seen) xs v in
    elim (Bool-cases (same_bytes x v)) [
      | inl e ↦
          let s = has-same seen x v e in
          let t = is_empty-same x v e in ground (arith, a, b, e, s, t)
      | inr e ↦ ground (arith, a, b, e)
    ]

abbrev pub NoRepeats : List Bytes → Type 0
NoRepeats [] = Unit {0}
NoRepeats (x ∷ xs) = (has xs x ≡ false) × NoRepeats xs

dedupe_from-NoRepeats : (seen values : List Bytes) → NoRepeats (dedupe_from seen values)
unfolding dedupe_from
dedupe_from-NoRepeats seen [] = tt
dedupe_from-NoRepeats seen (x ∷ xs) =
    if_both NoRepeats (is_empty x) _ _ (λ _. dedupe_from-NoRepeats seen xs)
      (λ _.
        if_both NoRepeats (has seen x) _ _ (λ _. dedupe_from-NoRepeats seen xs)
          (λ _. (
            has-dedupe_from (x ∷ seen) xs x ∙ ground (arith, same_bytes_refl x),
            dedupe_from-NoRepeats (x ∷ seen) xs,
          )))

-- `dedupe` keeps exactly the names that are not empty, each of them once.
pub dedupe-NoRepeats :
    (values : List Bytes) (v : Bytes)
    → NoRepeats (dedupe values) × (has (dedupe values) v ≡ (has values v && not (is_empty v)))
unfolding dedupe
dedupe-NoRepeats values v =
    (dedupe_from-NoRepeats [] values, ground (arith, has-dedupe_from [] values v))
