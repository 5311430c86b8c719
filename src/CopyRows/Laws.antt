-- ===== src/CopyRows/Laws.antt =====
-- pkg/gpool/copy_rows.go: a copy gets the rows in their order, up to the first error.
use gpool.Base.{
  ℕ, zero, suc, ◌+◌, ◌<◌, ◌≡◌, refl, ap, ◌∙◌, Bool, true, false, List, [], ◌∷◌, Option, none, some,
  arith, ltb, ℤ, pos, negsuc, incr,
}
use gpool.CopyRows.{Fetched, fetched, failed, SliceRows, copy_from_slice, advance, values}

module _ {ℓ} {R E : Type ℓ} (next : ℤ → Fetched R E) where
  abbrev taken : (SliceRows E → List R × Option E) → SliceRows E × Option R → List R × Option E
  taken go_on (s, none) = ([], s.error)
  taken go_on (s, some r) = let (rows, error) = go_on s in (r ∷ rows, error)

  abbrev moved_on : (SliceRows E → List R × Option E) → SliceRows E × Bool → List R × Option E
  moved_on go_on (s, false) = ([], s.error)
  moved_on go_on (s, true) = taken go_on (values next s)

  -- How a bulk copy uses a cursor: it takes the values after each advance that succeeds, and ends
  -- where one does not or where there are none. The rows, and the cursor's error.
  unfoldable pub consume : ℕ → SliceRows E → List R × Option E
  consume zero s = ([], s.error)
  consume (suc fuel) s = moved_on (consume fuel) (advance s)

  abbrev cons : Fetched R E → List R × Option E → List R × Option E
  cons (fetched r) (rows, error) = (r ∷ rows, error)
  cons (failed e) rest = ([], some e)

  -- The rows from index `i` on, of which there are `left`, up to the first error.
  unfoldable pub rows_from : ℕ → ℕ → List R × Option E
  rows_from i zero = ([], none)
  rows_from i (suc left) = cons (next (pos i)) (rows_from (suc i) left)

  abbrev at : ℕ → ℤ → SliceRows E
  at n k = record { length = pos n; index = k; error = none }

  consume-fetch :
      (fuel n i : ℕ) (k : ℤ) (f : Fetched R E) (rest : List R × Option E)
      → incr k ≡ pos i
      → i < n
      → next (pos i) ≡ f
      → consume fuel (at n (pos i)) ≡ rest
      → consume (suc fuel) (at n k) ≡ cons f rest
  unfolding consume
  consume-fetch fuel n i k (fetched r) rest e h f c =
      let more : ltb i n ≡ true = ground (arith, h) in
      let moved : advance (at n k) ≡ (at n (pos i), true) = unfold advance in rw (e, more) refl in
      let read : values next (at n (pos i)) ≡ (at n (pos i), some r) = unfold values in rw f refl in
      ap (moved_on (consume fuel)) moved
      ∙ ap (taken (consume fuel)) read
      ∙ ap (λ (q : List R × Option E). (r ∷ q.0, q.1)) c
  consume-fetch fuel n i k (failed x) rest e h f c =
      let more : ltb i n ≡ true = ground (arith, h) in
      let moved : advance (at n k) ≡ (at n (pos i), true) = unfold advance in rw (e, more) refl in
      let read : values next (at n (pos i))
          ≡ (record { length = pos n; index = pos i; error = some x }, none) =
        unfold values in rw f refl in
      ap (moved_on (consume fuel)) moved ∙ ap (taken (consume fuel)) read

  consume-rows_from :
      (fuel left n i : ℕ) (k : ℤ)
      → incr k ≡ pos i
      → i + left ≡ n
      → left < fuel
      → consume fuel (at n k) ≡ rows_from i left
  unfolding rows_from
  consume-rows_from zero left n i k e l h = absurd (omega arith)
  consume-rows_from (suc fuel) zero n i k e l h =
      let stops : ltb i n ≡ false = ground (arith, l) in
      unfold consume advance in rw (e, stops) refl
  consume-rows_from (suc fuel) (suc left) n i k e l h =
      consume-fetch fuel n i k (next (pos i)) (rows_from (suc i) left) e (omega arith) refl (
        consume-rows_from fuel left n (suc i) (pos i) (ap pos (omega arith)) (omega arith)
          (omega arith))

  -- A copy over a slice of `n` rows takes exactly the rows that the callback gives for the indexes
  -- from 0 up to `n`, in order, or those before the first index at which it fails, whose error the
  -- cursor then keeps. One round more than there are rows is enough.
  pub consume-copy_from_slice : (n : ℕ) → consume (suc n) (copy_from_slice (pos n)) ≡ rows_from 0 n
  consume-copy_from_slice n =
      consume-rows_from (suc n) n n 0 (negsuc 0) refl (omega arith) (omega arith)
