-- ===== src/CopyRows/Tests.antt =====
-- The theorem on a cursor over five rows, the fourth of which cannot be read.
use gpool.Base.{ℕ, ◌≡◌, refl, [], ◌∷◌, some, ◌==◌, if◌then◌else◌, ℤ, pos, to_nat}
use gpool.CopyRows.{Fetched, fetched, failed, copy_from_slice}
use gpool.CopyRows.Laws.{consume, rows_from, consume-copy_from_slice}

abbrev fetch : ℤ → Fetched ℕ ℕ
fetch i = if to_nat i == 3 then failed 99 else fetched (to_nat i)

three_rows : rows_from fetch 0 5 ≡ (0 ∷ 1 ∷ 2 ∷ [], some 99)
unfolding rows_from
three_rows = refl

consume-copy_from_slice_example : consume fetch 6 (copy_from_slice (pos 5)) ≡ rows_from fetch 0 5
consume-copy_from_slice_example = consume-copy_from_slice fetch 5
