-- ===== src/Sql/Value/Integers.antt =====
-- pkg/sqldriver/value.go: integers that fit their destination, and integers that do not.
use gpool.Base.{
  ℕ, ◌*◌, ◌%◌, ◌≡◌, refl, Bool, true, false, List, some, arith, ltb, ◌==◌, ℤ, pos, negsuc, Bytes,
}
use gpool.Sql.Value.{
  Value, int64, int_kind, uint_kind, Width, w8, w16, w32, w64, range_of, uint_dest, int_dest,
  uint_held, int_held, Formats, wrap_uint, wrap_int, signed, to_int64, to_uint64, assign_integer,
  assign_number, assign,
}

abbrev pub same_int : ℤ → ℤ → Bool
same_int (pos a) (pos b) = a == b
same_int (pos a) (negsuc b) = false
same_int (negsuc a) (pos b) = false
same_int (negsuc a) (negsuc b) = a == b

-- The integers that a destination of this width can hold.
abbrev pub fits_uint : Width → ℤ → Bool
fits_uint w (pos n) = ltb n (range_of w)
fits_uint w (negsuc n) = false

abbrev pub fits_int : Width → ℤ → Bool
fits_int w (pos n) = ltb (n * 2) (range_of w)
fits_int w (negsuc n) = ltb (n * 2) (range_of w)

-- A value of a driver that is this integer, within 64 bits.
pub data IsInteger {F T : Type 0} : Value F T → ℤ → Type 0 where
  of_int64 : (v : ℤ) → fits_int w64 v ≡ true → IsInteger (int64 v) v
  of_int : (v : ℤ) → fits_int w64 v ≡ true → IsInteger (int_kind v) v
  of_uint : (n : ℕ) → fits_uint w64 (pos n) ≡ true → IsInteger (uint_kind n) (pos n)

wrap_uint-fits :
    (w : Width) (v : ℤ)
    → fits_int w64 v ≡ true
    → same_int (pos (wrap_uint w64 v % range_of w)) v ≡ fits_uint w v
unfolding wrap_uint
wrap_uint-fits w8 (pos n) h = ground arith
wrap_uint-fits w8 (negsuc n) h = ground arith
wrap_uint-fits w16 (pos n) h = ground arith
wrap_uint-fits w16 (negsuc n) h = ground arith
wrap_uint-fits w32 (pos n) h = ground arith
wrap_uint-fits w32 (negsuc n) h = ground arith
wrap_uint-fits w64 (pos n) h = ground arith
wrap_uint-fits w64 (negsuc n) h = ground arith

wrap_int-fits :
    (w : Width) (v : ℤ) → fits_int w64 v ≡ true → same_int (wrap_int w v) v ≡ fits_int w v
unfolding wrap_int wrap_uint signed
wrap_int-fits w8 (pos n) h = ground arith
wrap_int-fits w8 (negsuc n) h = ground arith
wrap_int-fits w16 (pos n) h = ground arith
wrap_int-fits w16 (negsuc n) h = ground arith
wrap_int-fits w32 (pos n) h = ground arith
wrap_int-fits w32 (negsuc n) h = ground arith
wrap_int-fits w64 (pos n) h = ground arith
wrap_int-fits w64 (negsuc n) h = ground arith

wrap_int-unsigned :
    (w : Width) (n : ℕ)
    → fits_uint w64 (pos n) ≡ true
    → same_int (wrap_int w (wrap_int w64 (pos n))) (pos n) ≡ fits_int w (pos n)
unfolding wrap_int wrap_uint signed
wrap_int-unsigned w8 n h = ground arith
wrap_int-unsigned w16 n h = ground arith
wrap_int-unsigned w32 n h = ground arith
wrap_int-unsigned w64 n h = ground arith

mod-fits : (w : Width) (n : ℕ) → (n % range_of w == n) ≡ ltb n (range_of w)
mod-fits w8 n = ground arith
mod-fits w16 n = ground arith
mod-fits w32 n = ground arith
mod-fits w64 n = ground arith

-- What the conversions give is within the width.
wrap_uint-range : (w : Width) (n : ℕ) → fits_uint w (pos (n % range_of w)) ≡ true
wrap_uint-range w8 n = ground arith
wrap_uint-range w16 n = ground arith
wrap_uint-range w32 n = ground arith
wrap_uint-range w64 n = ground arith

wrap_int-range : (w : Width) (v : ℤ) → fits_int w (wrap_int w v) ≡ true
unfolding wrap_int wrap_uint signed
wrap_int-range w8 (pos n) = ground arith
wrap_int-range w8 (negsuc n) = ground arith
wrap_int-range w16 (pos n) = ground arith
wrap_int-range w16 (negsuc n) = ground arith
wrap_int-range w32 (pos n) = ground arith
wrap_int-range w32 (negsuc n) = ground arith
wrap_int-range w64 (pos n) = ground arith
wrap_int-range w64 (negsuc n) = ground arith

module _ {F T : Type 0} (f : Formats F T) where
  -- An integer of a driver, within 64 bits, is assigned without an error to a destination of any
  -- width, signed or not. What the destination then holds is within its width, and it is that
  -- integer exactly if the width has it: any other is replaced, without an error, by one that the
  -- width has.
  pub assign-fits :
      (layouts : List Bytes) (w : Width) (src : Value F T) (i : ℤ)
      → IsInteger src i
      → ((n : ℕ) × (assign f layouts (uint_dest w) src ≡ some (uint_held n))
          × (fits_uint w (pos n) ≡ true)
          × (same_int (pos n) i ≡ fits_uint w i))
        × ((v : ℤ) × (assign f layouts (int_dest w) src ≡ some (int_held v))
            × (fits_int w v ≡ true)
            × (same_int v i ≡ fits_int w i))
  unfolding assign assign_number assign_integer to_uint64 to_int64
  assign-fits layouts w src i (of_int64 v h) = (
    (wrap_uint w64 v % range_of w, refl, wrap_uint-range w (wrap_uint w64 v), wrap_uint-fits w v h),
    (wrap_int w v, refl, wrap_int-range w v, wrap_int-fits w v h),
  )
  assign-fits layouts w src i (of_int v h) = (
    (wrap_uint w64 v % range_of w, refl, wrap_uint-range w (wrap_uint w64 v), wrap_uint-fits w v h),
    (wrap_int w v, refl, wrap_int-range w v, wrap_int-fits w v h),
  )
  assign-fits layouts w src i (of_uint n h) = (
    (n % range_of w, refl, wrap_uint-range w n, mod-fits w n),
    (
      wrap_int w (wrap_int w64 (pos n)),
      refl,
      wrap_int-range w (wrap_int w64 (pos n)),
      wrap_int-unsigned w n h,
    ),
  )
