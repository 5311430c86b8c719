-- ===== src/Base/Maps.antt =====
-- Byte strings, and maps as association lists: a Go map with at most one entry for a key. The
-- order of the entries is that of their first insertion.
use Prim.Native.Nat.{ℕ}
use mathlib.Core.Path.{◌≡◌, refl}
use mathlib.Core.Bool.{Bool, true, false, ◌&&◌}
use mathlib.Core.List.{List, [], ◌∷◌}
use mathlib.Core.Option.{Option, none, some}
use mathlib.Core.Logic.{inl, inr}
use native.Mathlib.Omega.{arith}
use gpool.Base.Tests.{◌==◌, if◌then◌else◌, Bool-cases}

abbrev pub Bytes : Type 0
Bytes = List ℕ

abbrev pub same_bytes : Bytes → Bytes → Bool
same_bytes [] [] = true
same_bytes [] (y ∷ ys) = false
same_bytes (x ∷ xs) [] = false
same_bytes (x ∷ xs) (y ∷ ys) = (x == y) && same_bytes xs ys

pub same_bytes_refl : (xs : Bytes) → same_bytes xs xs ≡ true
same_bytes_refl [] = refl
same_bytes_refl (x ∷ xs) = ground (arith, same_bytes_refl xs)

pub same_bytes→eq : (xs ys : Bytes) → same_bytes xs ys ≡ true → xs ≡ ys
same_bytes→eq [] [] h = refl
same_bytes→eq [] (y ∷ ys) h = cc
same_bytes→eq (x ∷ xs) [] h = cc
same_bytes→eq (x ∷ xs) (y ∷ ys) h = ground (arith, same_bytes→eq xs ys)

module _ {ℓ κ} {K : Type ℓ} {V : Type κ} (same : K → K → Bool) where
  abbrev pub get : List (K × V) → K → Option V
  get [] k = none
  get ((a, v) ∷ m) k = if same a k then some v else get m k

  abbrev pub put : List (K × V) → K → V → List (K × V)
  put [] k v = (k, v) ∷ []
  put ((a, w) ∷ m) k v = if same a k then (a, v) ∷ m else (a, w) ∷ put m k v

  abbrev pub del : List (K × V) → K → List (K × V)
  del [] k = []
  del ((a, v) ∷ m) k = if same a k then del m k else (a, v) ∷ del m k

  pub get-put : (m : List (K × V)) (k : K) (v : V) → same k k ≡ true → get (put m k v) k ≡ some v
  get-put [] k v r = rw r refl
  get-put ((a, w) ∷ m) k v r = elim (Bool-cases (same a k)) [
    | inl e ↦ rw (e, e) refl
    | inr e ↦ rw (e, e) (get-put m k v r)
  ]

  pub get-del : (m : List (K × V)) (k : K) → get (del m k) k ≡ none
  get-del [] k = refl
  get-del ((a, w) ∷ m) k = elim (Bool-cases (same a k)) [
    | inl e ↦ rw e (get-del m k)
    | inr e ↦ rw (e, e) (get-del m k)
  ]
