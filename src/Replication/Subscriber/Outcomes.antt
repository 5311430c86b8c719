-- ===== src/Replication/Subscriber/Outcomes.antt =====
-- pkg/vendors/postgres/cdc/subscriber.go: what a method leaves behind, on success and on error.
use gpool.Base.{◌≡◌, refl, Bool, true, false}
use gpool.Replication.Subscriber.{
  Error, Reply, done, duplicate_object, undefined_object, refused, Postgres, Result, ok, err, M,
  fail, then_with, ◌>>=◌, choose, expect_done, unless_duplicate, unless_undefined,
}

-- On an error the state is in the first predicate, and otherwise in the second.
abbrev pub Ends :
    {S A : Type 0} → (Postgres S → Type 0) → (Postgres S → Type 0) → Postgres S × Result A → Type 0
Ends P Q (p, ok a) = Q p
Ends P Q (p, err e) = P p

module _ {S A B : Type 0} (P Q R : Postgres S → Type 0) where
  then_with-Ends :
      (r : Postgres S × Result A) (f : A → M S B)
      → Ends P Q r
      → ((a : A) (q : Postgres S) → Q q → Ends P R (f a q))
      → Ends P R (then_with f r)
  then_with-Ends (p, ok a) f h g = g a p h
  then_with-Ends (p, err e) f h g = h

  pub bind-Ends :
      (m : M S A) (f : A → M S B) (p : Postgres S)
      → Ends P Q (m p)
      → ((a : A) (q : Postgres S) → Q q → Ends P R (f a q))
      → Ends P R ((m >>= f) p)
  bind-Ends m f p h g = then_with-Ends (m p) f h g

module _ {S : Type 0} (P : Postgres S → Type 0) where
  pub choose-Ends :
      {A : Type 0} (Q : Postgres S → Type 0) (b : Bool) (m n : M S A) (p : Postgres S)
      → (b ≡ true → Ends P Q (m p))
      → (b ≡ false → Ends P Q (n p))
      → Ends P Q (choose b m n p)
  choose-Ends Q true m n p f g = f refl
  choose-Ends Q false m n p f g = g refl

  pub expect_done-Ends : (r : Reply) (p : Postgres S) → P p → Ends P P (expect_done r p)
  expect_done-Ends done p h = h
  expect_done-Ends duplicate_object p h = h
  expect_done-Ends undefined_object p h = h
  expect_done-Ends refused p h = h

  pub unless_duplicate-Ends : (r : Reply) (p : Postgres S) → P p → Ends P P (unless_duplicate r p)
  unless_duplicate-Ends done p h = h
  unless_duplicate-Ends duplicate_object p h = h
  unless_duplicate-Ends undefined_object p h = h
  unless_duplicate-Ends refused p h = h

  pub unless_undefined-Ends : (r : Reply) (p : Postgres S) → P p → Ends P P (unless_undefined r p)
  unless_undefined-Ends done p h = h
  unless_undefined-Ends duplicate_object p h = h
  unless_undefined-Ends undefined_object p h = h
  unless_undefined-Ends refused p h = h

pub and-Ends :
    {S A : Type 0} (P Q R : Postgres S → Type 0) (r : Postgres S × Result A)
    → Ends P Q r
    → R r.0
    → Ends (λ p. P p × R p) (λ p. Q p × R p) r
and-Ends P Q R (p, ok a) h g = (h, g)
and-Ends P Q R (p, err e) h g = (h, g)

pub either-Ends :
    {S A : Type 0} (P Q R : Postgres S → Type 0) (r : Postgres S × Result A)
    → Ends P Q r
    → ((p : Postgres S) → P p → R p)
    → ((p : Postgres S) → Q p → R p)
    → R r.0
either-Ends P Q R (p, ok a) h f g = g p h
either-Ends P Q R (p, err e) h f g = f p h

pub map-Ends :
    {S A : Type 0} (P Q : Postgres S → Type 0) (r : Postgres S × Result A)
    → Ends P P r
    → ((p : Postgres S) → P p → Q p)
    → Ends Q Q r
map-Ends P Q (p, ok a) h f = f p h
map-Ends P Q (p, err e) h f = f p h

pub all-Ends :
    {S A : Type 0} (P : Postgres S → Type 0) (r : Postgres S × Result A) → P r.0 → Ends P P r
all-Ends P (p, ok a) h = h
all-Ends P (p, err e) h = h

pub ok-Ends :
    {S A : Type 0} (P Q : Postgres S → Type 0) (r : Postgres S × Result A) {a : A}
    → Ends P Q r
    → r.1 ≡ ok a
    → Q r.0
ok-Ends P Q (p, ok a) h e = h
ok-Ends P Q (p, err x) h e = cc

-- What has succeeded was not turned away.
pub choose-ok :
    {S A : Type 0} (b : Bool) (e : Error) (m : M S A) (p : Postgres S) {a : A}
    → (choose b (fail e) m p).1 ≡ ok a
    → choose b (fail e) m p ≡ m p
choose-ok true e m p h = cc
choose-ok false e m p h = refl

-- A sequence that has succeeded did so in both its parts.
pub bind-ok :
    {S A B : Type 0} (m : M S A) (f : A → M S B) (p : Postgres S) {b : B}
    → ((m >>= f) p).1 ≡ ok b
    → (a : A) × ((m p).1 ≡ ok a) × ((m >>= f) p ≡ f a (m p).0)
bind-ok {S} {A} {B} m f p h = by_result (m p) h
  where
    by_result :
        (r : Postgres S × Result A) {b : B}
        → (then_with f r).1 ≡ ok b
        → (a : A) × (r.1 ≡ ok a) × (then_with f r ≡ f a r.0)
    by_result (q, ok a) h = (a, refl, refl)
    by_result (q, err e) h = cc
