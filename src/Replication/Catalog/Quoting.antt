-- ===== src/Replication/Catalog/Quoting.antt =====
-- pkg/vendors/postgres/cdc/identifier.go: whatever a name holds, quoted it is read as that name.
use mathlib.Core.List.{append_assoc}
use gpool.Base.{
  ℕ, ◌≡◌, refl, ap, ◌∙◌, Bool, true, false, [], ◌∷◌, ◌++◌, Option, none, some, arith, ◌==◌,
  if◌then◌else◌, Bytes, if_both,
}
use gpool.Replication.Catalog.{
  double_quote, single_quote, double_all, quote_identifier, quote_literal,
}

abbrev keep : ℕ → Option (Bytes × Bytes) → Option (Bytes × Bytes)
keep b none = none
keep b (some (text, rest)) = some (b ∷ text, rest)

-- How SQL reads on after an opening quote: a quote that is doubled stands for itself, and the first
-- other one ends the text. `after_quote` says that a quote was just read. The result is the text
-- and what follows it.
unfoldable pub read_text : ℕ → Bool → Bytes → Option (Bytes × Bytes)
read_text q false [] = none
read_text q true [] = some ([], [])
read_text q false (b ∷ bs) =
    let closing = read_text q true bs in
    let open_text = read_text q false bs in if b == q then closing else keep b open_text
read_text q true (b ∷ bs) =
    let open_text = read_text q false bs in if b == q then keep q open_text else some ([], b ∷ bs)

-- What follows does not go on with the quote.
abbrev pub Stops : ℕ → Bytes → Type 0
Stops q [] = Unit {0}
Stops q (b ∷ bs) = (b == q) ≡ false

self : (q : ℕ) → (q == q) ≡ true
self q = ground arith

double_all-read :
    (q : ℕ) (s rest : Bytes)
    → Stops q rest
    → read_text q false (double_all q s ++ q ∷ rest) ≡ some (s, rest)
unfolding read_text double_all
double_all-read q [] [] h = ground arith
double_all-read q [] (r ∷ rest) h = ground (arith, h)
double_all-read q (b ∷ bs) rest h =
    let ih = double_all-read q bs rest h in
    if_both (λ (t : Bytes). read_text q false (t ++ q ∷ rest) ≡ some (b ∷ bs, rest)) (b == q) _ _
      (λ e.
        let same : q ≡ b = ground (arith, e) in
        rw (self q, ih) (ap (λ k. some (k ∷ bs, rest)) same))
      (λ e. rw (e, ih) refl)

abbrev pub opened : ℕ → Bytes → Option (Bytes × Bytes)
opened q [] = none
opened q (b ∷ bs) = if b == q then read_text q false bs else none

-- Whatever characters a name holds, the identifier that quotes it is read by SQL as that name and
-- ends where it should, and so is a literal: nothing in it can close the quote early.
pub quote-read :
    (s rest : Bytes)
    → Stops double_quote rest
    → Stops single_quote rest
    → (opened double_quote (quote_identifier s ++ rest) ≡ some (s, rest))
      × (opened single_quote (quote_literal s ++ rest) ≡ some (s, rest))
unfolding quote_identifier quote_literal
quote-read s rest d i = (
  ap (read_text double_quote false)
        (append_assoc (double_all double_quote s) (double_quote ∷ []) rest)
      ∙ double_all-read double_quote s rest d,
  ap (read_text single_quote false)
        (append_assoc (double_all single_quote s) (single_quote ∷ []) rest)
      ∙ double_all-read single_quote s rest i,
)
