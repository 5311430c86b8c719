-- ===== src/Proxy/Statements/Recency.antt =====
-- examples/gpoolproxy/statements.go: evict discards the least recently used statement.
use gpool.Base.{
  ℕ, ◌≤◌, ◌≡◌, refl, sym, ◌⊎◌, inl, inr, [], ◌∷◌, none, some, arith, ltb, if_both, Bytes,
  same_bytes, del,
}
use gpool.Proxy.Statements.{Held, oldest, evict}

-- An entry under this name and with this use.
abbrev pub Has : Bytes → ℕ → Held → Type 0
Has name u [] = ⊥
Has name u ((a, h) ∷ m) = ((a ≡ name) × (h.used ≡ u)) ⊎ Has name u m

-- No entry was used before.
abbrev pub AllSince : ℕ → Held → Type 0
AllSince u [] = Unit {0}
AllSince u ((a, h) ∷ m) = (u ≤ h.used) × AllSince u m

-- What the scan of `m` gives, from `best` on.
abbrev Least : Held → Bytes × ℕ → Bytes × ℕ → Type 0
Least m best r =
    (r.1 ≤ best.1) × AllSince r.1 m × (((r.0 ≡ best.0) × (r.1 ≡ best.1)) ⊎ Has r.0 r.1 m)

oldest-Least : (m : Held) (best : Bytes × ℕ) → Least m best (oldest m best)
unfolding oldest
oldest-Least [] best = (omega arith, tt, inl (refl, refl))
oldest-Least ((a, h) ∷ m) best =
    if_both (λ q. Least ((a, h) ∷ m) best (oldest m q)) (ltb h.used best.1) (a, h.used) best
      (λ e.
        let (low, since, at) = oldest-Least m (a, h.used) in
        (
          ground (arith, low, e),
          (low, since),
          inr (elim at [ inl (n, u) ↦ inl (sym n, sym u) | inr has ↦ inr has ]),
        ))
      (λ e.
        let (low, since, at) = oldest-Least m best in
        (low, (ground (arith, low, e), since), elim at [ inl q ↦ inl q | inr has ↦ inr (inr has) ]))

-- What evict discards is an entry that no other entry was used before, and nothing else is
-- discarded; only from an empty set does it discard nothing.
pub evict-Since :
    (m : Held)
    → ((m ≡ []) × (evict m ≡ ([], none)))
      ⊎ ((name : Bytes) × (u : ℕ) × (evict m ≡ (del same_bytes m name, some name))
          × Has name u m
          × AllSince u m)
unfolding evict
evict-Since [] = inl (refl, refl)
evict-Since ((a, h) ∷ m) =
    let (low, since, at) = oldest-Least m (a, h.used) in
    inr (
      (oldest m (a, h.used)).0,
      (oldest m (a, h.used)).1,
      refl,
      elim at [ inl (n, u) ↦ inl (sym n, sym u) | inr has ↦ inr has ],
      (low, since),
    )
