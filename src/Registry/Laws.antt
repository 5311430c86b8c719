-- ===== src/Registry/Laws.antt =====
-- pkg/gpool/engine.go: what is registered is found, and what is registered is closed.
use gpool.Base.{
  ◌≡◌, refl, false, [], ◌∷◌, ◌++◌, Option, none, some, map, Bytes, same_bytes, same_bytes_refl, put,
  get-put, get-del,
}
use gpool.Registry.{
  Engine, subscriber_closed, pool_closed, pool, add_pool, remove_pool, close, subscriber_errors,
}

module _ {ℓ} {P S E : Type ℓ} where
  -- A pool that is added is found under its name, in the place of any other and with nothing
  -- closed; once removed it is not found any more, and it was closed if there was one.
  pub remove_pool-add_pool :
      (name : Bytes) (p : P) (e : Engine P S E)
      → let added = add_pool name (some p) e in
        (pool (name ∷ []) added ≡ some p)
        × (added.closings ≡ e.closings)
        × (pool (name ∷ []) (remove_pool name added) ≡ none)
        × ((remove_pool name added).closings ≡ e.closings ++ pool_closed p ∷ [])
  unfolding pool add_pool remove_pool
  remove_pool-add_pool name p e =
      let found = get-put same_bytes e.pools name p (same_bytes_refl name) in
      let gone = get-del same_bytes (put same_bytes e.pools name p) name in
      (found, refl, rw (found, remove_pool) gone, rw (found, remove_pool) refl)

  module _ (close_subscriber : S → Option E) where
    -- The first Close calls Close on every subscriber and then on every pool, each once, whatever
    -- errors there are, returns those errors, and leaves nothing registered. Any later one does
    -- nothing and returns the same.
    pub close-close :
        (e : Engine P S E)
        → e.shut ≡ false
        → let (e', errors) = close close_subscriber e in
          (e'.closings
            ≡ e.closings
              ++ (map (λ x. subscriber_closed x.1) e.subscribers
                  ++ map (λ x. pool_closed x.1) e.pools))
          × (errors ≡ subscriber_errors close_subscriber e.subscribers)
          × (e'.pools ≡ [])
          × (e'.subscribers ≡ [])
          × (close close_subscriber e' ≡ (e', errors))
    unfolding close
    close-close e h = rw h (refl, refl, refl, refl, refl)
