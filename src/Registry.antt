-- ===== src/Registry.antt =====
-- pkg/gpool/engine.go: the registry of pools and subscribers by name.
--
-- Each method holds the engine's lock around its use of the maps. What a pool or a subscriber does
-- when it is closed is outside: `close_subscriber` gives the error of a subscriber's Close. A nil
-- pool or subscriber is `none`. The iteration order of Go's maps is that of the lists.
pub mod Laws
mod Tests
use gpool.Base.{
  ℕ, ◌≡◌, Bool, true, false, List, [], ◌∷◌, ◌++◌, Option, none, some, map, if◌then◌else◌, Bytes,
  same_bytes, get, put, del,
}

pub data Closing {ℓ} (P : Type ℓ) (S : Type ℓ) : Type ℓ where
  subscriber_closed : S → Closing P S
  pool_closed : P → Closing P S

-- `shut` is that of `closeOnce`; `closings` records the calls of Close on pools and subscribers.
pub record Engine {ℓ} (P S E : Type ℓ) : Type ℓ where
  pub pools : List (Bytes × P)
  pub subscribers : List (Bytes × S)
  pub shut : Bool
  pub close_errors : List (Bytes × E)
  pub closings : List (Closing P S)

-- DefaultPool and DefaultSubscriber are both "default".
abbrev pub default_name : Bytes
default_name = 100 ∷ 101 ∷ 102 ∷ 97 ∷ 117 ∷ 108 ∷ 116 ∷ []

abbrev registered {ℓ} : {A : Type ℓ} → Option A → List (Bytes × A)
registered none = []
registered (some a) = (default_name, a) ∷ []

abbrev pub name_or_default : List Bytes → Bytes → Bytes
name_or_default [] fallback = fallback
name_or_default (name ∷ names) fallback = name

abbrev pub keys_of {ℓ} : {A : Type ℓ} → List (Bytes × A) → List Bytes
keys_of m = map (λ x. x.0) m

-- The loop of `Close` over the subscribers: its errors, by name.
unfoldable pub subscriber_errors {ℓ} :
    {S E : Type ℓ} → (S → Option E) → List (Bytes × S) → List (Bytes × E)
subscriber_errors close_subscriber [] = []
subscriber_errors close_subscriber ((name, s) ∷ m) =
    let rest = subscriber_errors close_subscriber m in
    elim (close_subscriber s) [ none ↦ rest | some err ↦ (name, err) ∷ rest ]

module _ {ℓ} {P S E : Type ℓ} where
  unfoldable pub new_engine : Option P → Option S → Engine P S E
  new_engine pool subscriber = record {
    pools = registered pool;
    subscribers = registered subscriber;
    shut = false;
    close_errors = [];
    closings = [];
  }

  unfoldable pub pool : List Bytes → Engine P S E → Option P
  pool name e = get same_bytes e.pools (name_or_default name default_name)

  unfoldable pub add_pool : Bytes → Option P → Engine P S E → Engine P S E
  add_pool name none e = e
  add_pool name (some p) e = record e { pools = put same_bytes e.pools name p }

  unfoldable pub remove_pool : Bytes → Engine P S E → Engine P S E
  remove_pool name e =
      let e' = record e { pools = del same_bytes e.pools name } in
      elim (get same_bytes e.pools name) [
        | none ↦ e'
        | some p ↦ record e' { closings = e.closings ++ pool_closed p ∷ [] }
      ]

  unfoldable pub pools : Engine P S E → List Bytes
  pools e = keys_of e.pools

  unfoldable pub subscriber : List Bytes → Engine P S E → Option S
  subscriber name e = get same_bytes e.subscribers (name_or_default name default_name)

  unfoldable pub add_subscriber : Bytes → Option S → Engine P S E → Engine P S E
  add_subscriber name none e = e
  add_subscriber name (some s) e = record e { subscribers = put same_bytes e.subscribers name s }

  unfoldable pub subscribers : Engine P S E → List Bytes
  subscribers e = keys_of e.subscribers

  module _ (close_subscriber : S → Option E) where
    unfoldable pub remove_subscriber : Bytes → Engine P S E → Engine P S E × Option E
    remove_subscriber name e =
        let e' = record e { subscribers = del same_bytes e.subscribers name } in
        elim (get same_bytes e.subscribers name) [
          | none ↦ (e', none)
          | some s ↦
              (record e' { closings = e.closings ++ subscriber_closed s ∷ [] }, close_subscriber s)
        ]

    unfoldable pub close : Engine P S E → Engine P S E × List (Bytes × E)
    close e =
        let errors = subscriber_errors close_subscriber e.subscribers in
        if e.shut then (e, e.close_errors) else (
          record {
            pools = [];
            subscribers = [];
            shut = true;
            close_errors = errors;
            closings =
                e.closings
                ++ (map (λ x. subscriber_closed x.1) e.subscribers
                    ++ map (λ x. pool_closed x.1) e.pools);
          },
          errors,
        )
