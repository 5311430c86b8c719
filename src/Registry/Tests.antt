-- ===== src/Registry/Tests.antt =====
-- The theorems on the registry, with numbered pools and subscribers.
use gpool.Base.{ℕ, false, [], ◌∷◌, Option, none, some, ◌==◌, if◌then◌else◌}
use gpool.Registry.{Engine}

abbrev two : Engine ℕ ℕ ℕ
two = record {
  pools = (97 ∷ [], 1) ∷ (98 ∷ [], 2) ∷ [];
  subscribers = (99 ∷ [], 3) ∷ [];
  shut = false;
  close_errors = [];
  closings = [];
}

-- Subscriber 3 fails to close.
abbrev close_subscriber : ℕ → Option ℕ
close_subscriber s = if s == 3 then some 30 else none
