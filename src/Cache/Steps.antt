-- ===== src/Cache/Steps.antt =====
-- cache/localCache.go: the calls of the cache, as a step relation.
use soil.Base.{ℕ, ◌≡◌, Option, List, Bytes}
use soil.Cache.{Item, Cache, stored, new_cache, set, delete_key, get_late, clean}

module _ {V : Type 0} where
  -- What one call does to the cache.
  pub data Step : Cache V → Cache V → Type 0 where
    setting :
        {a : Cache V} (key : Bytes) (val : V) (now expiration : ℕ) (key_size val_size : Option ℕ)
        (b : Cache V)
        → set key val now expiration key_size val_size a ≡ stored b
        → Step a b
    deleting : {a : Cache V} (key : Bytes) → Step a (delete_key key a)
    getting : {a : Cache V} (key : Bytes) (now : ℕ) → Step a (get_late key now a).0
    cleaning : {a : Cache V} (t : ℕ) (visited : List (Item V)) → Step a (clean t visited a)

  pub data Reachable : Cache V → Type 0 where
    new : (capacity : ℕ) → Reachable (new_cache capacity)
    after : (a b : Cache V) → Reachable a → Step a b → Reachable b
