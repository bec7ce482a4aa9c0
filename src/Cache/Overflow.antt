-- ===== src/Cache/Overflow.antt =====
-- cache/localCache.go: a cache that is larger than its capacity.
use soil.Base.{
  ℕ, ◌+◌, ◌-◌, ◌^◌, ◌≤◌, ◌<◌, ◌≡◌, refl, ap, ◌∙◌, arith, none, some, List, [], ◌∷◌, Bytes, ltb,
  by_cases,
}
use soil.Cache.{
  Item, Cache, stored, word, entry_of, set_item, evict, make_room, store_new, store, set,
}

margin_wraps :
    (capacity size pair : ℕ)
    → capacity < size
    → size + pair < 2 ^ 32
    → pair ≤ word (capacity + (2 ^ 32 - size))
unfolding word
margin_wraps capacity size pair over fits = omega arith

module _ {V : Type 0} where
  evict_nothing :
      (pair margin : ℕ) (c : Cache V) (is : List (Item V))
      → pair ≤ margin
      → evict pair margin c is ≡ some c
  unfolding evict
  evict_nothing pair margin c [] h = ground arith
  evict_nothing pair margin c (i ∷ is) h = ground arith

  make_room-over :
      (pair : ℕ) (c : Cache V)
      → c.capacity < c.size
      → c.size + pair < 2 ^ 32
      → make_room pair c ≡ some c
  unfolding make_room
  make_room-over pair c over fits =
      by_cases (λ o. o ≡ some c) (ltb c.capacity (word (c.size + pair))) _ (some c)
        (λ e. evict_nothing pair _ c c.order (margin_wraps c.capacity c.size pair over fits))
        (λ e. refl)

  -- A cache that is larger than its capacity stores any new pair without removing an item, as long as
  -- its size is a uint32: what it takes for the room that is left has wrapped around.
  pub set-over :
      (key : Bytes) (val : V) (now e k v : ℕ) (c : Cache V)
      → entry_of key c.entries ≡ none
      → c.capacity < c.size
      → c.size + word (k + v) < 2 ^ 32
      → set key val now e (some k) (some v) c ≡ stored (set_item key val now e (word (k + v)) c)
  unfolding set store store_new
  set-over key val now e k v c absent over fits =
      ap (λ o. store key val now e (word (k + v)) o c) absent
      ∙ ap (store_new key val now e (word (k + v))) (make_room-over (word (k + v)) c over fits)
