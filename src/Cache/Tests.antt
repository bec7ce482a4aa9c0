-- ===== src/Cache/Tests.antt =====
-- Runs of the cache, and the theorems at them. Values are numbers.
use soil.Base.{ℕ, ◌+◌, ◌%◌, ◌^◌, ◌≡◌, refl, arith, Option, none, some, List, [], ◌∷◌, Bytes, codes}
use soil.Cache.{Cache, stored, panics, found, word, new_cache, set_item, set, get}
use soil.Cache.Steps.{Reachable, new, after, setting}
use soil.Cache.Sizes.{IsSized, Reachable-IsSized}

abbrev one_item : Cache ℕ
one_item = set_item (codes "a") 7 0 0 60 (new_cache 100)

one_stored : set (codes "a") 7 0 0 (some 20) (some 40) (new_cache 100) ≡ stored one_item
unfolding set word new_cache soil.Base.same
one_stored = refl

one_Reachable : Reachable one_item
one_Reachable =
    after (new_cache 100) one_item (new 100)
      (setting (codes "a") 7 0 0 (some 20) (some 40) one_item one_stored)

Reachable-IsSized_example : IsSized one_item
Reachable-IsSized_example = Reachable-IsSized one_item one_Reachable

one_found : get (codes "a") 9 one_item ≡ found 7
unfolding get set_item new_cache soil.Base.same
one_found = refl

-- The same key once more: its old node stays in the list.
abbrev twice : Cache ℕ
twice = set_item (codes "a") 8 0 0 60 one_item

twice_stored :
    set (codes "a") 8 0 0 (some 20) (some 40) one_item
    ≡ stored (record twice {
      order =
          record { id = 0; key = codes "a"; value = 8; deadline = 0; size = 60 }
          ∷ record { id = 1; key = codes "a"; value = 8; deadline = 0; size = 60 }
          ∷ [];
    })
unfolding set set_item word new_cache soil.Base.same
twice_stored = refl

twice_size : twice.size ≡ 120
unfolding set_item word new_cache soil.Base.same
twice_size = refl

-- A pair that is larger than the capacity: the loop runs out of the list.
too_large : set (codes "b") 9 0 0 (some 20) (some 90) one_item ≡ panics
unfolding set set_item word new_cache soil.Base.same
too_large = refl
