-- ===== src/Cache/Sizes.antt =====
-- cache/localCache.go: the size that the cache keeps is that of its list.
use soil.Base.{
  ℕ, ◌+◌, ◌-◌, ◌%◌, ◌^◌, ◌<◌, ◌≡◌, refl, sym, subst, ap, ◌∙◌, arith, Option, none, some, List, [],
  ◌∷◌, ◌++◌, Bytes, All, All-append, ltb, ◌==◌, by_cases, take,
}
use soil.Cache.{
  Item, Cache, Outcome, stored, unsized, panics, word, new_cache, deadline_before, entry_of,
  move_to_head, assign_value, set_item, evicted, evict, make_room, store_new, store, set,
  delete_key, recheck, get_late, clean_all, clean,
}
use soil.Cache.Steps.{Step, setting, deleting, getting, cleaning, Reachable, new, after}

shrink_word : (s t : ℕ) → s < 2 ^ 32 → ((s + t) % 2 ^ 32 + (2 ^ 32 - s)) % 2 ^ 32 ≡ t % 2 ^ 32
shrink_word s t h = omega arith

grow_word : (s t : ℕ) → (t % 2 ^ 32 + s) % 2 ^ 32 ≡ (t + s) % 2 ^ 32
grow_word s t = omega arith

word_small : (n : ℕ) → word n < 2 ^ 32
unfolding word
word_small n = omega arith

module _ {V : Type 0} where
  -- The sizes of the items of a list together.
  unfoldable pub total : List (Item V) → ℕ
  total [] = 0
  total (i ∷ is) = i.size + total is

  abbrev IsSmall : Item V → Type 0
  IsSmall i = i.size < 2 ^ 32

  -- The size of a cache is that of its list, as a uint32.
  pub record IsSized (c : Cache V) : Type 0 where
    pub sum : c.size ≡ total c.order % 2 ^ 32
    pub small : All IsSmall c.order

  total-append : (is js : List (Item V)) → total (is ++ js) ≡ total is + total js
  unfolding total
  total-append [] js = omega arith
  total-append (i ∷ is) js = omega (arith, total-append is js)

  total-move_to_head : (id : ℕ) (is : List (Item V)) → total (move_to_head id is) ≡ total is
  unfolding total move_to_head
  total-move_to_head id [] = refl
  total-move_to_head id (i ∷ is) =
      by_cases (λ js. total js ≡ i.size + total is) (i.id == id) _ _
        (λ e. omega (arith, total-append is (i ∷ [])))
        (λ e. omega (arith, total-move_to_head id is))

  IsSmall-move_to_head :
      (id : ℕ) (is : List (Item V)) → All IsSmall is → All IsSmall (move_to_head id is)
  unfolding move_to_head
  IsSmall-move_to_head id [] a = tt
  IsSmall-move_to_head id (i ∷ is) a =
      by_cases (All IsSmall) (i.id == id) _ _ (λ e. All-append IsSmall is (i ∷ []) a.1 (a.0, tt))
        (λ e. (a.0, IsSmall-move_to_head id is a.1))

  total-assign_value :
      (id : ℕ) (val : V) (is : List (Item V)) → total (assign_value id val is) ≡ total is
  unfolding total assign_value
  total-assign_value id val [] = refl
  total-assign_value id val (i ∷ is) =
      by_cases (λ js. total js ≡ i.size + total is) (i.id == id) _ _ (λ e. refl)
        (λ e. omega (arith, total-assign_value id val is))

  IsSmall-assign_value :
      (id : ℕ) (val : V) (is : List (Item V))
      → All IsSmall is
      → All IsSmall (assign_value id val is)
  unfolding assign_value
  IsSmall-assign_value id val [] a = tt
  IsSmall-assign_value id val (i ∷ is) a =
      by_cases (All IsSmall) (i.id == id) _ _ (λ e. a)
        (λ e. (a.0, IsSmall-assign_value id val is a.1))

  append_sum :
      (is : List (Item V)) (i : Item V) (n : ℕ)
      → n ≡ total is % 2 ^ 32
      → word (n + i.size) ≡ total (is ++ (i ∷ [])) % 2 ^ 32
  unfolding word total
  append_sum is i n h = omega (arith, h, total-append is (i ∷ []))

  set_item-IsSized :
      (key : Bytes) (val : V) (now e pair : ℕ) (c : Cache V)
      → pair < 2 ^ 32
      → IsSized c
      → IsSized (set_item key val now e pair c)
  unfolding set_item
  set_item-IsSized key val now e pair c p h = record {
    sum = append_sum c.order _ c.size h.sum;
    small = All-append IsSmall c.order _ h.small (p, tt);
  }

  evicted-IsSized :
      (i : Item V) (c : Cache V) (is : List (Item V))
      → c.order ≡ i ∷ is
      → IsSized c
      → IsSized (evicted i c is)
  unfolding evicted word total
  evicted-IsSized i c is e h =
      let (first, rest) : All IsSmall (i ∷ is) = subst (All IsSmall) e h.small in
      record {
        sum =
            ap (λ n. (n + (2 ^ 32 - i.size)) % 2 ^ 32) (h.sum ∙ ap (λ js. total js % 2 ^ 32) e)
            ∙ shrink_word i.size (total is) first;
        small = rest;
      }

  -- Of a cache, if there is one.
  SomeSized : Option (Cache V) → Type 0
  SomeSized none = Unit
  SomeSized (some c) = IsSized c

  evict-sized :
      (pair margin : ℕ) (c : Cache V) (is : List (Item V))
      → c.order ≡ is
      → IsSized c
      → SomeSized (evict pair margin c is)
  unfolding evict SomeSized evicted
  evict-sized pair margin c [] o h =
      by_cases SomeSized (ltb margin pair) none (some c) (λ e. tt) (λ e. h)
  evict-sized pair margin c (i ∷ is) o h =
      by_cases SomeSized (ltb margin pair) _ (some c)
        (λ e.
          evict-sized pair (word (margin + i.size)) (evicted i c is) is refl
            (evicted-IsSized i c is o h))
        (λ e. h)

  make_room-sized : (pair : ℕ) (c : Cache V) → IsSized c → SomeSized (make_room pair c)
  unfolding make_room SomeSized
  make_room-sized pair c h =
      by_cases SomeSized (ltb c.capacity (word (c.size + pair))) _ (some c)
        (λ e. evict-sized pair _ c c.order refl h) (λ e. h)

  -- Of what `Set` leaves.
  pub Leaves : (Cache V → Type 0) → Outcome V → Type 0
  Leaves P (stored c) = P c
  Leaves P unsized = Unit
  Leaves P panics = Unit

  store_new-IsSized :
      (key : Bytes) (val : V) (now e pair : ℕ) (o : Option (Cache V))
      → pair < 2 ^ 32
      → SomeSized o
      → Leaves IsSized (store_new key val now e pair o)
  unfolding store_new Leaves SomeSized
  store_new-IsSized key val now e pair none p h = tt
  store_new-IsSized key val now e pair (some c) p h = set_item-IsSized key val now e pair c p h

  moved-IsSized :
      (node : Item V) (val : V) (c : Cache V)
      → IsSized c
      → IsSized (record c { order = move_to_head node.id (assign_value node.id val c.order) })
  moved-IsSized node val c h = record {
    sum =
        h.sum
        ∙ ap (λ n. n % 2 ^ 32)
            (sym (total-move_to_head node.id _ ∙ total-assign_value node.id val c.order));
    small = IsSmall-move_to_head node.id _ (IsSmall-assign_value node.id val c.order h.small);
  }

  store-IsSized :
      (key : Bytes) (val : V) (now e pair : ℕ) (o : Option (Item V)) (c : Cache V)
      → pair < 2 ^ 32
      → IsSized c
      → Leaves IsSized (store key val now e pair o c)
  unfolding store Leaves
  store-IsSized key val now e pair none c p h =
      store_new-IsSized key val now e pair (make_room pair c) p (make_room-sized pair c h)
  store-IsSized key val now e pair (some node) c p h =
      set_item-IsSized key val now e pair _ p (moved-IsSized node val c h)

  set-IsSized :
      (key : Bytes) (val : V) (now e : ℕ) (key_size val_size : Option ℕ) (c : Cache V)
      → IsSized c
      → Leaves IsSized (set key val now e key_size val_size c)
  unfolding set Leaves
  set-IsSized key val now e none val_size c h = tt
  set-IsSized key val now e (some k) none c h = tt
  set-IsSized key val now e (some k) (some v) c h =
      store-IsSized key val now e (word (k + v)) (entry_of key c.entries) c (word_small (k + v)) h

  recheck-IsSized :
      (key : Bytes) (now : ℕ) (o : Option (Item V)) (c : Cache V)
      → IsSized c
      → IsSized (recheck key now o c).0
  unfolding recheck delete_key
  recheck-IsSized key now none c h = h
  recheck-IsSized key now (some i) c h =
      by_cases (λ (out : Cache V × Option V). IsSized out.0) (deadline_before now i) _ _
        (λ e. record { sum = h.sum; small = h.small })
        (λ e. record {
          sum = h.sum ∙ ap (λ n. n % 2 ^ 32) (sym (total-move_to_head i.id c.order));
          small = IsSmall-move_to_head i.id c.order h.small;
        })

  delete_key-IsSized : (key : Bytes) (c : Cache V) → IsSized c → IsSized (delete_key key c)
  unfolding delete_key
  delete_key-IsSized key c h = record { sum = h.sum; small = h.small }

  clean_all-IsSized :
      (t : ℕ) (is : List (Item V)) (c : Cache V) → IsSized c → IsSized (clean_all t is c)
  unfolding clean_all
  clean_all-IsSized t [] c h = h
  clean_all-IsSized t (i ∷ is) c h =
      clean_all-IsSized t is _
        (by_cases IsSized (deadline_before t i) _ c (λ e. delete_key-IsSized i.key c h) (λ e. h))

  step-IsSized : (a b : Cache V) → Step a b → IsSized a → IsSized b
  unfolding get_late clean Leaves
  step-IsSized a b (setting key val now e k v b' done) h =
      subst (Leaves IsSized) done (set-IsSized key val now e k v a h)
  step-IsSized a b (deleting key) h = delete_key-IsSized key a h
  step-IsSized a b (getting key now) h = recheck-IsSized key now (entry_of key a.entries) a h
  step-IsSized a b (cleaning t visited) h = clean_all-IsSized t (take 1001 visited) a h

  -- Whatever calls of `Set`, `Get` and `Delete` and rounds of the cleaning a cache has seen: the size
  -- that it keeps is that of its list, as a uint32.
  pub Reachable-IsSized : (c : Cache V) → Reachable c → IsSized c
  Reachable-IsSized c (new capacity) = unfold new_cache total in record { sum = refl; small = tt }
  Reachable-IsSized c (after a b r s) = step-IsSized a b s (Reachable-IsSized a r)
