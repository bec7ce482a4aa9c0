-- ===== src/Cache.antt =====
-- cache/localCache.go: the cache in memory. A function is what one call does under the mutex; `Get`
-- has two such parts. The doubly linked list is a list with its tail first, the map a list of entries;
-- values are of any type, sizes uint32s, and times nanoseconds, 0 for the zero time.
pub mod Steps
pub mod Sizes
pub mod Overflow
pub mod Lock
mod Tests
use soil.Base.{
  ℕ, zero, suc, ◌+◌, ◌-◌, ◌%◌, ◌^◌, Bool, true, false, not, ◌&&◌, Option, none, some, List, [], ◌∷◌,
  ◌++◌, Bytes, same, ltb, ◌==◌, if◌then◌else◌, take,
}

-- `item`, `id` its pointer.
pub record Item (V : Type 0) : Type 0 where
  pub id : ℕ
  pub key : Bytes
  pub value : V
  pub deadline : ℕ
  pub size : ℕ

-- `BuildInMapCache` without its callback. `entries` is `data`, one entry to a key.
pub record Cache (V : Type 0) : Type 0 where
  pub entries : List (Item V)
  pub order : List (Item V)
  pub size : ℕ
  pub capacity : ℕ
  pub next_id : ℕ

-- What `Set` gives: the cache, the error of `Of`, or a nil pointer.
pub data Outcome (V : Type 0) : Type 0 where
  stored : Cache V → Outcome V
  unsized panics : Outcome V

-- What `Get` has found after its first part: a value, no entry, or one that is past its deadline.
pub data Found (V : Type 0) : Type 0 where
  found : V → Found V
  missing : Found V
  late : Found V

unfoldable pub word : ℕ → ℕ
word n = n % 2 ^ 32

module _ {V : Type 0} where
  -- `NewBuildInMapCache`
  unfoldable pub new_cache : ℕ → Cache V
  new_cache capacity = record {
    entries = [];
    order = [];
    size = 0;
    capacity = capacity;
    next_id = 0;
  }

  unfoldable pub deadline_before : ℕ → Item V → Bool
  deadline_before t i = not (i.deadline == 0) && ltb i.deadline t

  unfoldable pub entry_of : Bytes → List (Item V) → Option (Item V)
  entry_of key [] = none
  entry_of key (i ∷ is) = let rest = entry_of key is in if same i.key key then some i else rest

  -- `delete(b.data, key)`
  unfoldable pub without : Bytes → List (Item V) → List (Item V)
  without key [] = []
  without key (i ∷ is) = let rest = without key is in if same i.key key then rest else i ∷ rest

  -- `moveToHead` of a node of the list.
  unfoldable pub move_to_head : ℕ → List (Item V) → List (Item V)
  move_to_head id [] = []
  move_to_head id (i ∷ is) =
      let rest = move_to_head id is in if i.id == id then is ++ (i ∷ []) else i ∷ rest

  -- `node.value = val`
  unfoldable pub assign_value : ℕ → V → List (Item V) → List (Item V)
  assign_value id val [] = []
  assign_value id val (i ∷ is) =
      let rest = assign_value id val is in
      if i.id == id then record i { value = val } ∷ is else i ∷ rest

  -- `set`
  unfoldable pub set_item : Bytes → V → ℕ → ℕ → ℕ → Cache V → Cache V
  unfolding without word
  set_item key val now expiration pair_size c =
      let node : Item V = record {
        id = c.next_id;
        key = key;
        value = val;
        deadline = if ltb 0 expiration then now + expiration else 0;
        size = pair_size;
      } in
      record c {
        entries = node ∷ without key c.entries;
        order = c.order ++ (node ∷ []);
        size = word (c.size + pair_size);
        next_id = c.next_id + 1;
      }

  unfoldable pub evicted : Item V → Cache V → List (Item V) → Cache V
  unfolding without word
  evicted i c rest = record c {
    entries = without i.key c.entries;
    order = rest;
    size = word (c.size + (2 ^ 32 - i.size));
  }

  -- The loop over the tail: when the list is used up, its head is removed, whose `prev` is nil.
  unfoldable pub evict : ℕ → ℕ → Cache V → List (Item V) → Option (Cache V)
  unfolding evicted word
  evict pair_size margin c [] = if ltb margin pair_size then none else some c
  evict pair_size margin c (i ∷ is) =
      let rest = evict pair_size (word (margin + i.size)) (evicted i c is) is in
      if ltb margin pair_size then rest else some c

  -- `b.size+uint32(pairSize) > b.capacity`, and the loop with `margin := b.capacity - b.size`.
  unfoldable pub make_room : ℕ → Cache V → Option (Cache V)
  unfolding evict word
  make_room pair_size c =
      if ltb c.capacity (word (c.size + pair_size))
      then evict pair_size (word (c.capacity + (2 ^ 32 - c.size))) c c.order
      else some c

  unfoldable pub store_new : Bytes → V → ℕ → ℕ → ℕ → Option (Cache V) → Outcome V
  unfolding set_item
  store_new key val now expiration pair_size none = panics
  store_new key val now expiration pair_size (some c) =
      stored (set_item key val now expiration pair_size c)

  unfoldable pub store : Bytes → V → ℕ → ℕ → ℕ → Option (Item V) → Cache V → Outcome V
  unfolding set_item move_to_head assign_value make_room store_new
  store key val now expiration pair_size none c =
      store_new key val now expiration pair_size (make_room pair_size c)
  store key val now expiration pair_size (some node) c = stored (
      set_item key val now expiration pair_size
        (record c { order = move_to_head node.id (assign_value node.id val c.order) }))

  -- `Set`, with the sizes that `Of` gives of the key and of the value.
  unfoldable pub set : Bytes → V → ℕ → ℕ → Option ℕ → Option ℕ → Cache V → Outcome V
  unfolding store entry_of word
  set key val now expiration none val_size c = unsized
  set key val now expiration (some k) none c = unsized
  set key val now expiration (some k) (some v) c =
      store key val now expiration (word (k + v)) (entry_of key c.entries) c

  unfoldable pub judge : ℕ → Option (Item V) → Found V
  unfolding deadline_before
  judge now none = missing
  judge now (some i) = if deadline_before now i then late else found i.value

  -- `Get` under the read lock.
  unfoldable pub get : Bytes → ℕ → Cache V → Found V
  unfolding judge entry_of
  get key now c = judge now (entry_of key c.entries)

  -- `delete`; `onEvicted` is told of the entry.
  unfoldable pub delete_key : Bytes → Cache V → Cache V
  unfolding without
  delete_key key c = record c { entries = without key c.entries }

  unfoldable pub recheck : Bytes → ℕ → Option (Item V) → Cache V → Cache V × Option V
  unfolding delete_key deadline_before move_to_head
  recheck key now none c = (c, none)
  recheck key now (some i) c =
      if deadline_before now i
      then (delete_key key c, none)
      else (record c { order = move_to_head i.id c.order }, some i.value)

  -- `Get` under the write lock, once it has seen a late entry.
  unfoldable pub get_late : Bytes → ℕ → Cache V → Cache V × Option V
  unfolding recheck entry_of
  get_late key now c = recheck key now (entry_of key c.entries) c

  -- `Delete`; none is the error for a key that is not there.
  unfoldable pub delete : Bytes → Cache V → Option (Cache V)
  unfolding delete_key entry_of
  delete key c = elim (entry_of key c.entries) [ none ↦ none | some i ↦ some (delete_key key c) ]

  -- One round of the cleaning, over the entries in the order in which they come: 1001 of them at most.
  unfoldable pub clean_all : ℕ → List (Item V) → Cache V → Cache V
  unfolding delete_key deadline_before
  clean_all t [] c = c
  clean_all t (i ∷ is) c = clean_all t is (if deadline_before t i then delete_key i.key c else c)

  unfoldable pub clean : ℕ → List (Item V) → Cache V → Cache V
  unfolding clean_all
  clean t visited c = clean_all t (take 1001 visited) c
