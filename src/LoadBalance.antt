-- ===== src/LoadBalance.antt =====
-- micro/loadBalance and micro/route: the pickers of the gRPC client. Connections are of any type, a
-- map of ready connections is a list in the order of the walk, random numbers are an argument.
pub mod Weights
pub mod Counts
mod Tests
use soil.Base.{
  Bytes, same, ℕ, zero, suc, ◌+◌, ◌-◌, ◌%◌, ◌^◌, Bool, true, false, ◌||◌, Option, none, some, List,
  [], ◌∷◌, map, length, get_elem?, ltb, ◌==◌, if◌then◌else◌,
}

-- What `Pick` returns; `panics` is a division by zero or an empty range for a random number.
pub data Pick (S : Type 0) : Type 0 where
  picked : S → Pick S
  no_sub_conn panics : Pick S

module _ {S : Type 0} where
  abbrev pub picked_of : Option S → Pick S
  picked_of none = panics
  picked_of (some s) = picked s

  -- `Build` of random, round robin, the smooth and the random weights: the error picker is none.
  unfoldable pub build : {A : Type 0} → (S → A) → List S → Option (List A)
  build f [] = none
  build f (s ∷ ss) = some (map f (s ∷ ss))

  -- `Build` of the round robins: the connections and the first value of `next`.
  unfoldable pub build_turns : (ℕ → ℕ) → List S → Option (List S × ℕ)
  build_turns draw [] = none
  build_turns draw (s ∷ ss) = some (s ∷ ss, draw (length (s ∷ ss)))

  unfoldable pub uniform_pick : (ℕ → ℕ) → List S → Pick S
  uniform_pick draw [] = panics
  uniform_pick draw (s ∷ ss) = picked_of (get_elem? (s ∷ ss) (draw (length (s ∷ ss))))

  -- The counter `next`, a uint64, and the choice.
  unfoldable pub turn_pick : ℕ → List S → ℕ × Pick S
  turn_pick next [] = (next, panics)
  turn_pick next (s ∷ ss) =
      ((next + 1) % 2 ^ 64, picked_of (get_elem? (s ∷ ss) (next % length (s ∷ ss))))

  -- The candidates of the round robin of micro/route: those at which the filter says true are left
  -- out.
  unfoldable pub candidates : Option (S → Bool) → List S → List S
  candidates none ss = ss
  candidates (some skips) [] = []
  candidates (some skips) (s ∷ ss) =
      let rest = candidates (some skips) ss in if skips s then rest else s ∷ rest

  unfoldable pub filtered_pick : Option (S → Bool) → ℕ → List S → ℕ × Pick S
  unfolding candidates turn_pick
  filtered_pick filter next ss = turn_pick next (candidates filter ss)

-- The filter that `GroupFilterBuilder` makes, from the tag of the client and that of the service.
unfoldable pub group_filter : {S : Type 0} → Bytes → (S → Bytes) → S → Bool
group_filter client tag s = same (tag s) client

-- `activeConn`, its count a uint32.
pub record ActiveConn (S : Type 0) : Type 0 where
  pub conn : S
  pub cnt : ℕ

-- `weightConn` of the smooth weights; `locked` says that its mutex is held by a call that is over.
pub record SmoothConn (S : Type 0) : Type 0 where
  pub sc : S
  pub efficient_weight : ℕ
  pub current_weight : ℕ
  pub locked : Bool

-- `weightConn` of the random weights.
pub record WeightConn (S : Type 0) : Type 0 where
  pub conn : S
  pub weight : ℕ

-- A change of the `i`-th entry.
unfoldable pub modify : {A : Type 0} → (A → A) → ℕ → List A → List A
modify f i [] = []
modify f zero (x ∷ xs) = f x ∷ xs
modify f (suc i) (x ∷ xs) = x ∷ modify f i xs

module _ {S : Type 0} where
  -- The loop of the least active `Pick`: the index of the first least count below `least`.
  unfoldable pub least_from : ℕ → Option ℕ → ℕ → List (ActiveConn S) → Option ℕ
  least_from i best least [] = best
  least_from i best least (c ∷ cs) =
      let fewer = least_from (i + 1) (some i) c.cnt cs in
      let passed = least_from (i + 1) best least cs in if ltb c.cnt least then fewer else passed

  -- Its `Build`, which makes an error picker of no connections but does not return it.
  unfoldable pub build_active : List S → List (ActiveConn S)
  build_active ss = map (λ s. record { conn = s; cnt = 0 }) ss

  abbrev pub raise_cnt : ActiveConn S → ActiveConn S
  raise_cnt c = record c { cnt = (c.cnt + 1) % 2 ^ 32 }

  -- `atomic.AddUint32(&res.cnt, ^uint32(0))`
  abbrev pub lower_cnt : ActiveConn S → ActiveConn S
  lower_cnt c = record c { cnt = (c.cnt + (2 ^ 32 - 1)) % 2 ^ 32 }

  -- The least active `Pick`; with no index it answers with a nil connection and no error.
  unfoldable pub active_pick : List (ActiveConn S) → List (ActiveConn S) × Option ℕ
  unfolding least_from modify
  active_pick cs = elim (least_from 0 none (2 ^ 32 - 1) cs) [
    | none ↦ (cs, none)
    | some i ↦ (modify raise_cnt i cs, some i)
  ]

  -- Its `Done`.
  unfoldable pub active_done : Option ℕ → List (ActiveConn S) → List (ActiveConn S)
  unfolding modify
  active_done none cs = cs
  active_done (some i) cs = modify lower_cnt i cs

  -- `randWeight -= sc.weight` on uint32, and the test `randWeight < 0`, which no uint32 passes.
  unfoldable pub weight_loop : ℕ → List (WeightConn S) → Pick S
  weight_loop n [] = no_sub_conn
  weight_loop n (c ∷ cs) =
      let left = (n + 2 ^ 32 - c.weight) % 2 ^ 32 in
      let rest = weight_loop left cs in if ltb left 0 then picked c.conn else rest

  unfoldable pub weight_pick : (ℕ → ℕ) → ℕ → List (WeightConn S) → Pick S
  unfolding weight_loop
  weight_pick draw total cs = if total == 0 then panics else weight_loop (draw total) cs

  -- `Build` of the random weights: the sum that it makes is not kept, and the field is 0.
  unfoldable pub build_weighted : (S → ℕ) → List S → Option (ℕ × List (WeightConn S))
  unfolding build
  build_weighted weight ss = elim (build (λ s. record { conn = s; weight = weight s }) ss) [
    | none ↦ none
    | some cs ↦ some (0, cs)
  ]

  unfoldable pub build_smooth : (S → ℕ) → List S → Option (List (SmoothConn S))
  unfolding build
  build_smooth weight ss =
      build
        (λ s. record {
          sc = s;
          efficient_weight = weight s;
          current_weight = weight s;
          locked = false;
        })
        ss

  abbrev pub advance : SmoothConn S → SmoothConn S
  advance c = record c { current_weight = (c.current_weight + c.efficient_weight) % 2 ^ 32 }

  -- `totalWeight`
  unfoldable pub total_weight : List (SmoothConn S) → ℕ
  total_weight [] = 0
  total_weight (c ∷ cs) = (c.efficient_weight + total_weight cs) % 2 ^ 32

  -- The index of the first largest current weight.
  unfoldable pub heaviest : ℕ → ℕ → ℕ → List (SmoothConn S) → ℕ
  heaviest i best weight [] = best
  heaviest i best weight (c ∷ cs) =
      let taken = heaviest (i + 1) i c.current_weight cs in
      let passed = heaviest (i + 1) best weight cs in
      if ltb weight c.current_weight then taken else passed

  abbrev pub pay : ℕ → SmoothConn S → SmoothConn S
  pay total c = record c { current_weight = (c.current_weight + 2 ^ 32 - total) % 2 ^ 32 }

  unfoldable pub any_locked : List (SmoothConn S) → Bool
  any_locked [] = false
  any_locked (c ∷ cs) = c.locked || any_locked cs

  -- What the smooth `Pick` does, once it has all the mutexes.
  unfoldable pub smooth_round : List (SmoothConn S) → List (SmoothConn S) × Option ℕ
  unfolding total_weight heaviest modify
  smooth_round [] = ([], none)
  smooth_round (c ∷ cs) =
      let now = map advance (c ∷ cs) in
      let best = heaviest 1 0 (advance c).current_weight (map advance cs) in
      (modify (pay (total_weight (c ∷ cs))) best now, some best)

  -- The smooth `Pick`; it waits for ever, which is none, at a mutex that nobody gives up. An index
  -- stands for the connection, no index for the error.
  unfoldable pub smooth_pick : List (SmoothConn S) → Option (List (SmoothConn S) × Option ℕ)
  unfolding smooth_round any_locked
  smooth_pick cs = if any_locked cs then none else some (smooth_round cs)

  -- Its `Done` for one connection, which waits as well. The early returns leave the mutex locked.
  unfoldable pub smooth_done : Bool → SmoothConn S → Option (SmoothConn S)
  smooth_done failed c =
      if c.locked
      then none
      else if failed
      then (if c.efficient_weight == 0
          then some (record c { locked = true })
          else some (record c { efficient_weight = c.efficient_weight - 1 }))
      else (if c.efficient_weight == 2 ^ 32 - 1
          then some (record c { locked = true })
          else some (record c { efficient_weight = c.efficient_weight + 1 }))
