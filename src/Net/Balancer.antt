-- ===== src/Net/Balancer.antt =====
-- micro/net/balancer.go: choosing one of the candidate endpoints. Candidates are of any type, read
-- through their address, weight and load; a pick from no candidates, which the callers rule out, is
-- none. Random numbers come from a source that is an argument.
pub mod Weighted
pub mod Fairness
mod Tests
use soil.Base.{
  ℕ, zero, suc, ◌+◌, ◌%◌, ◌^◌, Bool, true, false, ◌&&◌, Option, none, some, List, [], ◌∷◌, Bytes,
  codes, same, length, get_elem?, set, map, ltb, ◌==◌, if◌then◌else◌, ℤ, pos, negsuc, ◌+ℤ◌, ◌-ℤ◌,
  ltb_ℤ,
}

-- `BalancerPolicy` and the balancer that `NewBalancer` makes for it.
pub data Balancer : Type 0 where
  round_robin random least_active weighted_round_robin : Balancer

unfoldable pub new_balancer : Bytes → Balancer
new_balancer policy =
    if same policy (codes "random")
    then random
    else if same policy (codes "least_active")
    then least_active
    else if same policy (codes "weighted_round_robin")
    then weighted_round_robin
    else round_robin

module _ {A : Type 0} where
  -- `RoundRobinBalancer.Pick`: the counter, a uint64, and the choice.
  unfoldable pub pick_round_robin : ℕ → List A → ℕ × Option A
  pick_round_robin n [] = (n, none)
  pick_round_robin n (c ∷ []) = (n, some c)
  pick_round_robin n (c ∷ d ∷ cs) =
      ((n + 1) % 2 ^ 64, get_elem? (c ∷ d ∷ cs) (n % length (c ∷ d ∷ cs)))

  -- `RandomBalancer.Pick`; `draw k` is a number below `k`, as `rand.IntN` gives it.
  unfoldable pub pick_random : (ℕ → ℕ) → List A → Option A
  pick_random draw [] = none
  pick_random draw (c ∷ []) = some c
  pick_random draw (c ∷ d ∷ cs) = get_elem? (c ∷ d ∷ cs) (draw (length (c ∷ d ∷ cs)))

  -- The loop of `LeastActiveBalancer.Pick` over the candidates behind the first. `draw i k` is the
  -- `i`-th number that is drawn, below `k`; the loop draws at a tie only.
  unfoldable pub least_loop : (A → ℕ) → (ℕ → ℕ → ℕ) → ℕ → A → ℕ → List A → A
  least_loop load draw i best ties [] = best
  least_loop load draw i best ties (c ∷ cs) =
      let fewer = least_loop load draw i c 1 cs in
      let swapped = least_loop load draw (i + 1) c (ties + 1) cs in
      let kept = least_loop load draw (i + 1) best (ties + 1) cs in
      let passed = least_loop load draw i best ties cs in
      if ltb (load c) (load best)
      then fewer
      else if load c == load best
      then (if draw i (ties + 1) == 0 then swapped else kept)
      else passed

  unfoldable pub pick_least_active : (A → ℕ) → (ℕ → ℕ → ℕ) → List A → Option A
  unfolding least_loop
  pick_least_active load draw [] = none
  pick_least_active load draw (c ∷ cs) = some (least_loop load draw 0 c 1 cs)

-- `wrrState`, its addresses, weights and current values side by side.
pub record Lane : Type 0 where
  pub addr : Bytes
  pub weight : ℕ
  pub current : ℤ

pub record WrrState : Type 0 where
  pub lanes : List Lane
  pub total : ℕ

abbrev pub sum_weights : List Lane → ℕ
sum_weights [] = 0
sum_weights (l ∷ ls) = l.weight + sum_weights ls

module _ {A : Type 0} (addr : A → Bytes) (weight : A → ℕ) where
  unfoldable pub wrr_matches : List Lane → List A → Bool
  wrr_matches [] [] = true
  wrr_matches [] (c ∷ cs) = false
  wrr_matches (l ∷ ls) [] = false
  wrr_matches (l ∷ ls) (c ∷ cs) =
      same l.addr (addr c) && (l.weight == weight c && wrr_matches ls cs)

  abbrev pub new_lane : A → Lane
  new_lane c = record { addr = addr c; weight = weight c; current = pos 0 }

  unfoldable pub build_wrr_state : List A → WrrState
  build_wrr_state cs = record { lanes = map new_lane cs; total = sum_weights (map new_lane cs) }

-- `nextCurrent[i] += st.weights[i]`
abbrev pub advance : Lane → Lane
advance l = record l { current = l.current +ℤ pos l.weight }

-- The index of the first largest value above the one given; `i` is the index of the first lane.
unfoldable pub best_from : ℕ → ℕ → ℤ → List Lane → ℕ
best_from i best value [] = best
best_from i best value (l ∷ ls) =
    let taken = best_from (i + 1) i l.current ls in
    let passed = best_from (i + 1) best value ls in if ltb_ℤ value l.current then taken else passed

-- `-1 << 30`
abbrev pub lowest : ℤ
lowest = negsuc 1073741823

unfoldable pub best_index : List Lane → ℕ
unfolding best_from
best_index ls = best_from 0 0 lowest ls

-- `nextCurrent[bestIdx] -= st.total`
unfoldable pub charge : ℕ → ℕ → List Lane → List Lane
charge total i [] = []
charge total zero (l ∷ ls) = record l { current = l.current -ℤ pos total } ∷ ls
charge total (suc i) (l ∷ ls) = l ∷ charge total i ls

abbrev pub next_state : WrrState → WrrState
next_state st =
    let lanes = map advance st.lanes in
    record st { lanes = charge st.total (best_index lanes) lanes }

module _ {A : Type 0} (addr : A → Bytes) (weight : A → ℕ) where
  unfoldable pub with_addr : Bytes → List A → Option A
  with_addr want [] = none
  with_addr want (c ∷ cs) =
      let rest = with_addr want cs in if same (addr c) want then some c else rest

  -- The candidate with the address of the lane, or the one at its index.
  unfoldable pub choose : List Lane → ℕ → List A → Option A
  unfolding with_addr
  choose ls i cs = elim (get_elem? ls i) [
    | none ↦ none
    | some l ↦ elim (with_addr l.addr cs) [ some c ↦ some c | none ↦ get_elem? cs (i % length cs) ]
  ]

  -- `if st == nil || !wrrMatches(st, candidates) { st = buildWRRState(candidates) }`
  unfoldable pub current_state : Option WrrState → List A → WrrState
  current_state none cs = build_wrr_state addr weight cs
  current_state (some st) cs =
      if wrr_matches addr weight st.lanes cs then st else build_wrr_state addr weight cs

  -- `WeightedRoundRobinBalancer.Pick`. A failed compare-and-swap starts the round again on the
  -- state that another call stored, so each pick is one such step.
  unfoldable pub pick_weighted : Option WrrState → List A → Option WrrState × Option A
  unfolding choose
  pick_weighted st [] = (st, none)
  pick_weighted st (c ∷ []) = (st, some c)
  pick_weighted st (c ∷ d ∷ cs) =
      let now = current_state st (c ∷ d ∷ cs) in
      (some (next_state now), choose now.lanes (best_index (map advance now.lanes)) (c ∷ d ∷ cs))
