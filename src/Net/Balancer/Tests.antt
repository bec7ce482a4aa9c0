-- ===== src/Net/Balancer/Tests.antt =====
-- Runs of the balancers, and the theorems at them. A candidate is its address, weight and load.
use soil.Base.{
  ℕ, zero, suc, ◌≤◌, ◌≡◌, refl, arith, same, Option, none, some, List, [], ◌∷◌, Bytes, codes, same,
  All, In, length, get_elem?,
}
use soil.Net.Balancer.{
  random, round_robin, new_balancer, WrrState, pick_random, pick_weighted, best_index, choose,
  wrr_matches, build_wrr_state, current_state, charge, best_from, with_addr,
}
use soil.Net.Balancer.Weighted.{Keeps, Chooses, pick_weighted-Keeps}
use soil.Net.Balancer.Fairness.{picks, picks-In}

record Backend : Type 0 where
  name : Bytes
  share : ℕ
  load : ℕ

abbrev name_of : Backend → Bytes
name_of n = n.name

abbrev share_of : Backend → ℕ
share_of n = n.share

abbrev load_of : Backend → ℕ
load_of n = n.load

abbrev node_a : Backend
node_a = record { name = codes "a"; share = 5; load = 3 }

abbrev node_b : Backend
node_b = record { name = codes "b"; share = 1; load = 2 }

abbrev node_c : Backend
node_c = record { name = codes "c"; share = 1; load = 2 }

abbrev two_nodes : List Backend
two_nodes = node_b ∷ node_c ∷ []

abbrev some_name : Option Backend → Option Bytes
some_name none = none
some_name (some n) = some n.name

-- The names that `k` weighted picks in a row give.
abbrev served : ℕ → Option WrrState → List (Option Bytes)
served zero st = []
served (suc k) st =
    some_name (pick_weighted name_of share_of st (node_a ∷ two_nodes)).1
    ∷ served k (pick_weighted name_of share_of st (node_a ∷ two_nodes)).0

pick_tests :
    (served 4 none ≡ some (codes "a") ∷ some (codes "a") ∷ some (codes "b") ∷ some (codes "a") ∷ [])
    × (some_name (pick_random (λ k. 2) (node_a ∷ two_nodes)) ≡ some (codes "c"))
    × (new_balancer (codes "random") ≡ random)
    × (new_balancer (codes "") ≡ round_robin)
unfolding new_balancer pick_random pick_weighted best_index choose wrr_matches build_wrr_state
    current_state charge best_from with_addr same soil.Base.◌+ℤ◌ soil.Base.◌-ℤ◌
pick_tests = (refl, refl, refl, refl)

pick_weighted-Keeps_example :
    Keeps name_of share_of (pick_weighted name_of share_of none (node_a ∷ two_nodes)).0
    × Chooses name_of share_of
        (node_a ∷ two_nodes)
        (pick_weighted name_of share_of none (node_a ∷ two_nodes)).1
pick_weighted-Keeps_example = pick_weighted-Keeps name_of share_of none node_a two_nodes tt

picks-In_example :
    In
      (get_elem? (node_a ∷ two_nodes) 1)
      (picks (length (node_a ∷ two_nodes)) 7 (node_a ∷ two_nodes))
picks-In_example = picks-In 7 1 node_a node_b (node_c ∷ []) (omega arith) (omega arith)
