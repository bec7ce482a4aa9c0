-- ===== src/Net/Endpoint/Tests.antt =====
-- Runs of the endpoint lists and of the health of a node, and the theorems at them.
use soil.Base.{
  ℕ, ◌+◌, ◌-◌, ◌≡◌, refl, arith, trim_where, Bool, true, Option, none, some, List, [], ◌∷◌, Bytes,
  codes, same, length, leb, if◌then◌else◌, ℤ, pos,
}
use soil.Net.Endpoint.{
  Endpoint, fields_where, parse_one_endpoint, split_last, dedupe_endpoints, absorb, raise, ok, err,
  empty_address, invalid_weight, merge_endpoints, parse_endpoint_list, resolve_endpoints,
  no_resolved, Health, healthy, mark_success, threshold_of, cooldown_of,
}
use soil.Net.Endpoint.Dedupe.{HasDistinct, weight_of, highest, larger?, merge_endpoints-weights}
use soil.Net.Endpoint.Outages.{mark_failures, last_of, healthy-mark_failures}

-- One digit is a number, and any address will do.
digit : Bytes → Option ℤ
digit (c ∷ []) = some (pos (c - b'0'))
digit s = none

any_address : Bytes → Bool
any_address s = true

abbrev endpoint : Bytes → ℕ → Endpoint
endpoint a w = record { addr = a; weight = pos w }

abbrev first_list : List Endpoint
first_list = endpoint (codes "a:1") 2 ∷ endpoint (codes "b:1") 0 ∷ []

abbrev second_list : List Endpoint
second_list = endpoint (codes "a:1") 4 ∷ endpoint (codes "a:1") 3 ∷ []

endpoint_tests :
    (parse_endpoint_list digit any_address (codes " a:1@3, b:1;a:1@5")
      ≡ ok (endpoint (codes "a:1") 5 ∷ endpoint (codes "b:1") 1 ∷ []))
    × (parse_endpoint_list digit any_address (codes " ") ≡ err empty_address)
    × (parse_endpoint_list digit any_address (codes "a@0") ≡ err invalid_weight)
    × (resolve_endpoints (λ a. some []) first_list ≡ err no_resolved)
    × (merge_endpoints first_list second_list
        ≡ endpoint (codes "a:1") 4 ∷ endpoint (codes "b:1") 1 ∷ [])
unfolding parse_endpoint_list trim_where fields_where parse_one_endpoint split_last any_address
    digit merge_endpoints dedupe_endpoints resolve_endpoints absorb raise same
endpoint_tests = (refl, refl, refl, refl, refl)

merge_endpoints-weights_example :
    HasDistinct (merge_endpoints first_list second_list)
    × (weight_of (codes "a:1") (merge_endpoints first_list second_list)
        ≡ larger? (highest (codes "a:1") first_list) (highest (codes "a:1") second_list))
merge_endpoints-weights_example = merge_endpoints-weights first_list second_list (codes "a:1")

abbrev tired_node : Health
tired_node = record { fails = 1; down_until = 9 }

healthy-mark_failures_example :
    healthy 40 (mark_failures 2 30 (10 ∷ 20 ∷ []) (mark_success tired_node)) ≡ (
      if leb (threshold_of 2) (length {A = ℕ} (10 ∷ 20 ∷ []))
      then leb (last_of 10 (20 ∷ []) + cooldown_of 30) 40
      else true)
healthy-mark_failures_example = healthy-mark_failures 2 30 10 (20 ∷ []) tired_node 40 (omega arith)
