-- ===== src/Route/Tests.antt =====
-- Runs of the router, and the theorems at them. An expression stands for itself here and matches
-- only its own text.
use soil.Base.{
  split_first, ℕ, ◌≡◌, refl, Option, none, some, List, [], ◌∷◌, Bytes, codes, same, split, trim,
}
use soil.Route.Node.{
  Regexp, Node, info, lookup, store, put_child, child_or_create, parse_param, cut_last,
  routing_conflict, trailing_slash,
}
use soil.Route.Insert.{Router, tree_of, set_tree, insert, add_checked, add_route, new_root}
use soil.Route.Find.{MatchInfo, no_match, child_of, find_in_tree, find_route}
use soil.Route.Shape.{AllShaped, add_route-AllShaped}
use soil.Route.Literal.{find_route-add_route}

router : Unit {0}
unfolding add_route find_route find_in_tree tree_of same split trim split_first cut_last parse_param
    child_or_create add_checked set_tree child_of insert lookup put_child store
router = tt

abbrev literal_regexp : Regexp Bytes
literal_regexp = record { compile = λ e. some e; source = λ e. e; is_match = same }

abbrev Trees : Type 0
Trees = Router ℕ Bytes

abbrev no_trees : Trees
no_trees = []

-- `addRoute` of a handler, given by a number, with the panic dropped.
abbrev add : Trees → Bytes → Bytes → ℕ → Trees
add r m path h = (add_route literal_regexp r m path (some h)).0

abbrev user_trees : Trees
user_trees =
    add (add (add no_trees (codes "GET") (codes "/user/:id") 1) (codes "GET") (codes "/user/me") 2)
      (codes "POST") (codes "/form/*") 3

-- The handler, the bindings and the path of a match.
abbrev seen : Option (MatchInfo ℕ Bytes) → Option (Option ℕ × List (Bytes × Bytes) × Bytes)
seen none = none
seen (some mi) =
    some (elim mi.node [ none ↦ none | some n ↦ (info n).handler ], mi.param_path, mi.matched_path)

find_tests :
    (seen (find_route literal_regexp user_trees (codes "GET") (codes "/user/7"))
      ≡ some (some 1, (codes "id", codes "7") ∷ [], codes "/user/:id"))
    × (seen (find_route literal_regexp user_trees (codes "GET") (codes "/user/me/"))
        ≡ some (some 2, [], codes "/user/me"))
    × (seen (find_route literal_regexp user_trees (codes "POST") (codes "/form/a/b"))
        ≡ some (some 3, [], codes "/form/*"))
    × (seen (find_route literal_regexp user_trees (codes "GET") (codes "/none")) ≡ none)
unfolding router
find_tests = (refl, refl, refl, refl)

add_tests :
    ((add_route literal_regexp no_trees (codes "GET") (codes "/a/") (some 1)).1
      ≡ some trailing_slash)
    × ((add_route literal_regexp user_trees (codes "GET") (codes "/user/me") (some 9)).1
        ≡ some routing_conflict)
unfolding router
add_tests = (refl, refl)

add_route-AllShaped_example : AllShaped (add no_trees (codes "GET") (codes "/a/:id(x)") 1)
add_route-AllShaped_example =
    add_route-AllShaped literal_regexp no_trees (codes "GET") (codes "/a/:id(x)") (some 1) tt

find_route-add_route_example :
    (n : Node ℕ Bytes) × (find_route literal_regexp
        (add no_trees (codes "GET") (codes "/a/b") 4)
        (codes "GET")
        (codes "/a/b")
      ≡ some (record no_match { node = some n; matched_path = codes "/a/b" }))
    × ((info n).handler ≡ some 4)
unfolding router
find_route-add_route_example =
    find_route-add_route literal_regexp no_trees (codes "GET") (codes "/a/b") 4 tt
      (((λ e. cc), (λ e. cc)), (((λ e. cc), (λ e. cc)), tt)) refl

abbrev bare : Node ℕ Bytes
bare = new_root
