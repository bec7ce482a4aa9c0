-- ===== src/Route/Find.antt =====
-- web/route.go: `childOf`, `findInTree` and `findRoute`. The read lock keeps the trees as they are.
use soil.Base.{
  Bool, true, false, not, ◌&&◌, Option, none, some, List, [], ◌∷◌, ◌++◌, Bytes, codes, same,
  if◌then◌else◌, split, trim, is_some,
}
use soil.Route.Node.{
  NodeType, static, reg, param, any, Regexp, Node, node, Slot, absent, present, info, lookup,
}
use soil.Route.Insert.{Router, tree_of}

pub record MatchInfo (H R : Type 0) : Type 0 where
  pub node : Option (Node H R)
  pub param_path : List (Bytes × Bytes)
  pub matched_path : Bytes
  pub method_not_allowed : Bool
  pub allowed_methods : List Bytes

abbrev pub is_any : NodeType → Bool
is_any any = true
is_any static = false
is_any reg = false
is_any param = false

-- `m.paramPath[key] = value`
unfoldable pub set_param : Bytes → Bytes → List (Bytes × Bytes) → List (Bytes × Bytes)
set_param k v [] = (k, v) ∷ []
set_param k v ((j, w) ∷ ps) =
    let rest = (j, w) ∷ set_param k v ps in if same k j then (k, v) ∷ ps else rest

module _ {H R : Type 0} where
  abbrev pub no_match : MatchInfo H R
  no_match = record {
    node = none;
    param_path = [];
    matched_path = [];
    method_not_allowed = false;
    allowed_methods = [];
  }

  unfoldable pub add_value : Bytes → Bytes → MatchInfo H R → MatchInfo H R
  unfolding set_param
  add_value k v mi = record mi { param_path = set_param k v mi.param_path }

  abbrev pub slot_node : Slot H R → Option (Node H R)
  slot_node absent = none
  slot_node (present c) = some c

  -- `regexChild` answers only to what its expression matches; without one the code would fault.
  abbrev pub regex_answers : Regexp R → Node H R → Bytes → Bool
  regex_answers re c path = elim (info c).reg_expr [ none ↦ false | some e ↦ re.is_match e path ]

  unfoldable pub child_of_non_static : Regexp R → Bytes → Node H R → Option (Node H R)
  child_of_non_static re path (node i cs s p absent) = elim p [
    | present c ↦ some c
    | absent ↦ slot_node s
  ]
  child_of_non_static re path (node i cs s p (present x)) =
      if regex_answers re x path
      then some x
      else elim p [ present c ↦ some c | absent ↦ slot_node s ]

  unfoldable pub child_of : Regexp R → Bytes → Node H R → Option (Node H R)
  unfolding child_of_non_static
  child_of re path (node i cs s p r) = elim (lookup path cs) [
    | some c ↦ some c
    | none ↦ child_of_non_static re path (node i cs s p r)
  ]

  abbrev pub star_of : Node H R → Slot H R
  star_of (node i cs s p r) = s

  -- `mi.matchedPath = "/" + path` in the first round, `+=` later; it starts out empty.
  abbrev pub extend_path : Node H R → MatchInfo H R → MatchInfo H R
  extend_path c mi = record mi { matched_path = mi.matched_path ++ (b'/' ∷ (info c).path) }

  unfoldable pub star_fallback : Node H R → MatchInfo H R → Option (MatchInfo H R)
  star_fallback root mi = elim (star_of root) [
    | absent ↦ none
    | present c ↦
        if is_some (info c).handler
        then some (record (extend_path c mi) { node = some c })
        else none
  ]

  -- What one round does to `mi` once the child is found.
  unfoldable pub visit : Bytes → Node H R → MatchInfo H R → MatchInfo H R
  unfolding add_value
  visit segment c mi =
      let mi' = extend_path c mi in
      if is_some_name (info c).param_name then add_value (info c).param_name segment mi' else mi'
    where
      is_some_name : Bytes → Bool
      is_some_name [] = false
      is_some_name (b ∷ s) = true

  -- The loop of `findInTree` over the segments.
  unfoldable pub walk : Regexp R → List Bytes → MatchInfo H R → Node H R → Option (MatchInfo H R)
  unfolding star_fallback visit
  walk re [] mi root = some (record mi { node = some root })
  walk re (s ∷ ss) mi root = elim (child_of re s root) [
    | none ↦ star_fallback root mi
    | some c ↦
        let mi' = visit s c mi in
        let rest = walk re ss mi' c in
        if is_any (info c).typ && is_some (info c).handler
        then some (record mi' { node = some c })
        else rest
  ]

  unfoldable pub find_in_tree : Regexp R → Node H R → Bytes → Option (MatchInfo H R)
  unfolding walk
  find_in_tree re root path =
      if same path (codes "/")
      then some (record no_match { node = some root; matched_path = codes "/" })
      else walk re (split b'/' (trim b'/' path)) no_match root

  -- The methods other than `m` whose trees know the path.
  unfoldable pub other_methods : Regexp R → Bytes → Bytes → Router H R → List Bytes
  other_methods re m path [] = []
  other_methods re m path ((k, t) ∷ ts) =
      let rest = other_methods re m path ts in
      if not (same k m) && is_some (find_in_tree re t path) then k ∷ rest else rest

  unfoldable pub not_allowed : List Bytes → Option (MatchInfo H R)
  not_allowed [] = none
  not_allowed (m ∷ ms) =
      some (record no_match { method_not_allowed = true; allowed_methods = m ∷ ms })

  -- The lookup in the tree of the request's own method.
  unfoldable pub find_own : Regexp R → Router H R → Bytes → Bytes → Option (MatchInfo H R)
  find_own re r m path = elim (tree_of m r) [ none ↦ none | some t ↦ find_in_tree re t path ]

  unfoldable pub find_route : Regexp R → Router H R → Bytes → Bytes → Option (MatchInfo H R)
  unfolding find_own other_methods not_allowed
  find_route re r m path = elim (find_own re r m path) [
    | some mi ↦ some mi
    | none ↦ not_allowed (other_methods re m path r)
  ]
