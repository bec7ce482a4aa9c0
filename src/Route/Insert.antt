-- ===== src/Route/Insert.antt =====
-- web/route.go: `router` and `addRoute`. What a panic leaves behind in the trees is part of the
-- result.
use soil.Base.{
  not, ◌&&◌, Option, none, some, List, [], ◌∷◌, Bytes, codes, same, ◌==◌, if◌then◌else◌, split,
  drop, last_is,
}
use soil.Route.Node.{
  static, Regexp, Node, Panic, Step, panics, returns, info, set_handler, put_child, child_or_create,
  new_node, empty_path, no_leading_slash, trailing_slash, root_taken, double_slash,
  routing_conflict,
}

-- `router.trees`: the trees by method, in the order in which `range` meets them.
abbrev pub Router : Type 0 → Type 0 → Type 0
Router H R = List (Bytes × Node H R)

unfoldable pub new_router {ℓ} : (A : Type ℓ) → List A
new_router A = []

module _ {H R : Type 0} where
  -- `r.trees[method]`
  unfoldable pub tree_of : Bytes → Router H R → Option (Node H R)
  tree_of m [] = none
  tree_of m ((k, t) ∷ ts) = let rest = tree_of m ts in if same m k then some t else rest

  -- `r.trees[method] = root`
  unfoldable pub set_tree : Bytes → Node H R → Router H R → Router H R
  set_tree m t [] = (m, t) ∷ []
  set_tree m t ((k, u) ∷ ts) =
      let rest = (k, u) ∷ set_tree m t ts in if same m k then (k, t) ∷ ts else rest

  -- The end of `addRoute`: the handler goes to the node that the segments lead to.
  unfoldable pub claim : Option H → Panic → Node H R → Node H R × Option Panic
  claim h taken n = elim (info n).handler [
    | none ↦ (set_handler h n, none)
    | some old ↦ (n, some taken)
  ]

  -- `root = root.childOrCreate(segment)`, then the rest of the loop on the child.
  unfoldable pub descend :
      Node H R → Step H R → (Node H R → Node H R × Option Panic) → Node H R × Option Panic
  descend n (panics p) more = (n, some p)
  descend n (returns n' place c) more = (put_child place (more c).0 n', (more c).1)

  -- The loop of `addRoute` over the segments.
  unfoldable pub insert : Regexp R → List Bytes → Option H → Node H R → Node H R × Option Panic
  unfolding claim descend
  insert re [] h n = claim h routing_conflict n
  insert re ([] ∷ ss) h n = (n, some double_slash)
  insert re ((b ∷ s) ∷ ss) h n = descend n (child_or_create re (b ∷ s) n) (λ c. insert re ss h c)

  abbrev pub new_root : Node H R
  new_root = new_node static (codes "/") [] none

  -- `root, ok := r.trees[method]`, with the root that is made if there is none.
  abbrev pub root_of : Bytes → Router H R → Node H R
  root_of m r = elim (tree_of m r) [ none ↦ new_root | some t ↦ t ]

  -- The root after the call, and what became of it.
  unfoldable pub added_tree : Regexp R → Node H R → Bytes → Option H → Node H R × Option Panic
  unfolding claim
  added_tree re root path h =
      if same path (codes "/")
      then claim h root_taken root
      else insert re (split b'/' (drop 1 path)) h root

  -- What `addRoute` does behind its checks of the path.
  unfoldable pub add_checked :
      Regexp R → Router H R → Bytes → Bytes → Option H → Router H R × Option Panic
  unfolding added_tree
  add_checked re r m path h =
      let (root', p) = added_tree re (root_of m r) path h in (set_tree m root' r, p)

  unfoldable pub add_route :
      Regexp R → Router H R → Bytes → Bytes → Option H → Router H R × Option Panic
  unfolding last_is
  add_route re r m [] h = (r, some empty_path)
  add_route re r m (b ∷ path) h =
      if not (b == b'/')
      then (r, some no_leading_slash)
      else if not (same (b ∷ path) (codes "/")) && last_is b'/' (b ∷ path)
      then (r, some trailing_slash)
      else add_checked re r m (b ∷ path) h
