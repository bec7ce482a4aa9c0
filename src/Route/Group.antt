-- ===== src/Route/Group.antt =====
-- web/group.go: route groups, which register routes under a prefix and behind middlewares. A group
-- points to its parent and never changes it, so it is the chain of its parents.
pub mod Nesting
mod Tests
use soil.Base.{Option, none, some, List, [], ◌∷◌, ◌++◌, Bytes, ◌==◌, if◌then◌else◌}
use soil.Route.Node.{Regexp, Panic}
use soil.Route.Insert.{Router, add_route}

-- `RouterGroup`, a middleware being a function on handlers.
pub data Group (H : Type 0) : Type 0 where
  top : Bytes → List (H → H) → Group H
  nested : Bytes → List (H → H) → Group H → Group H

-- `strings.HasPrefix(s, "/")`, else the slash is put in front.
unfoldable pub rooted : Bytes → Bytes
rooted [] = b'/' ∷ []
rooted (c ∷ s) = if c == b'/' then c ∷ s else b'/' ∷ c ∷ s

-- `strings.TrimSuffix(s, "/")`
unfoldable pub trim_suffix : Bytes → Bytes
trim_suffix [] = []
trim_suffix (c ∷ []) = if c == b'/' then [] else c ∷ []
trim_suffix (c ∷ d ∷ s) = c ∷ trim_suffix (d ∷ s)

module _ {H : Type 0} where
  unfoldable pub all_middlewares : Group H → List (H → H)
  all_middlewares (top prefix mdls) = mdls
  all_middlewares (nested prefix mdls parent) = all_middlewares parent ++ mdls

  -- The loop of `wrap`: the last middleware is the innermost.
  unfoldable pub wrap_all : List (H → H) → H → H
  wrap_all [] h = h
  wrap_all (m ∷ ms) h = m (wrap_all ms h)

  unfoldable pub wrap : Group H → H → H
  unfolding wrap_all all_middlewares
  wrap g h = wrap_all (all_middlewares g) h

  unfoldable pub full_path : Group H → Bytes → Bytes
  unfolding rooted trim_suffix
  full_path (top prefix mdls) path = trim_suffix (rooted prefix) ++ rooted path
  full_path (nested prefix mdls parent) path =
      trim_suffix (rooted (full_path parent prefix)) ++ rooted path

  -- `Use`
  unfoldable pub add_middlewares : List (H → H) → Group H → Group H
  add_middlewares ms (top prefix mdls) = top prefix (mdls ++ ms)
  add_middlewares ms (nested prefix mdls parent) = nested prefix (mdls ++ ms) parent

  -- `Group`
  unfoldable pub make_group : Bytes → List (H → H) → Group H → Group H
  make_group prefix mdls g = nested prefix mdls g

  -- `Get`, `Post` and the others, by the method.
  unfoldable pub register :
      {R : Type 0} → Regexp R → Group H → Bytes → Bytes → H → Router H R → Router H R × Option Panic
  unfolding wrap full_path
  register re g m path h r = add_route re r m (full_path g path) (some (wrap g h))
