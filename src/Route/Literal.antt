-- ===== src/Route/Literal.antt =====
-- web/route.go: a route without wildcard, parameter or regular expression is found again.
use soil.Base.{
  ℕ, ◌≡◌, refl, ap, ◌∙◌, ◌≢◌, inl, inr, false, Option, none, some, List, [], ◌∷◌, ◌++◌, append-nil,
  append_assoc, Bytes, codes, same, ◌==◌, same_refl, eq_of_same, arith, All, split, first_is,
  last_is, push_front, trim-cons, Bool-cases, Option-cases,
}
use soil.Route.Node.{
  Panic, root_taken, static, Regexp, Node, node, Children, nil, cons, Step, returns, info, lookup,
  store, put_child, at_child, child_or_create, child_or_create_static,
}
use soil.Route.Insert.{
  Router, insert, descend, claim, tree_of, set_tree, root_of, add_checked, add_route,
}
use soil.Route.Find.{
  MatchInfo, no_match, child_of, walk, visit, extend_path, find_in_tree, find_route,
}
use soil.Route.Shape.{
  IsShaped, Fits, Kept, Fits-Kept, new-IsShaped, AllShaped, root_of-IsShaped, insert-Grown,
  lookup-AreShaped,
}

-- A segment that `childOrCreate` takes for plain text.
abbrev pub IsLiteral : Bytes → Type 0
IsLiteral [] = ⊥
IsLiteral (b ∷ s) = (b ≢ b':') × (b ∷ s ≢ codes "*")

-- "/a/b" for the segments a and b.
unfoldable pub join : List Bytes → Bytes
join [] = []
join (s ∷ ss) = b'/' ∷ (s ++ join ss)

some-ne-none {ℓ} : {A : Type ℓ} {a : A} → some a ≢ none
some-ne-none e = cc

module _ {H R : Type 0} where
  pub lookup-store_self :
      (k : Bytes) (c : Node H R) (cs : Children H R) → lookup k (store k c cs) ≡ some c
  unfolding lookup store
  lookup-store_self k c nil = rw (same_refl k)
  lookup-store_self k c (cons j d cs) = elim (Bool-cases (same k j)) [
    | inl e ↦ rw (e, store) (rw (e, lookup))
    | inr e ↦ rw (e, store) (rw (e, lookup) (lookup-store_self k c cs))
  ]

  pub child_or_create_literal :
      (re : Regexp R) (s : Bytes) (n : Node H R)
      → IsLiteral s
      → child_or_create re s n ≡ child_or_create_static s n
  unfolding child_or_create
  child_or_create_literal re [] n l = absurd l
  child_or_create_literal re (b ∷ s) n l = ground (arith, eq_of_same (b ∷ s) (codes "*"))

  -- A visit of a plain node binds nothing.
  visit_plain :
      (s : Bytes) (c : Node H R) (mi : MatchInfo H R)
      → (info c).param_name ≡ []
      → visit s c mi ≡ extend_path c mi
  unfolding visit
  visit_plain s c mi e = rw e

  -- The result of `walk` that ends in a node with the handler.
  abbrev pub Reaches : H → MatchInfo H R → Bytes → Option (MatchInfo H R) → Type 0
  Reaches h mi path found =
      (n : Node H R) × (found
        ≡ some (record mi { node = some n; matched_path = mi.matched_path ++ path }))
      × ((info n).handler ≡ some h)

  claim-Reaches :
      (re : Regexp R) (h : H) (p : Panic) (n : Node H R) (mi : MatchInfo H R)
      → (claim (some h) p n).1 ≡ none
      → Reaches h mi [] (walk re [] mi (claim (some h) p n).0)
  unfolding claim walk
  claim-Reaches re h p (node i cs s q r) mi e = elim (Option-cases i.handler) [
    | inl f ↦ rw (f, claim, append-nil) (_, refl, refl)
    | inr (old, f) ↦ absurd (some-ne-none (rw (f, claim) at e))
  ]

  child_of-put_child :
      (re : Regexp R) (s : Bytes) (c n : Node H R)
      → child_of re s (put_child (at_child s) c n) ≡ some c
  unfolding child_of put_child
  child_of-put_child re s c (node i cs sl p r) = rw (lookup-store_self s c cs, child_of)

  walk_child :
      (re : Regexp R) (s : Bytes) (ss : List Bytes) (mi : MatchInfo H R) (n c : Node H R)
      → child_of re s n ≡ some c
      → Fits static (info c)
      → walk re (s ∷ ss) mi n ≡ walk re ss (extend_path c mi) c
  unfolding walk
  walk_child re s ss mi n c e f = rw (e, walk) (rw (visit_plain s c mi f.1, f.0))

  -- A child that a literal segment names, as the call returns it.
  abbrev ReturnsChild : Bytes → Step H R → Type 0
  ReturnsChild s st =
      (n : Node H R) × (c : Node H R) × (st ≡ returns n (at_child s) c)
      × ((info c).path ≡ s)
      × Fits static (info c)
      × IsShaped c

  static-ReturnsChild :
      (s : Bytes) (n : Node H R) → IsShaped n → ReturnsChild s (child_or_create_static s n)
  unfolding child_or_create_static IsShaped
  static-ReturnsChild s (node i cs sl p r) v = elim (Option-cases (lookup s cs)) [
    | inl e ↦
        rw (e, child_or_create_static)
          (_, _, refl, refl, (refl, refl), new-IsShaped H R static s [] none)
    | inr (d, e) ↦
        let (q, f, w) = lookup-AreShaped s cs d v.1 e in
        rw (e, child_or_create_static) (_, _, refl, q, f, w)
  ]

  descend-Reaches :
      (re : Regexp R) (s : Bytes) (ss : List Bytes) (h : H) (n n' c : Node H R)
      (more : Node H R → Node H R × Option Panic) (mi : MatchInfo H R)
      → (info c).path ≡ s
      → Fits static (info c)
      → Kept (info c) (info (more c).0)
      → ((mi' : MatchInfo H R) → Reaches h mi' (join ss) (walk re ss mi' (more c).0))
      → Reaches h mi
          (join (s ∷ ss))
          (walk re (s ∷ ss) mi (descend n (returns n' (at_child s) c) more).0)
  unfolding descend join
  descend-Reaches re s ss h n n' c more mi q f k ih =
      let (found, e, g) = ih (extend_path (more c).0 mi) in
      let p : (info (more c).0).path ≡ s = k.path ∙ q in
      let join_path : (mi.matched_path ++ (b'/' ∷ (info (more c).0).path)) ++ join ss
          ≡ mi.matched_path ++ (b'/' ∷ (s ++ join ss)) =
        rw (p, append_assoc) in
      (
        found,
        walk_child re s ss mi _ (more c).0 (child_of-put_child re s (more c).0 n')
              (Fits-Kept static _ _ f k)
            ∙ e
            ∙ ap (λ t. some (record mi { node = some found; matched_path = t })) join_path,
        g,
      )

  insert-Reaches :
      (re : Regexp R) (ss : List Bytes) (h : H) (n : Node H R) (mi : MatchInfo H R)
      → IsShaped n
      → All IsLiteral ss
      → (insert re ss (some h) n).1 ≡ none
      → Reaches h mi (join ss) (walk re ss mi (insert re ss (some h) n).0)
  unfolding insert join descend
  insert-Reaches re [] h n mi v l e = claim-Reaches re h _ n mi e
  insert-Reaches re ([] ∷ ss) h n mi v l e = absurd l.0
  insert-Reaches re ((b ∷ s) ∷ ss) h n mi v l e =
      let (n', c, r, q, f, w) = static-ReturnsChild (b ∷ s) n v in
      let step : child_or_create re (b ∷ s) n ≡ returns n' (at_child (b ∷ s)) c =
        child_or_create_literal re (b ∷ s) n l.0 ∙ r in
      let kept = (insert-Grown re ss (some h) c w).1 in
      rw step (
        descend-Reaches re (b ∷ s) ss h n n' c (λ d. insert re ss (some h) d) mi q f kept
          (λ mi'. insert-Reaches re ss h c mi' w l.1 (rw (step, descend) at e)))

join-push_front :
    (c : ℕ) (s : Bytes) (r : List Bytes) → join r ≡ b'/' ∷ s → join (push_front c r) ≡ b'/' ∷ c ∷ s
unfolding join push_front
join-push_front c s [] h = ground arith
join-push_front c s (t ∷ ts) h = ground arith

join-split : (s : Bytes) → join (split b'/' s) ≡ b'/' ∷ s
unfolding join split
join-split [] = refl
join-split (c ∷ s) = elim (Bool-cases (c == b'/')) [
  | inl e ↦ rw e (ground (arith, join-split s))
  | inr e ↦ rw e (join-push_front c s (split b'/' s) (join-split s))
]

-- The root path, or one whose segments are literal, behind its leading slash.
abbrev pub IsLiteralPath : Bytes → Type 0
IsLiteralPath [] = ⊥
IsLiteralPath (b ∷ []) = Unit
IsLiteralPath (b ∷ d ∷ s) = All IsLiteral (split b'/' (d ∷ s))

first_is_literal : (s : Bytes) → All IsLiteral (split b'/' s) → first_is b'/' s ≡ false
unfolding split
first_is_literal [] h = refl
first_is_literal (c ∷ s) h = elim (Bool-cases (c == b'/')) [
  | inl e ↦ absurd (rw e at h).0
  | inr e ↦ e
]

module _ {H R : Type 0} where
  tree_of-set_tree_self :
      (m : Bytes) (t : Node H R) (r : Router H R) → tree_of m (set_tree m t r) ≡ some t
  unfolding tree_of set_tree
  tree_of-set_tree_self m t [] = rw (same_refl m)
  tree_of-set_tree_self m t ((k, u) ∷ r) = elim (Bool-cases (same m k)) [
    | inl e ↦ rw (e, set_tree) (rw (e, tree_of))
    | inr e ↦ rw (e, set_tree) (rw (e, tree_of) (tree_of-set_tree_self m t r))
  ]

  add_route_passes :
      (re : Regexp R) (r : Router H R) (m : Bytes) (b d : ℕ) (s : Bytes) (h : Option H)
      → (add_route re r m (b ∷ d ∷ s) h).1 ≡ none
      → (b ≡ b'/')
        × (last_is b'/' (d ∷ s) ≡ false)
        × (add_route re r m (b ∷ d ∷ s) h ≡ add_checked re r m (b ∷ d ∷ s) h)
  unfolding add_route same
  add_route_passes re r m b d s h e = ground arith

  add_checked_segments :
      (re : Regexp R) (r : Router H R) (m : Bytes) (b d : ℕ) (s : Bytes) (h : Option H)
      → let (t, p) = insert re (split b'/' (d ∷ s)) h (root_of m r) in
        add_checked re r m (b ∷ d ∷ s) h ≡ (set_tree m t r, p)
  unfolding add_checked same
  add_checked_segments re r m b d s h = ground arith

  find_in_tree_segments :
      (re : Regexp R) (t : Node H R) (d : ℕ) (s : Bytes)
      → first_is b'/' (d ∷ s) ≡ false
      → last_is b'/' (d ∷ s) ≡ false
      → find_in_tree re t (b'/' ∷ d ∷ s) ≡ walk re (split b'/' (d ∷ s)) no_match t
  unfolding find_in_tree same
  find_in_tree_segments re t d s f l = rw (trim-cons b'/' (d ∷ s) f l)

find_route_of_tree :
    {H R : Type 0} (re : Regexp R) (r : Router H R) (m path : Bytes) (t : Node H R)
    (mi : MatchInfo H R)
    → tree_of m r ≡ some t
    → find_in_tree re t path ≡ some mi
    → find_route re r m path ≡ some mi
unfolding find_route
find_route_of_tree re r m path t mi e f = ground arith

module _ {H R : Type 0} where
  claim_handler :
      (h : H) (p : Panic) (n : Node H R)
      → (claim (some h) p n).1 ≡ none
      → (info (claim (some h) p n).0).handler ≡ some h
  unfolding claim
  claim_handler h p (node i cs s q r) e = elim (Option-cases i.handler) [
    | inl f ↦ rw (f, claim) refl
    | inr (old, f) ↦ absurd (some-ne-none (rw (f, claim) at e))
  ]

  add_route_root :
      (re : Regexp R) (r : Router H R) (m : Bytes) (b : ℕ) (h : Option H)
      → (add_route re r m (b ∷ []) h).1 ≡ none
      → (b ≡ b'/')
        × (add_route re r m (b ∷ []) h ≡ (
          set_tree m (claim h root_taken (root_of m r)).0 r,
          (claim h root_taken (root_of m r)).1,
        ))
  unfolding add_route add_checked same
  add_route_root re r m b h e = ground arith

  find_in_tree_root :
      (re : Regexp R) (t : Node H R)
      → find_in_tree re t (codes "/")
        ≡ some (record no_match { node = some t; matched_path = codes "/" })
  unfolding find_in_tree same
  find_in_tree_root re t = refl

-- A registered route without wildcard, parameter or regular expression, the root path too, is found under its method
-- and path, with its handler, itself as the matched path and no bindings, whatever else the router
-- holds.
pub find_route-add_route :
    {H R : Type 0} (re : Regexp R) (r : Router H R) (m path : Bytes) (h : H)
    → AllShaped r
    → IsLiteralPath path
    → (add_route re r m path (some h)).1 ≡ none
    → (n : Node H R) × (find_route re (add_route re r m path (some h)).0 m path
        ≡ some (record no_match { node = some n; matched_path = path }))
      × ((info n).handler ≡ some h)
find_route-add_route re r m [] h v l e = absurd l
find_route-add_route re r m (b ∷ []) h v l e =
    let (slash, added) = add_route_root re r m b (some h) e in
    let tree = (claim (some h) root_taken (root_of m r)).0 in
    rw (added, slash)
      (
        tree,
        find_route_of_tree re (set_tree m tree r) m _ tree _ (tree_of-set_tree_self m tree r)
            (find_in_tree_root re tree),
        claim_handler h root_taken (root_of m r) (rw added at e),
      )
find_route-add_route re r m (b ∷ d ∷ s) h v l e =
    let (slash, last, eq) = add_route_passes re r m b d s (some h) e in
    let added = eq ∙ add_checked_segments re r m b d s (some h) in
    let segments = split b'/' (d ∷ s) in
    let w = (root_of-IsShaped m r v).0 in
    let (n, found, holds) =
      insert-Reaches re segments h (root_of m r) no_match w l (rw added at e) in
    let router' = set_tree m (insert re segments (some h) (root_of m r)).0 r in
    let tree = (insert re segments (some h) (root_of m r)).0 in
    rw (added, slash)
      (
        n,
        find_route_of_tree re router' m _ tree _ (tree_of-set_tree_self m tree r) (
            find_in_tree_segments re tree d s (first_is_literal (d ∷ s) l) last
            ∙ found
            ∙ ap (λ t. some (record no_match { node = some n; matched_path = t }))
                (join-split (d ∷ s))),
        holds,
      )
