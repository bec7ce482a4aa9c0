-- ===== src/Route/Shape.antt =====
-- web/route.go: what every route tree looks like, whichever calls of `addRoute` built it.
use soil.Base.{
  ℕ, ◌+◌, ◌≤◌, ◌≡◌, refl, ◌∙◌, inl, inr, Bool, true, false, Option, none, some, List, [], ◌∷◌,
  Bytes, codes, same, ◌==◌, eq_of_same, arith, drop, split, Bool-cases, Option-cases, is_some,
}
use soil.Route.Node.{
  NodeType, static, reg, param, any, Regexp, Panic, root_taken, Param, Info, Node, node, Children,
  nil, cons, Slot, absent, present, Place, at_child, at_star, at_param, at_regex, Step, panics,
  returns, info, set_handler, new_node, lookup, store, put_child, parse_param, plain, pattern_of,
  child_or_create, child_or_create_star, child_or_create_param, child_or_create_regex,
  child_or_create_static, child_or_create_colon, regex_differs, nil_regexp, regex_conflict,
}
use soil.Route.Insert.{
  Router, insert, descend, claim, add_route, add_checked, tree_of, set_tree, root_of,
}

module _ {H R : Type 0} where
  -- A slot of the given type holds a node of that type, with a regular expression where it must.
  abbrev pub Fits : NodeType → Info H R → Type 0
  Fits static i = (i.typ ≡ static) × (i.param_name ≡ [])
  Fits any i = (i.typ ≡ any) × (i.param_name ≡ [])
  Fits param i = (i.typ ≡ param) × Unit {0}
  Fits reg i = (i.typ ≡ reg) × (is_some i.reg_expr ≡ true)

  abbrev pub count : Slot H R → ℕ
  count absent = 0
  count (present c) = 1

  -- What `addRoute` never changes in a node that is there.
  pub record Kept (i j : Info H R) : Type 0 where
    pub typ : j.typ ≡ i.typ
    pub path : j.path ≡ i.path
    pub param_name : j.param_name ≡ i.param_name
    pub reg_expr : j.reg_expr ≡ i.reg_expr

  pub Kept-refl : (i : Info H R) → Kept i i
  Kept-refl i = record { typ = refl; path = refl; param_name = refl; reg_expr = refl }

  pub Fits-Kept : (t : NodeType) (i j : Info H R) → Fits t i → Kept i j → Fits t j
  Fits-Kept static i j f k = ground arith
  Fits-Kept reg i j f k = ground arith
  Fits-Kept param i j f k = ground arith
  Fits-Kept any i j f k = ground arith

unfoldable mutual
  -- At most one of the wildcard, the parameter and the regular expression stands at a place, and
  -- every child is filed under its own path and of the type of its slot.
  pub IsShaped : {H R : Type 0} → Node H R → Type 0
  IsShaped (node i cs s p r) =
      (count s + count p + count r ≤ 1)
      × AreShaped cs
      × FitsSlot any s
      × FitsSlot param p
      × FitsSlot reg r

  pub AreShaped : {H R : Type 0} → Children H R → Type 0
  AreShaped nil = Unit {0}
  AreShaped (cons k c cs) = ((info c).path ≡ k) × Fits static (info c) × IsShaped c × AreShaped cs

  pub FitsSlot : {H R : Type 0} → NodeType → Slot H R → Type 0
  FitsSlot t absent = Unit {0}
  FitsSlot t (present c) = Fits t (info c) × IsShaped c

pub new-IsShaped :
    (H R : Type 0) (t : NodeType) (path name : Bytes) (e : Option R)
    → IsShaped (new_node {H = H} t path name e)
unfolding IsShaped
new-IsShaped H R t path name e = (omega arith, tt, tt, tt, tt)

module _ {H R : Type 0} where
  pub info-put_child : (pl : Place) (c n : Node H R) → info (put_child pl c n) ≡ info n
  unfolding put_child
  info-put_child (at_child k) c (node i cs s p r) = refl
  info-put_child at_star c (node i cs s p r) = refl
  info-put_child at_param c (node i cs s p r) = refl
  info-put_child at_regex c (node i cs s p r) = refl

  pub lookup-AreShaped :
      (k : Bytes) (cs : Children H R) (c : Node H R)
      → AreShaped cs
      → lookup k cs ≡ some c
      → ((info c).path ≡ k) × Fits static (info c) × IsShaped c
  unfolding lookup IsShaped
  lookup-AreShaped k nil c v e = cc
  lookup-AreShaped k (cons j d cs) c v e =
      ground (arith, eq_of_same k j, lookup-AreShaped k cs c v.3)

  pub store-AreShaped :
      (k : Bytes) (d : Node H R) (cs : Children H R)
      → (info d).path ≡ k
      → Fits static (info d)
      → IsShaped d
      → AreShaped cs
      → AreShaped (store k d cs)
  unfolding store IsShaped
  store-AreShaped k d nil q f w v = (q, f, w, tt)
  store-AreShaped k d (cons j c cs) q f w v =
      ground (arith, eq_of_same k j, store-AreShaped k d cs q f w v.3)

  -- What a step establishes: writing a shaped child back keeps the parent shaped.
  abbrev pub StepOk : Node H R → Step H R → Type 0
  StepOk n (panics p) = Unit {0}
  StepOk n (returns n' pl c) =
      IsShaped c
      × ((c' : Node H R) → IsShaped c' → Kept (info c) (info c') → IsShaped (put_child pl c' n'))
      × (info n' ≡ info n)

  star-StepOk : (path : Bytes) (n : Node H R) → IsShaped n → StepOk n (child_or_create_star path n)
  unfolding child_or_create_star IsShaped put_child
  star-StepOk path (node i cs s (present c) r) v = tt
  star-StepOk path (node i cs s absent (present c)) v = tt
  star-StepOk path (node i cs (present c) absent absent) v =
      (v.2.1, (λ c' w k. (omega arith, v.1, (Fits-Kept any _ _ v.2.0 k, w), tt, tt)), refl)
  star-StepOk path (node i cs absent absent absent) v = (
    new-IsShaped H R any path [] none,
    (λ c' w k. (omega arith, v.1, (Fits-Kept any _ _ (refl, refl) k, w), tt, tt)),
    refl,
  )

  param-StepOk :
      (path name : Bytes) (n : Node H R) → IsShaped n → StepOk n (child_or_create_param path name n)
  unfolding child_or_create_param IsShaped put_child
  param-StepOk path name (node i cs (present c) p r) v = tt
  param-StepOk path name (node i cs absent p (present c)) v = tt
  param-StepOk path name (node i cs absent absent absent) v = (
    new-IsShaped H R param path name none,
    (λ c' w k. (omega arith, v.1, tt, (Fits-Kept param _ _ (refl, tt) k, w), tt)),
    refl,
  )
  param-StepOk path name (node i cs absent (present c) absent) v =
      elim (Bool-cases (same (info c).path path)) [
        | inl e ↦
            rw e (
              v.3.1,
              (λ c' w k. (omega arith, v.1, tt, (Fits-Kept param _ _ v.3.0 k, w), tt)),
              refl,
            )
        | inr e ↦ rw e tt
      ]

  regex-StepOk :
      (re : Regexp R) (path exp name : Bytes) (n : Node H R)
      → IsShaped n
      → StepOk n (child_or_create_regex re path exp name n)
  unfolding child_or_create_regex IsShaped put_child
  regex-StepOk re path exp name (node i cs (present c) p r) v = tt
  regex-StepOk re path exp name (node i cs absent (present c) r) v = tt
  regex-StepOk re path exp name (node i cs absent absent absent) v =
      elim (Option-cases (re.compile exp)) [
        | inl e ↦ rw (e, child_or_create_regex) tt
        | inr (x, e) ↦
            rw (e, child_or_create_regex)
              (
                new-IsShaped H R reg path name (some x),
                (λ c' w k. (omega arith, v.1, tt, tt, (Fits-Kept reg _ _ (refl, refl) k, w))),
                refl,
              )
      ]
  regex-StepOk re path exp name (node i cs absent absent (present c)) v =
      differs (regex_differs re i exp name)
    where
      differs :
          (d : Option Bool)
          → StepOk (node i cs absent absent (present c)) (elim d [
            | none ↦ panics nil_regexp
            | some true ↦ panics regex_conflict
            | some false ↦ returns (node i cs absent absent (present c)) at_regex c
          ])
      differs none = tt
      differs (some true) = tt
      differs (some false) =
          (v.4.1, (λ c' w k. (omega arith, v.1, tt, tt, (Fits-Kept reg _ _ v.4.0 k, w))), refl)

  static-StepOk :
      (path : Bytes) (n : Node H R) → IsShaped n → StepOk n (child_or_create_static path n)
  unfolding child_or_create_static put_child IsShaped
  static-StepOk path (node i cs s p r) v = elim (Option-cases (lookup path cs)) [
    | inl e ↦
        rw (e, child_or_create_static)
          (
            new-IsShaped H R static path [] none,
            (λ c' w k. (
              v.0,
              store-AreShaped path c' (store path (new_node static path [] none) cs) k.path
                  (Fits-Kept static _ _ (refl, refl) k) w
                  (store-AreShaped path (new_node static path [] none) cs refl (refl, refl)
                    (new-IsShaped H R static path [] none) v.1),
              v.2,
              v.3,
              v.4,
            )),
            refl,
          )
    | inr (d, e) ↦
        rw (e, child_or_create_static)
          (
            (lookup-AreShaped path cs d v.1 e).2,
            (λ c' w k.
                let (q, f, _) = lookup-AreShaped path cs d v.1 e in
                (
                  v.0,
                  store-AreShaped path c' cs (k.path ∙ q) (Fits-Kept static _ _ f k) w v.1,
                  v.2,
                  v.3,
                  v.4,
                )),
            refl,
          )
  ]

  colon-StepOk :
      (re : Regexp R) (path name : Bytes) (n : Node H R)
      → IsShaped n
      → StepOk n (child_or_create_colon re path name n)
  unfolding child_or_create_colon
  colon-StepOk re path name n v = by_kind (parse_param name)
    where
      by_kind :
          (k : Param)
          → StepOk n (elim k [
            | plain name' ↦ child_or_create_param path name' n
            | pattern_of name' exp ↦ child_or_create_regex re path exp name' n
          ])
      by_kind (plain name') = param-StepOk path name' n v
      by_kind (pattern_of name' exp) = regex-StepOk re path exp name' n v

  pub child_or_create-StepOk :
      (re : Regexp R) (path : Bytes) (n : Node H R)
      → IsShaped n
      → StepOk n (child_or_create re path n)
  unfolding child_or_create
  child_or_create-StepOk re [] n v = tt
  child_or_create-StepOk re (b ∷ name) n v = elim (Bool-cases (same (b ∷ name) (codes "*"))) [
    | inl e ↦ rw (e, child_or_create) (star-StepOk (b ∷ name) n v)
    | inr e ↦ elim (Bool-cases (b == b':')) [
      | inl q ↦ rw (e, q, child_or_create) (colon-StepOk re (b ∷ name) name n v)
      | inr q ↦ rw (e, q, child_or_create) (static-StepOk (b ∷ name) n v)
    ]
  ]

  -- A node after the call of `addRoute`, shaped and with the fields it had but for its handler.
  abbrev pub Grown : Node H R → Node H R → Type 0
  Grown n n' = IsShaped n' × Kept (info n) (info n')

  pub claim-Grown : (h : Option H) (p : Panic) (n : Node H R) → IsShaped n → Grown n (claim h p n).0
  unfolding claim IsShaped
  claim-Grown h p (node i cs s q r) v = by_handler i.handler
    where
      by_handler :
          (o : Option H)
          → Grown
              (node i cs s q r)
              (let x : Node H R × Option Panic = elim o [
                | none ↦ (set_handler h (node i cs s q r), none)
                | some old ↦ (node i cs s q r, some p)
              ] in
                x).0
      by_handler none = (v, record { typ = refl; path = refl; param_name = refl; reg_expr = refl })
      by_handler (some old) = (v, Kept-refl i)

  descend-Grown :
      (n : Node H R) (st : Step H R) (more : Node H R → Node H R × Option Panic)
      → IsShaped n
      → StepOk n st
      → ((c : Node H R) → IsShaped c → Grown c (more c).0)
      → Grown n (descend n st more).0
  unfolding descend
  descend-Grown n (panics p) more v ok ih = (v, Kept-refl _)
  descend-Grown n (returns n' pl c) more v (w, back, same_info) ih =
      let (u, k) = ih c w in
      (back (more c).0 u k, rw (info-put_child pl (more c).0 n', same_info) (Kept-refl _))

  pub insert-Grown :
      (re : Regexp R) (ss : List Bytes) (h : Option H) (n : Node H R)
      → IsShaped n
      → Grown n (insert re ss h n).0
  unfolding insert
  insert-Grown re [] h n v = claim-Grown h _ n v
  insert-Grown re ([] ∷ ss) h n v = (v, Kept-refl _)
  insert-Grown re ((b ∷ s) ∷ ss) h n v =
      descend-Grown n (child_or_create re (b ∷ s) n) (λ c. insert re ss h c) v
        (child_or_create-StepOk re (b ∷ s) n v) (λ c w. insert-Grown re ss h c w)

  -- Every tree of the router is shaped, and its root is a static node.
  abbrev pub AllShaped : Router H R → Type 0
  AllShaped [] = Unit {0}
  AllShaped ((m, t) ∷ ts) = (IsShaped t × Fits static (info t)) × AllShaped ts

  set_tree-AllShaped :
      (m : Bytes) (t : Node H R) (ts : Router H R)
      → IsShaped t × Fits static (info t)
      → AllShaped ts
      → AllShaped (set_tree m t ts)
  unfolding set_tree
  set_tree-AllShaped m t [] w v = (w, tt)
  set_tree-AllShaped m t ((k, u) ∷ ts) w v = ground (arith, set_tree-AllShaped m t ts w v.1)

  pub tree_of-AllShaped :
      (m : Bytes) (t : Node H R) (ts : Router H R)
      → AllShaped ts
      → tree_of m ts ≡ some t
      → IsShaped t × Fits static (info t)
  unfolding tree_of
  tree_of-AllShaped m t [] v e = cc
  tree_of-AllShaped m t ((k, u) ∷ ts) v e = ground (arith, tree_of-AllShaped m t ts v.1)

  pub root_of-IsShaped :
      (m : Bytes) (r : Router H R)
      → AllShaped r
      → IsShaped (root_of m r) × Fits static (info (root_of m r))
  root_of-IsShaped m r v = elim (Option-cases (tree_of m r)) [
    | inl e ↦ rw (e, root_of) (new-IsShaped H R static (codes "/") [] none, (refl, refl))
    | inr (t, e) ↦ rw (e, root_of) (tree_of-AllShaped m t r v e)
  ]

  add_checked-AllShaped :
      (re : Regexp R) (r : Router H R) (m path : Bytes) (h : Option H)
      → AllShaped r
      → AllShaped (add_checked re r m path h).0
  unfolding add_checked
  add_checked-AllShaped re r m path h v =
      let (w, f) = root_of-IsShaped m r v in
      elim (Bool-cases (same path (codes "/"))) [
        | inl e ↦
            let (u, k) = claim-Grown h root_taken (root_of m r) w in
            rw (e, add_checked) (set_tree-AllShaped m _ r (u, Fits-Kept static _ _ f k) v)
        | inr e ↦
            let (u, k) = insert-Grown re (split b'/' (drop 1 path)) h (root_of m r) w in
            rw (e, add_checked) (set_tree-AllShaped m _ r (u, Fits-Kept static _ _ f k) v)
      ]

-- Whatever `addRoute` is called with, and whether it panics or not, at most one of the wildcard, the
-- parameter and the regular expression stands at any place of any tree afterwards, and every child
-- is filed under its own path, has the type of its slot, and a regular expression if that is one.
pub add_route-AllShaped :
    {H R : Type 0} (re : Regexp R) (r : Router H R) (m path : Bytes) (h : Option H)
    → AllShaped r
    → AllShaped (add_route re r m path h).0
unfolding add_route
add_route-AllShaped re r m [] h v = v
add_route-AllShaped re r m (b ∷ path) h v =
    ground (arith, add_checked-AllShaped re r m (b ∷ path) h v)
