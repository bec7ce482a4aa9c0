-- ===== src/Route/Methods.antt =====
-- web/route.go: what `findRoute` answers when the tree of the request's method has no match.
use soil.Base.{
  ◌≡◌, refl, sym, ap, subst, ◌∙◌, ◌⊎◌, ◌≢◌, ◌↔◌, inl, inr, Bool, true, false, Option, none, some,
  List, [], ◌∷◌, ◌&&◌, not, Bytes, same, same_refl, eq_of_same, arith, split, trim, All, In,
  Bool-cases, Option-cases, is_some,
}
use soil.Route.Node.{Regexp, Node}
use soil.Route.Insert.{Router, tree_of, set_tree, root_of, added_tree, add_checked, add_route}
use soil.Route.Find.{
  MatchInfo, no_match, walk, visit, child_of, star_fallback, find_in_tree, find_own, other_methods,
  not_allowed, find_route,
}

none-ne-some {ℓ} : {A : Type ℓ} {a : A} → none ≢ some a
none-ne-some e = cc

false-ne-true : false ≢ true
false-ne-true e = cc

module _ {H R : Type 0} where
  -- No method has two trees, as in a Go map.
  abbrev pub HasDistinct : Router H R → Type 0
  HasDistinct [] = Unit {0}
  HasDistinct ((k, t) ∷ ts) = All (λ e. e.0 ≢ k) ts × HasDistinct ts

  abbrev pub Knows : Regexp R → Bytes → Bytes × Node H R → Type 0
  Knows re path e = is_some (find_in_tree re e.1 path) ≡ true

  -- The test by which the loop of `findRoute` takes a method.
  abbrev is_listed : Regexp R → Bytes → Bytes → Bytes × Node H R → Bool
  is_listed re m path e = not (same e.0 m) && is_some (find_in_tree re e.1 path)

  is_listed_iff :
      (re : Regexp R) (m path : Bytes) (e : Bytes × Node H R)
      → (is_listed re m path e ≡ true) ↔ ((e.0 ≢ m) × Knows re path e)
  is_listed_iff re m path (k, t) = (
    (λ h. ((λ q. ground (arith, same_refl m)), ground arith)),
    (λ (ne, w). ground (arith, eq_of_same k m, ne)),
  )

  other_methods-nil :
      (re : Regexp R) (m path : Bytes) (r : Router H R)
      → other_methods re m path r ≡ []
      → All (λ e. e.0 ≢ m → find_in_tree re e.1 path ≡ none) r
  unfolding other_methods
  other_methods-nil re m path [] h = tt
  other_methods-nil re m path ((k, t) ∷ ts) h = elim (Bool-cases (is_listed re m path (k, t))) [
    | inl e ↦ cc (rw e at h)
    | inr e ↦ (
      (λ ne. ground (arith, (is_listed_iff re m path (k, t)).1)),
      other_methods-nil re m path ts (rw e at h),
    )
  ]

  other_methods_sound :
      (re : Regexp R) (m path k : Bytes) (r : Router H R)
      → In k (other_methods re m path r)
      → (k ≢ m) × (t : Node H R) × In (k, t) r × Knows re path (k, t)
  unfolding other_methods
  other_methods_sound re m path k [] h = elim h [ ]
  other_methods_sound re m path k ((j, t) ∷ ts) h = elim (Bool-cases (is_listed re m path (j, t))) [
    | inl e ↦
        let h' : (k ≡ j) ⊎ In k (other_methods re m path ts) = rw e at h in
        let (ne, w) = (is_listed_iff re m path (j, t)).0 e in
        elim h' [
          | inl q ↦ ((λ z. ne (sym q ∙ z)), t, inl (ap (λ x. (x, t)) q), w)
          | inr i ↦
              let (ne', u, i', w') = other_methods_sound re m path k ts i in (ne', u, inr i', w')
        ]
    | inr e ↦
        let (ne', u, i', w') = other_methods_sound re m path k ts (rw e at h) in
        (ne', u, inr i', w')
  ]

  other_methods_complete :
      (re : Regexp R) (m path k : Bytes) (t : Node H R) (r : Router H R)
      → k ≢ m
      → In (k, t) r
      → Knows re path (k, t)
      → In k (other_methods re m path r)
  unfolding other_methods
  other_methods_complete re m path k t [] ne i w = elim i [ ]
  other_methods_complete re m path k t ((j, u) ∷ ts) ne (inl q) w =
      let e =
        subst (λ x. is_listed re m path x ≡ true) q ((is_listed_iff re m path (k, t)).1 (ne, w)) in
      rw e (inl (ap (λ x. x.0) q))
  other_methods_complete re m path k t ((j, u) ∷ ts) ne (inr i) w =
      elim (Bool-cases (is_listed re m path (j, u))) [
        | inl e ↦ rw e (inr (other_methods_complete re m path k t ts ne i w))
        | inr e ↦ rw e (other_methods_complete re m path k t ts ne i w)
      ]

  walk_keeps :
      (re : Regexp R) (ss : List Bytes) (mi mi' : MatchInfo H R) (n : Node H R)
      → walk re ss mi n ≡ some mi'
      → mi'.method_not_allowed ≡ mi.method_not_allowed
  unfolding walk visit star_fallback
  walk_keeps re [] mi mi' n e = ground arith
  walk_keeps re (s ∷ ss) mi mi' n e = elim (Option-cases (child_of re s n)) [
    | inl q ↦ ground arith
    | inr (c, q) ↦ ground (arith, walk_keeps re ss (visit s c mi) mi' c)
  ]

  find_in_tree_keeps :
      (re : Regexp R) (t : Node H R) (path : Bytes) (mi : MatchInfo H R)
      → find_in_tree re t path ≡ some mi
      → mi.method_not_allowed ≡ false
  unfolding find_in_tree
  find_in_tree_keeps re t path mi e =
      ground (arith, walk_keeps re (split b'/' (trim b'/' path)) no_match mi t)

  find_own-none :
      (re : Regexp R) (m path : Bytes) (r : Router H R)
      → All (λ e. find_in_tree re e.1 path ≡ none) r
      → find_own re r m path ≡ none
  unfolding find_own tree_of
  find_own-none re m path [] h = refl
  find_own-none re m path ((k, t) ∷ ts) h = ground (arith, find_own-none re m path ts h.1)

  others_none :
      (re : Regexp R) (m path : Bytes) (ts : Router H R)
      → All (λ e. e.0 ≢ m) ts
      → All (λ e. e.0 ≢ m → find_in_tree re e.1 path ≡ none) ts
      → All (λ e. find_in_tree re e.1 path ≡ none) ts
  others_none re m path [] d h = tt
  others_none re m path ((k, t) ∷ ts) d h = (h.0 d.0, others_none re m path ts d.1 h.1)

  each-none :
      (re : Regexp R) (m path : Bytes) (r : Router H R)
      → HasDistinct r
      → find_own re r m path ≡ none
      → All (λ e. e.0 ≢ m → find_in_tree re e.1 path ≡ none) r
      → All (λ e. find_in_tree re e.1 path ≡ none) r
  unfolding find_own tree_of
  each-none re m path [] d e h = tt
  each-none re m path ((k, t) ∷ ts) d e h = elim (Bool-cases (same m k)) [
    | inl q ↦
        let mk = eq_of_same m k q in (ground arith, others_none re m path ts (rw (← mk) at d.0) h.1)
    | inr q ↦
        ((h.0 (λ z. ground (arith, same_refl k))), each-none re m path ts d.1 (ground arith) h.1)
  ]

  none_listed :
      (re : Regexp R) (m path : Bytes) (r : Router H R)
      → All (λ e. find_in_tree re e.1 path ≡ none) r
      → other_methods re m path r ≡ []
  unfolding other_methods
  none_listed re m path [] h = refl
  none_listed re m path ((k, t) ∷ ts) h = ground (arith, none_listed re m path ts h.1)

module _ {H R : Type 0} where
  not_allowed-none : (ms : List Bytes) → not_allowed {H = H} {R = R} ms ≡ none → ms ≡ []
  unfolding not_allowed
  not_allowed-none [] e = refl
  not_allowed-none (m ∷ ms) e = cc

  not_allowed-some :
      (ms : List Bytes) (mi : MatchInfo H R)
      → not_allowed ms ≡ some mi
      → (mi.allowed_methods ≡ ms) × (ms ≢ [])
  unfolding not_allowed
  not_allowed-some [] mi e = cc
  not_allowed-some (m ∷ ms) mi e = ground arith

  -- `findRoute` by what the request's own tree answers.
  find_route_cases :
      (re : Regexp R) (r : Router H R) (m path : Bytes)
      → ((mi : MatchInfo H R) × (find_own re r m path ≡ some mi)
          × (find_route re r m path ≡ some mi))
        ⊎ ((find_own re r m path ≡ none)
            × (find_route re r m path ≡ not_allowed (other_methods re m path r)))
  unfolding find_route
  find_route_cases re r m path = elim (Option-cases (find_own re r m path)) [
    | inl e ↦ inr (e, ground arith)
    | inr (mi, e) ↦ inl (mi, e, ground arith)
  ]

  find_own_keeps :
      (re : Regexp R) (r : Router H R) (m path : Bytes) (mi : MatchInfo H R)
      → find_own re r m path ≡ some mi
      → mi.method_not_allowed ≡ false
  unfolding find_own
  find_own_keeps re r m path mi e = elim (Option-cases (tree_of m r)) [
    | inl q ↦ ground arith
    | inr (t, q) ↦ ground (arith, find_in_tree_keeps re t path mi)
  ]

-- A request gets the answer 404 exactly when no tree of the router, of whatever method, has a match
-- for its path.
pub find_route-none_iff :
    {H R : Type 0} (re : Regexp R) (r : Router H R) (m path : Bytes)
    → HasDistinct r
    → (find_route re r m path ≡ none) ↔ All (λ e. find_in_tree re e.1 path ≡ none) r
unfolding not_allowed
find_route-none_iff re r m path d = elim (find_route_cases re r m path) [
  | inl (mi, own, e) ↦ (
    (λ h. absurd (none-ne-some (sym h ∙ e))),
    (λ a. absurd (none-ne-some (sym (find_own-none re m path r a) ∙ own))),
  )
  | inr (own, e) ↦ (
    (λ h.
        each-none re m path r d own
          (other_methods-nil re m path r (not_allowed-none _ (sym e ∙ h)))),
    (λ a. e ∙ rw (none_listed re m path r a, not_allowed)),
  )
]

-- An answer that says "method not allowed" comes only where the request's own tree has no match, and
-- it lists exactly the other methods whose trees match the path, one at least.
pub find_route-not_allowed :
    {H R : Type 0} (re : Regexp R) (r : Router H R) (m path : Bytes) (mi : MatchInfo H R)
    → find_route re r m path ≡ some mi
    → mi.method_not_allowed ≡ true
    → (find_own re r m path ≡ none)
      × (mi.allowed_methods ≢ [])
      × ((k : Bytes)
          → In k mi.allowed_methods
            ↔ ((k ≢ m) × (t : Node H R) × In (k, t) r × Knows re path (k, t)))
find_route-not_allowed re r m path mi e h = elim (find_route_cases re r m path) [
  | inl (mi', own, e') ↦
      absurd (false-ne-true (sym (find_own_keeps re r m path mi (own ∙ sym e' ∙ e)) ∙ h))
  | inr (own, e') ↦
      let (listed, some_method) = not_allowed-some _ mi (sym e' ∙ e) in
      (
        own,
        (λ z. some_method (sym listed ∙ z)),
        (λ k. rw listed (
          other_methods_sound re m path k r,
          (λ (ne, t, i, w). other_methods_complete re m path k t r ne i w),
        )),
      )
]

set_tree_keys :
    {H R : Type 0} (k m : Bytes) (t : Node H R) (r : Router H R)
    → m ≢ k
    → All (λ e. e.0 ≢ k) r
    → All (λ e. e.0 ≢ k) (set_tree m t r)
unfolding set_tree
set_tree_keys k m t [] ne d = (ne, tt)
set_tree_keys k m t ((j, u) ∷ ts) ne d = elim (Bool-cases (same m j)) [
  | inl e ↦ rw e d
  | inr e ↦ rw e (d.0, set_tree_keys k m t ts ne d.1)
]

set_tree-HasDistinct :
    {H R : Type 0} (m : Bytes) (t : Node H R) (r : Router H R)
    → HasDistinct r
    → HasDistinct (set_tree m t r)
unfolding set_tree
set_tree-HasDistinct m t [] d = (tt, tt)
set_tree-HasDistinct m t ((k, u) ∷ ts) d = elim (Bool-cases (same m k)) [
  | inl e ↦ rw e d
  | inr e ↦ rw e (
    set_tree_keys k m t ts (λ q. ground (arith, same_refl m)) d.0,
    set_tree-HasDistinct m t ts d.1,
  )
]

-- A call of `addRoute` leaves one tree for each method, as the map does.
pub add_route-HasDistinct :
    {H R : Type 0} (re : Regexp R) (r : Router H R) (m path : Bytes) (h : Option H)
    → HasDistinct r
    → HasDistinct (add_route re r m path h).0
unfolding add_route add_checked
add_route-HasDistinct re r m [] h d = d
add_route-HasDistinct re r m (b ∷ path) h d =
    ground (arith, set_tree-HasDistinct m (added_tree re (root_of m r) (b ∷ path) h).0 r d)
