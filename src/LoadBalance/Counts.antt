-- ===== src/LoadBalance/Counts.antt =====
-- micro/loadBalance and micro/route: the least active picker counts down what it counted up, and the
-- filter leaves out what it matches.
use soil.Base.{
  Bytes, same, same_refl, ◌≢◌, ℕ, zero, suc, ◌+◌, ◌-◌, ◌%◌, ◌^◌, ◌<◌, ◌≡◌, refl, ap, subst, ◌∙◌,
  Bool, true, false, Option, none, some, List, [], ◌∷◌, length, get_elem?, All, arith, Bool-cases,
  Option-cases, inl, inr,
}
use soil.LoadBalance.{
  group_filter, picked, picked_of, turn_pick, candidates, filtered_pick, ActiveConn, modify,
  raise_cnt, lower_cnt, active_pick, active_done, least_from,
}

abbrev pub IsCount : {S : Type 0} → ActiveConn S → Type 0
IsCount c = c.cnt < 2 ^ 32

modify-lower-raise :
    {S : Type 0} (i : ℕ) (cs : List (ActiveConn S))
    → All IsCount cs
    → modify lower_cnt i (modify raise_cnt i cs) ≡ cs
unfolding modify
modify-lower-raise i [] h = refl
modify-lower-raise zero (c ∷ cs) h =
    let e : ((c.cnt + 1) % 2 ^ 32 + (2 ^ 32 - 1)) % 2 ^ 32 ≡ c.cnt = let b = h.0 in omega arith in
    ap (λ n. record c { cnt = n } ∷ cs) e
modify-lower-raise (suc i) (c ∷ cs) h = ap (λ t. c ∷ t) (modify-lower-raise i cs h.1)

-- The `Done` of a least active pick takes back what the pick did to the counts.
pub active_done-active_pick :
    {S : Type 0} (cs : List (ActiveConn S))
    → All IsCount cs
    → active_done (active_pick cs).1 (active_pick cs).0 ≡ cs
unfolding active_done active_pick
active_done-active_pick cs h = elim (Option-cases (least_from 0 none (2 ^ 32 - 1) cs)) [
  | inl e ↦ rw (active_done, active_pick, e) refl
  | inr (i, e) ↦ rw (active_done, active_pick, e) (modify-lower-raise i cs h)
]

candidates-All :
    {S : Type 0} (skips : S → Bool) (ss : List S)
    → All (λ s. skips s ≡ false) (candidates (some skips) ss)
unfolding candidates
candidates-All skips [] = tt
candidates-All skips (s ∷ ss) = elim (Bool-cases (skips s)) [
  | inl e ↦ rw e (candidates-All skips ss)
  | inr e ↦ rw e (e, candidates-All skips ss)
]

get_elem?-All :
    {S : Type 0} (P : S → Type 0) (ss : List S) (i : ℕ) (s : S)
    → All P ss
    → get_elem? ss i ≡ some s
    → P s
get_elem?-All P [] i s a e = absurd (ground arith)
get_elem?-All P (x ∷ ss) zero s a e = let q : x ≡ s = cc in subst P q a.0
get_elem?-All P (x ∷ ss) (suc i) s a e = get_elem?-All P ss i s a.1 e

picked_of_inv : {S : Type 0} (o : Option S) (s : S) → picked_of o ≡ picked s → o ≡ some s
picked_of_inv none s e = absurd (ground arith)
picked_of_inv (some x) s e = let q : x ≡ s = cc in ap some q

turn_pick-All :
    {S : Type 0} (P : S → Type 0) (next : ℕ) (ss : List S) (s : S)
    → All P ss
    → (turn_pick next ss).1 ≡ picked s
    → P s
unfolding turn_pick
turn_pick-All P next [] s a e = absurd (ground arith)
turn_pick-All P next (x ∷ ss) s a e =
    get_elem?-All P (x ∷ ss) (next % length (x ∷ ss)) s a (picked_of_inv _ s e)

-- The round robin of micro/route picks no connection at which the filter says true.
filtered_pick-skips :
    {S : Type 0} (skips : S → Bool) (next : ℕ) (ss : List S) (s : S)
    → (filtered_pick (some skips) next ss).1 ≡ picked s
    → skips s ≡ false
unfolding filtered_pick
filtered_pick-skips skips next ss s e =
    turn_pick-All (λ x. skips x ≡ false) next (candidates (some skips) ss) s
      (candidates-All skips ss) e

-- With the group filter the round robin picks no connection of the client's own group.
pub filtered_pick-group_filter :
    {S : Type 0} (client : Bytes) (tag : S → Bytes) (next : ℕ) (ss : List S) (s : S)
    → (filtered_pick (some (group_filter client tag)) next ss).1 ≡ picked s
    → tag s ≢ client
unfolding group_filter
filtered_pick-group_filter client tag next ss s e q =
    let skipped = filtered_pick-skips (group_filter client tag) next ss s e in
    let own : same (tag s) client ≡ true = ap (λ t. same t client) q ∙ same_refl client in
    absurd (ground arith)
