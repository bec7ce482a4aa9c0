-- ===== src/Net/Balancer/Weighted.antt =====
-- micro/net/balancer.go: the smooth weighted round robin keeps its books balanced.
use native.Mathlib.Nat.{mod-lt}
use soil.Base.{
  ℕ, zero, suc, ◌+◌, ◌%◌, ◌<◌, ◌≤◌, ◌≡◌, refl, sym, ap, ◌∙◌, ◌⊎◌, ◌≢◌, inl, inr, true, Option, none,
  some, List, [], ◌∷◌, Bytes, same, length, get_elem?, map, In, arith, Bool-cases, Option-cases, ℤ,
  pos, pos_part, neg_part, ◌+ℤ◌, ◌-ℤ◌, int_laws,
}
use soil.Net.Balancer.{
  Lane, WrrState, wrr_matches, new_lane, sum_weights, build_wrr_state, advance, best_from, lowest,
  best_index, charge, with_addr, choose, current_state, next_state, pick_weighted,
}

abbrev pub sum_current : List Lane → ℤ
sum_current [] = pos 0
sum_current (l ∷ ls) = l.current +ℤ sum_current ls

-- The current values add up to nothing, and the total is that of the weights.
pub record IsBalanced (st : WrrState) : Type 0 where
  pub even : sum_current st.lanes ≡ pos 0
  pub total : st.total ≡ sum_weights st.lanes

best_from_bound :
    (i best : ℕ) (value : ℤ) (ls : List Lane)
    → best ≤ i
    → (best_from i best value ls ≡ best) ⊎ (best_from i best value ls < i + length ls)
unfolding best_from
best_from_bound i best value [] h = inl refl
best_from_bound i best value (l ∷ ls) h = ground (
  arith,
  best_from_bound (i + 1) i l.current ls (omega arith),
  best_from_bound (i + 1) best value ls (omega arith),
)

best_index-lt : (ls : List Lane) → ls ≢ [] → best_index ls < length ls
unfolding best_index
best_index-lt [] h = absurd (h refl)
best_index-lt (l ∷ ls) h = ground (arith, best_from_bound 0 0 lowest (l ∷ ls) (omega arith))

sum_current-advance :
    (ls : List Lane) → sum_current (map advance ls) ≡ sum_current ls +ℤ pos (sum_weights ls)
sum_current-advance [] = omega int_laws
sum_current-advance (l ∷ ls) =
    omega (int_laws, ap pos_part (sum_current-advance ls), ap neg_part (sum_current-advance ls))

sum_current-charge :
    (total i : ℕ) (ls : List Lane)
    → i < length ls
    → sum_current (charge total i ls) ≡ sum_current ls -ℤ pos total
unfolding charge
sum_current-charge total i [] h = absurd (omega arith)
sum_current-charge total zero (l ∷ ls) h = omega int_laws
sum_current-charge total (suc i) (l ∷ ls) h = omega (
  int_laws,
  ap pos_part (sum_current-charge total i ls (omega arith)),
  ap neg_part (sum_current-charge total i ls (omega arith)),
)

sum_weights-charge :
    (total i : ℕ) (ls : List Lane) → sum_weights (charge total i ls) ≡ sum_weights ls
unfolding charge
sum_weights-charge total i [] = refl
sum_weights-charge total zero (l ∷ ls) = refl
sum_weights-charge total (suc i) (l ∷ ls) = omega (arith, sum_weights-charge total i ls)

sum_weights-advance : (ls : List Lane) → sum_weights (map advance ls) ≡ sum_weights ls
sum_weights-advance [] = refl
sum_weights-advance (l ∷ ls) = omega (arith, sum_weights-advance ls)

advance-ne-nil : (ls : List Lane) → ls ≢ [] → map advance ls ≢ []
advance-ne-nil [] h e = h refl
advance-ne-nil (l ∷ ls) h e = cc

length-map-advance : (ls : List Lane) → length (map advance ls) ≡ length ls
length-map-advance [] = refl
length-map-advance (l ∷ ls) = ap suc (length-map-advance ls)

get_elem?-ne-none : {A : Type 0} (i : ℕ) (xs : List A) → i < length xs → get_elem? xs i ≢ none
get_elem?-ne-none i [] h e = absurd (omega arith)
get_elem?-ne-none zero (x ∷ xs) h e = cc
get_elem?-ne-none (suc i) (x ∷ xs) h e = get_elem?-ne-none i xs (omega arith) e

next_state-IsBalanced : (st : WrrState) → st.lanes ≢ [] → IsBalanced st → IsBalanced (next_state st)
next_state-IsBalanced st h v =
    let ls = map advance st.lanes in
    let charged =
      sum_current-charge st.total (best_index ls) ls
        (best_index-lt ls (advance-ne-nil st.lanes h)) in
    let advanced = sum_current-advance st.lanes in
    let even = v.even in
    record {
      even = omega (
        int_laws,
        v.total,
        ap pos_part charged,
        ap neg_part charged,
        ap pos_part advanced,
        ap neg_part advanced,
        ap pos_part even,
        ap neg_part even,
      );
      total =
          v.total
          ∙ sym (sum_weights-charge st.total (best_index ls) ls ∙ sum_weights-advance st.lanes);
    }

module _ {A : Type 0} (addr : A → Bytes) (weight : A → ℕ) where
  build-IsBalanced : (cs : List A) → IsBalanced (build_wrr_state addr weight cs)
  unfolding build_wrr_state
  build-IsBalanced cs = record { even = evens cs; total = refl }
    where
      evens : (xs : List A) → sum_current (map (new_lane addr weight) xs) ≡ pos 0
      evens [] = refl
      evens (x ∷ xs) = omega (int_laws, ap pos_part (evens xs), ap neg_part (evens xs))

  -- The state that is kept, if there is one.
  abbrev pub Keeps : Option WrrState → Type 0
  Keeps none = Unit {0}
  Keeps (some st) = IsBalanced st

  matches-ne-nil :
      (ls : List Lane) (c : A) (cs : List A) → wrr_matches addr weight ls (c ∷ cs) ≡ true → ls ≢ []
  unfolding wrr_matches
  matches-ne-nil [] c cs h e = cc
  matches-ne-nil (l ∷ ls) c cs h e = cc

  current_state-IsBalanced :
      (st : Option WrrState) (c : A) (cs : List A)
      → Keeps st
      → IsBalanced (current_state addr weight st (c ∷ cs))
        × ((current_state addr weight st (c ∷ cs)).lanes ≢ [])
  unfolding current_state build_wrr_state
  current_state-IsBalanced none c cs k = (build-IsBalanced (c ∷ cs), λ e. cc)
  current_state-IsBalanced (some st) c cs k =
      elim (Bool-cases (wrr_matches addr weight st.lanes (c ∷ cs))) [
        | inl e ↦ rw e (k, matches-ne-nil st.lanes c cs e)
        | inr e ↦ rw e (build-IsBalanced (c ∷ cs), λ q. cc)
      ]

  abbrev pub Chooses : List A → Option A → Type 0
  Chooses cs r = (c : A) × (r ≡ some c) × In c cs

  get_elem?-Chooses : (i : ℕ) (cs : List A) → i < length cs → Chooses cs (get_elem? cs i)
  get_elem?-Chooses i [] h = absurd (omega arith)
  get_elem?-Chooses zero (c ∷ cs) h = (c, refl, inl refl)
  get_elem?-Chooses (suc i) (c ∷ cs) h =
      let (d, e, m) = get_elem?-Chooses i cs (omega arith) in (d, e, inr m)

  with_addr-In :
      (want : Bytes) (cs : List A) (c : A) → with_addr addr weight want cs ≡ some c → In c cs
  unfolding with_addr
  with_addr-In want [] c e = cc
  with_addr-In want (d ∷ cs) c e = elim (Bool-cases (same (addr d) want)) [
    | inl q ↦ inl (ground arith)
    | inr q ↦ inr (with_addr-In want cs c (ground arith))
  ]

  choose-Chooses :
      (ls : List Lane) (i : ℕ) (c : A) (cs : List A)
      → i < length ls
      → Chooses (c ∷ cs) (choose addr weight ls i (c ∷ cs))
  unfolding choose
  choose-Chooses ls i c cs h = elim (Option-cases (get_elem? ls i)) [
    | inl e ↦ absurd (get_elem?-ne-none i ls h e)
    | inr (l, e) ↦ elim (Option-cases (with_addr addr weight l.addr (c ∷ cs))) [
      | inl q ↦
          rw (e, q, choose)
            (get_elem?-Chooses (i % length (c ∷ cs)) (c ∷ cs) (mod-lt i (omega arith)))
      | inr (d, q) ↦ rw (e, q, choose) (d, refl, with_addr-In l.addr (c ∷ cs) d q)
    ]
  ]

-- From no state or a balanced one, a pick from any candidates leaves a balanced state, whose current
-- values add up to 0 and whose total is that of the weights, and it is one of the candidates.
pub pick_weighted-Keeps :
    {A : Type 0} (addr : A → Bytes) (weight : A → ℕ) (st : Option WrrState) (c : A) (cs : List A)
    → Keeps addr weight st
    → Keeps addr weight (pick_weighted addr weight st (c ∷ cs)).0
      × Chooses addr weight (c ∷ cs) (pick_weighted addr weight st (c ∷ cs)).1
unfolding pick_weighted
pick_weighted-Keeps addr weight st c [] k = (k, (c, refl, inl refl))
pick_weighted-Keeps addr weight st c (d ∷ cs) k =
    let now = current_state addr weight st (c ∷ d ∷ cs) in
    let (v, some_lane) = current_state-IsBalanced addr weight st c (d ∷ cs) k in
    let within = best_index-lt (map advance now.lanes) (advance-ne-nil now.lanes some_lane) in
    (
      next_state-IsBalanced now some_lane v,
      choose-Chooses addr weight now.lanes (best_index (map advance now.lanes)) c (d ∷ cs)
          (omega (arith, within, length-map-advance now.lanes)),
    )
