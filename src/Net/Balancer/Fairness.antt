-- ===== src/Net/Balancer/Fairness.antt =====
-- micro/net/balancer.go: round robin serves every candidate, least active picks a smallest load.
use soil.Base.{
  ℕ, zero, suc, ◌+◌, ◌-◌, ◌%◌, ◌^◌, ◌<◌, ◌≤◌, ◌≡◌, refl, sym, ap, subst, ◌⊎◌, inl, inr, Option,
  some, List, [], ◌∷◌, length, get_elem?, All, In, arith, ltb, leb, ◌==◌, Bool-cases,
}
use soil.Net.Balancer.{pick_round_robin, least_loop, pick_least_active}

module _ {A : Type 0} (load : A → ℕ) (draw : ℕ → ℕ → ℕ) where
  -- A candidate whose load is the least of all.
  abbrev IsLeast : A → A → List A → Type 0
  IsLeast r best cs = (load r ≤ load best) × All (λ d. load r ≤ load d) cs × ((r ≡ best) ⊎ In r cs)

  IsLeast-take :
      (r best c : A) (cs : List A) → load c ≤ load best → IsLeast r c cs → IsLeast r best (c ∷ cs)
  IsLeast-take r best c cs h (l, a, inl e) = (omega arith, (l, a), inr (inl e))
  IsLeast-take r best c cs h (l, a, inr i) = (omega arith, (l, a), inr (inr i))

  IsLeast-keep :
      (r best c : A) (cs : List A)
      → load best ≤ load c
      → IsLeast r best cs
      → IsLeast r best (c ∷ cs)
  IsLeast-keep r best c cs h (l, a, inl e) = (l, (omega arith, a), inl e)
  IsLeast-keep r best c cs h (l, a, inr i) = (l, (omega arith, a), inr (inr i))

  moved : {r r' : A} (best : A) (cs : List A) → r ≡ r' → IsLeast r' best cs → IsLeast r best cs
  moved best cs e h = subst (λ x. IsLeast x best cs) (sym e) h

  least_loop-IsLeast :
      (i ties : ℕ) (best : A) (cs : List A) → IsLeast (least_loop load draw i best ties cs) best cs
  unfolding least_loop
  least_loop-IsLeast i ties best [] = (omega arith, tt, inl refl)
  least_loop-IsLeast i ties best (c ∷ cs) = elim (Bool-cases (ltb (load c) (load best))) [
    | inl e ↦
        moved best (c ∷ cs) (rw e)
          (IsLeast-take _ best c cs (ground arith) (least_loop-IsLeast i 1 c cs))
    | inr e ↦ elim (Bool-cases (load c == load best)) [
      | inr ne ↦
          moved best (c ∷ cs) (rw (e, ne))
            (IsLeast-keep _ best c cs (ground arith) (least_loop-IsLeast i ties best cs))
      | inl eq ↦ elim (Bool-cases (draw i (ties + 1) == 0)) [
        | inl z ↦
            moved best (c ∷ cs) (rw (e, eq, z))
              (IsLeast-take _ best c cs (ground arith) (least_loop-IsLeast (i + 1) (ties + 1) c cs))
        | inr nz ↦ moved best (c ∷ cs) (rw (e, eq, nz)) (
            IsLeast-keep _ best c cs (ground arith) (least_loop-IsLeast (i + 1) (ties + 1) best cs))
      ]
    ]
  ]

-- Whatever numbers are drawn, the least-active balancer picks a candidate, and none has fewer
-- requests under way.
pub pick_least_active-least :
    {A : Type 0} (load : A → ℕ) (draw : ℕ → ℕ → ℕ) (c : A) (cs : List A)
    → (b : A) × (pick_least_active load draw (c ∷ cs) ≡ some b)
      × In b (c ∷ cs)
      × All (λ d. load b ≤ load d) (c ∷ cs)
unfolding pick_least_active
pick_least_active-least load draw c cs =
    let (l, a, i) = least_loop-IsLeast load draw 0 1 c cs in (_, refl, i, (l, a))

-- What `k` calls of the round robin in a row pick.
abbrev pub picks : {A : Type 0} → ℕ → ℕ → List A → List (Option A)
picks zero n cs = []
picks (suc k) n cs = (pick_round_robin n cs).1 ∷ picks k (pick_round_robin n cs).0 cs

round : (n i k : ℕ) → i < k → (j : ℕ) × (j < k) × ((n + j) % k ≡ i)
round n i k h = elim (Bool-cases (leb (n % k) i)) [
  | inl e ↦ (i - n % k, ground arith, grind arith)
  | inr e ↦ (i + k - n % k, ground arith, grind arith)
]

picks_later :
    {A : Type 0} (k j n : ℕ) (c d : A) (cs : List A)
    → j < k
    → n + k < 2 ^ 64
    → In (get_elem? (c ∷ d ∷ cs) ((n + j) % length (c ∷ d ∷ cs))) (picks k n (c ∷ d ∷ cs))
unfolding pick_round_robin
picks_later zero j n c d cs h b = absurd (omega arith)
picks_later (suc k) zero n c d cs h b =
    let e : n + zero ≡ n = omega arith in
    inl (ap (λ x. get_elem? (c ∷ d ∷ cs) (x % length (c ∷ d ∷ cs))) e)
picks_later (suc k) (suc j) n c d cs h b =
    let e : (n + 1) % 2 ^ 64 ≡ n + 1 = omega arith in
    let shift : n + 1 + j ≡ n + suc j = omega arith in
    inr (
      rw e (
        subst
          (λ x.
            In (get_elem? (c ∷ d ∷ cs) (x % length (c ∷ d ∷ cs))) (picks k (n + 1) (c ∷ d ∷ cs)))
          shift (picks_later k j (n + 1) c d cs (omega arith) (omega arith))))

-- In as many calls as there are candidates, two at least, the round robin picks each of them, from
-- whatever count it starts, as long as the 64-bit counter does not wrap.
pub picks-In :
    {A : Type 0} (n i : ℕ) (c d : A) (cs : List A)
    → i < length (c ∷ d ∷ cs)
    → n + length (c ∷ d ∷ cs) < 2 ^ 64
    → In (get_elem? (c ∷ d ∷ cs) i) (picks (length (c ∷ d ∷ cs)) n (c ∷ d ∷ cs))
picks-In n i c d cs h b =
    let (j, below, e) = round n i (length (c ∷ d ∷ cs)) h in
    subst (λ x. In (get_elem? (c ∷ d ∷ cs) x) (picks (length (c ∷ d ∷ cs)) n (c ∷ d ∷ cs))) e
      (picks_later (length (c ∷ d ∷ cs)) j n c d cs below b)
