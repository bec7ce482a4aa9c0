-- ===== src/Net/Endpoint/Dedupe.antt =====
-- micro/net/endpoint.go: what merging leaves of a list of endpoints.
use soil.Base.{
  ◌≡◌, refl, sym, ap, ◌∙◌, ◌≢◌, Option, none, some, List, [], ◌∷◌, ◌++◌, Bytes, same, eq_of_same,
  same_refl, arith, inl, inr, All, Bool-cases, if◌then◌else◌, ℤ, ltb_ℤ,
}
use soil.Net.Endpoint.{
  Endpoint, effective, raise, absorb, dedupe_loop, dedupe_endpoints, merge_endpoints,
}

-- The larger of two weights.
abbrev pub larger : ℤ → ℤ → ℤ
larger a b = if ltb_ℤ a b then b else a

abbrev pub larger? : Option ℤ → Option ℤ → Option ℤ
larger? none b = b
larger? (some a) none = some a
larger? (some a) (some b) = some (larger a b)

-- The weight that a list gives an address, at its first place.
pub weight_of : Bytes → List Endpoint → Option ℤ
weight_of a [] = none
weight_of a (o ∷ os) = let rest = weight_of a os in if same o.addr a then some o.weight else rest

-- The largest effective weight with which an address stands in a list.
pub highest : Bytes → List Endpoint → Option ℤ
highest a [] = none
highest a (ep ∷ eps) =
    let rest = highest a eps in
    if same ep.addr a then larger? (some (effective ep.weight)) rest else rest

abbrev pub HasDistinct : List Endpoint → Type 0
HasDistinct [] = Unit {0}
HasDistinct (o ∷ os) = All (λ p. p.addr ≢ o.addr) os × HasDistinct os

larger_assoc : (a b c : ℤ) → larger (larger a b) c ≡ larger a (larger b c)
larger_assoc a b c = ground arith

larger?_assoc : (a b c : Option ℤ) → larger? (larger? a b) c ≡ larger? a (larger? b c)
larger?_assoc none b c = refl
larger?_assoc (some a) none c = refl
larger?_assoc (some a) (some b) none = refl
larger?_assoc (some a) (some b) (some c) = ap some (larger_assoc a b c)

raise_fields :
    (ep o : Endpoint)
    → ((raise ep o).addr ≡ o.addr) × ((raise ep o).weight ≡ larger o.weight (effective ep.weight))
unfolding raise
raise_fields ep o = elim (Bool-cases (ltb_ℤ o.weight (effective ep.weight))) [
  | inl e ↦ rw e (refl, refl)
  | inr e ↦ rw e (refl, refl)
]

weight_of-nil : (a : Bytes) → weight_of a [] ≡ none
unfolding weight_of
weight_of-nil a = refl

weight_of-cons :
    (a : Bytes) (o : Endpoint) (os : List Endpoint)
    → weight_of a (o ∷ os) ≡ (if same o.addr a then some o.weight else weight_of a os)
unfolding weight_of
weight_of-cons a o os = refl

weight_of-absorb :
    (a : Bytes) (ep : Endpoint) (out : List Endpoint)
    → weight_of a (absorb ep out) ≡ (
        if same ep.addr a
        then larger? (weight_of a out) (some (effective ep.weight))
        else weight_of a out)
unfolding absorb
weight_of-absorb a ep [] =
    ground
      (arith, weight_of-cons a (record ep { weight = effective ep.weight }) [], weight_of-nil a)
weight_of-absorb a ep (o ∷ os) = elim (Bool-cases (same o.addr ep.addr)) [
  | inl e ↦
      let (same_addr, raised) = raise_fields ep o in
      let q : same o.addr a ≡ same ep.addr a = ap (λ x. same x a) (eq_of_same o.addr ep.addr e) in
      rw (e, weight_of-cons a (raise ep o) os, weight_of-cons a o os, same_addr, raised)
        (ground arith)
  | inr e ↦
      let ne : o.addr ≢ ep.addr = λ q. ground (arith, same_refl ep.addr) in
      rw (e, weight_of-cons a o (absorb ep os), weight_of-cons a o os)
        (ground (arith, weight_of-absorb a ep os, eq_of_same o.addr a, eq_of_same ep.addr a))
]

larger?-none : (w : Option ℤ) → w ≡ larger? w none
larger?-none none = refl
larger?-none (some w) = refl

highest-append :
    (a : Bytes) (xs ys : List Endpoint)
    → highest a (xs ++ ys) ≡ larger? (highest a xs) (highest a ys)
unfolding highest
highest-append a [] ys = refl
highest-append a (x ∷ xs) ys = elim (Bool-cases (same x.addr a)) [
  | inl e ↦
      rw (e, highest-append a xs ys)
        (sym (larger?_assoc (some (effective x.weight)) (highest a xs) (highest a ys)))
  | inr e ↦ rw (e, highest-append a xs ys)
]

weight_of-dedupe_loop :
    (a : Bytes) (out eps : List Endpoint)
    → weight_of a (dedupe_loop out eps) ≡ larger? (weight_of a out) (highest a eps)
unfolding dedupe_loop highest
weight_of-dedupe_loop a out [] = larger?-none (weight_of a out)
weight_of-dedupe_loop a out (ep ∷ eps) = elim (Bool-cases (same ep.addr a)) [
  | inl e ↦ rw e (
      weight_of-dedupe_loop a (absorb ep out) eps
      ∙ ap (λ w. larger? w (highest a eps)) (weight_of-absorb a ep out ∙ rw e)
      ∙ larger?_assoc (weight_of a out) (some (effective ep.weight)) (highest a eps))
  | inr e ↦ rw e (
      weight_of-dedupe_loop a (absorb ep out) eps
      ∙ ap (λ w. larger? w (highest a eps)) (weight_of-absorb a ep out ∙ rw e))
]

-- Absorbing an endpoint keeps whatever holds of it and of all, if it does not depend on the weight.
absorb-All :
    (P : Bytes → Type 0) (ep : Endpoint) (out : List Endpoint)
    → P ep.addr
    → All (λ o. P o.addr) out
    → All (λ o. P o.addr) (absorb ep out)
unfolding absorb
absorb-All P ep [] p h = (p, tt)
absorb-All P ep (o ∷ os) p h = elim (Bool-cases (same o.addr ep.addr)) [
  | inl e ↦ rw e (rw (raise_fields ep o).0 h.0, h.1)
  | inr e ↦ rw e (h.0, absorb-All P ep os p h.1)
]

absorb-HasDistinct :
    (ep : Endpoint) (out : List Endpoint) → HasDistinct out → HasDistinct (absorb ep out)
unfolding absorb
absorb-HasDistinct ep [] d = (tt, tt)
absorb-HasDistinct ep (o ∷ os) d = elim (Bool-cases (same o.addr ep.addr)) [
  | inl e ↦ rw e (rw (raise_fields ep o).0 d.0, d.1)
  | inr e ↦ rw e (
    absorb-All (λ a. a ≢ o.addr) ep os (λ q. ground (arith, same_refl ep.addr)) d.0,
    absorb-HasDistinct ep os d.1,
  )
]

dedupe_loop-HasDistinct :
    (out eps : List Endpoint) → HasDistinct out → HasDistinct (dedupe_loop out eps)
unfolding dedupe_loop
dedupe_loop-HasDistinct out [] d = d
dedupe_loop-HasDistinct out (ep ∷ eps) d =
    dedupe_loop-HasDistinct (absorb ep out) eps (absorb-HasDistinct ep out d)

-- A merged list has each address of the two lists once and no other, with the largest of the weights
-- that either list gives it, a weight that is not positive counting as 1.
pub merge_endpoints-weights :
    (base extra : List Endpoint) (a : Bytes)
    → HasDistinct (merge_endpoints base extra)
      × (weight_of a (merge_endpoints base extra) ≡ larger? (highest a base) (highest a extra))
unfolding merge_endpoints dedupe_endpoints
merge_endpoints-weights base extra a = (
  dedupe_loop-HasDistinct [] (base ++ extra) tt,
  weight_of-dedupe_loop a [] (base ++ extra) ∙ rw (weight_of-nil a) (highest-append a base extra),
)
