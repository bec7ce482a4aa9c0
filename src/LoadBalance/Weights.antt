-- ===== src/LoadBalance/Weights.antt =====
-- micro/loadBalance: the smooth and the random weights.
use soil.Base.{
  ℕ, zero, suc, ◌+◌, ◌-◌, ◌%◌, ◌^◌, ◌<◌, ◌≡◌, refl, ap, Bool, true, none, some, List, [], ◌∷◌, ◌++◌,
  map, length, ◌==◌, if◌then◌else◌, arith,
}
use soil.LoadBalance.{
  no_sub_conn, panics, SmoothConn, WeightConn, modify, weight_loop, weight_pick, advance,
  total_weight, heaviest, pay, any_locked, smooth_round, smooth_pick, smooth_done,
}

weight_loop-never : {S : Type 0} (n : ℕ) (cs : List (WeightConn S)) → weight_loop n cs ≡ no_sub_conn
unfolding weight_loop
weight_loop-never n [] = refl
weight_loop-never n (c ∷ cs) =
    ground (arith, weight_loop-never ((n + 2 ^ 32 - c.weight) % 2 ^ 32) cs)

-- The random weights never pick a connection: with a total of 0, which is the one that `Build` leaves,
-- the range for the random number is empty and the code panics, and with any other the loop finds
-- none.
pub weight_pick-never :
    {S : Type 0} (draw : ℕ → ℕ) (total : ℕ) (cs : List (WeightConn S))
    → weight_pick draw total cs ≡ (if total == 0 then panics else no_sub_conn)
unfolding weight_pick
weight_pick-never draw total cs = rw (weight_loop-never (draw total) cs) refl

-- The sum of the current weights, as a uint32.
pub current_sum : {S : Type 0} → List (SmoothConn S) → ℕ
current_sum [] = 0
current_sum (c ∷ cs) = (c.current_weight + current_sum cs) % 2 ^ 32

heaviest_bound :
    {S : Type 0} (i best weight : ℕ) (cs : List (SmoothConn S))
    → best < i
    → heaviest i best weight cs < i + length cs
unfolding heaviest
heaviest_bound i best weight [] h = omega arith
heaviest_bound i best weight (c ∷ cs) h = ground (
  arith,
  heaviest_bound (i + 1) i c.current_weight cs (omega arith),
  heaviest_bound (i + 1) best weight cs (omega arith),
)

length-map : {A B : Type 0} (f : A → B) (xs : List A) → length (map f xs) ≡ length xs
length-map f [] = refl
length-map f (x ∷ xs) = ap suc (length-map f xs)

current_sum-advance :
    {S : Type 0} (cs : List (SmoothConn S))
    → current_sum (map advance cs) ≡ (current_sum cs + total_weight cs) % 2 ^ 32
unfolding current_sum total_weight
current_sum-advance [] = omega arith
current_sum-advance (c ∷ cs) = omega (arith, current_sum-advance cs)

current_sum-pay :
    {S : Type 0} (total i : ℕ) (cs : List (SmoothConn S))
    → i < length cs
    → total < 2 ^ 32
    → current_sum (modify (pay total) i cs) ≡ (current_sum cs + 2 ^ 32 - total) % 2 ^ 32
unfolding current_sum modify
current_sum-pay total i [] h b = absurd (omega arith)
current_sum-pay total zero (c ∷ cs) h b = omega arith
current_sum-pay total (suc i) (c ∷ cs) h b =
    omega (arith, current_sum-pay total i cs (omega arith) b)

total_weight-lt : {S : Type 0} (cs : List (SmoothConn S)) → total_weight cs < 2 ^ 32
unfolding total_weight
total_weight-lt [] = omega arith
total_weight-lt (c ∷ cs) = omega arith

current_sum-lt : {S : Type 0} (cs : List (SmoothConn S)) → current_sum cs < 2 ^ 32
unfolding current_sum
current_sum-lt [] = omega arith
current_sum-lt (c ∷ cs) = omega arith

-- A smooth pick leaves the sum of the current weights as it was, modulo 2^32.
pub current_sum-smooth_round :
    {S : Type 0} (c : SmoothConn S) (cs : List (SmoothConn S))
    → current_sum (smooth_round (c ∷ cs)).0 ≡ current_sum (c ∷ cs)
unfolding smooth_round
current_sum-smooth_round c cs =
    let best = heaviest 1 0 (advance c).current_weight (map advance cs) in
    let l = length-map advance (c ∷ cs) in
    let b = heaviest_bound 1 0 (advance c).current_weight (map advance cs) (omega arith) in
    let l' = length-map advance cs in
    let t = total_weight-lt (c ∷ cs) in
    let s = current_sum-lt (c ∷ cs) in
    let e = current_sum-advance (c ∷ cs) in
    let p =
      current_sum-pay (total_weight (c ∷ cs)) best (map advance (c ∷ cs)) (omega (arith, b, l'))
        t in
    omega (arith, e, p, t, s)

any_locked-append :
    {S : Type 0} (before : List (SmoothConn S)) (c : SmoothConn S) (behind : List (SmoothConn S))
    → c.locked ≡ true
    → any_locked (before ++ (c ∷ behind)) ≡ true
unfolding any_locked
any_locked-append [] c behind h = ground arith
any_locked-append (d ∷ before) c behind h = ground (arith, any_locked-append before c behind h)

-- After a `Done` with an error at the least effective weight, or without one at the greatest, no pick
-- among connections that include this one ever returns.
pub smooth_done-blocks :
    {S : Type 0} (failed : Bool) (c d : SmoothConn S) (before behind : List (SmoothConn S))
    → c.efficient_weight ≡ (if failed then 0 else 2 ^ 32 - 1)
    → smooth_done failed c ≡ some d
    → smooth_pick (before ++ (d ∷ behind)) ≡ none
unfolding smooth_done smooth_pick
smooth_done-blocks failed c d before behind w e =
    let held : d.locked ≡ true = ground arith in
    ground (arith, any_locked-append before d behind held)
