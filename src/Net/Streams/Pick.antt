-- ===== src/Net/Streams/Pick.antt =====
-- micro/net/pool.go, `pickLocked` and `maintain`: which streams are used and which are closed.
use soil.Base.{
  ℕ, ◌≤◌, ◌≡◌, refl, sym, subst, arith, Bool, true, false, ◌&&◌, ◌||◌, ◌==◌, Option, none, some,
  List, [], ◌∷◌, ◌++◌, append_assoc, append-nil, All, All-append, ltb, by_cases, if◌then◌else◌,
}
use soil.Net.Streams.{Sight, better, pick_from, stream_of, pick_locked}

pub contains : ℕ → List ℕ → Bool
contains s [] = false
contains s (t ∷ ts) = (s == t) || contains s ts

contains-last : (s : ℕ) (ts : List ℕ) → contains s (ts ++ (s ∷ [])) ≡ true
unfolding contains
contains-last s [] = ground arith
contains-last s (t ∷ ts) = ground (arith, contains-last s ts)

contains-append : (s : ℕ) (ts us : List ℕ) → contains s ts ≡ true → contains s (ts ++ us) ≡ true
unfolding contains
contains-append s [] us h = absurd (ground arith)
contains-append s (t ∷ ts) us h = ground (arith, contains-append s ts us)

-- Of the best stream so far, with its load, among those that the loop has seen: it is alive, it is one
-- of them, and no stream of them that is alive has less to do. Without one, none of them is alive.
IsLeast : Sight → List ℕ → Option (ℕ × ℕ) → Type 0
IsLeast v seen none = All (λ s. (v s).alive ≡ false) seen
IsLeast v seen (some (best, load)) =
    (load ≡ (v best).inflight)
    × (((v best).alive && contains best seen) ≡ true)
    × All (λ s. (v s).alive ≡ true → load ≤ (v s).inflight) seen

-- The stream that stands behind those seen is looked at.
look : Sight → Option (ℕ × ℕ) → ℕ → Option (ℕ × ℕ)
look v best s = if (v s).alive then better best s (v s).inflight else best

loads_above :
    (v : Sight) (load : ℕ) (seen : List ℕ)
    → All (λ s. (v s).alive ≡ false) seen
    → All (λ s. (v s).alive ≡ true → load ≤ (v s).inflight) seen
loads_above v load [] a = tt
loads_above v load (s ∷ ss) a = ((λ e. absurd (ground arith)), loads_above v load ss a.1)

loads_lower :
    (v : Sight) (load less : ℕ) (seen : List ℕ)
    → less ≤ load
    → All (λ s. (v s).alive ≡ true → load ≤ (v s).inflight) seen
    → All (λ s. (v s).alive ≡ true → less ≤ (v s).inflight) seen
loads_lower v load less [] h a = tt
loads_lower v load less (s ∷ ss) h a =
    ((λ e. omega (arith, h, a.0 e)), loads_lower v load less ss h a.1)

both_true : (a b : Bool) → a ≡ true → b ≡ true → (a && b) ≡ true
both_true a b h k = ground arith

better-IsLeast :
    (v : Sight) (seen : List ℕ) (best : Option (ℕ × ℕ)) (s : ℕ)
    → (v s).alive ≡ true
    → IsLeast v seen best
    → IsLeast v (seen ++ (s ∷ [])) (better best s (v s).inflight)
unfolding IsLeast better
better-IsLeast v seen none s e h = (
  refl,
  both_true _ _ e (contains-last s seen),
  All-append _ seen (s ∷ []) (loads_above v (v s).inflight seen h) ((λ e'. omega arith), tt),
)
better-IsLeast v seen (some (best, load)) s e (same_load, is_alive, above) =
    by_cases (IsLeast v (seen ++ (s ∷ []))) (ltb (v s).inflight load) _ _
      (λ less. (
        refl,
        both_true _ _ e (contains-last s seen),
        All-append _ seen (s ∷ []) (loads_lower v load (v s).inflight seen (ground arith) above)
            ((λ e'. omega arith), tt),
      ))
      (λ more. (
        same_load,
        still best seen s is_alive,
        All-append _ seen (s ∷ []) above ((λ e'. ground arith), tt),
      ))
  where
    still :
        (b : ℕ) (seen : List ℕ) (s : ℕ)
        → ((v b).alive && contains b seen) ≡ true
        → ((v b).alive && contains b (seen ++ (s ∷ []))) ≡ true
    still b seen s h = ground (arith, contains-append b seen (s ∷ []))

dead-IsLeast :
    (v : Sight) (seen : List ℕ) (best : Option (ℕ × ℕ)) (s : ℕ)
    → (v s).alive ≡ false
    → IsLeast v seen best
    → IsLeast v (seen ++ (s ∷ [])) best
unfolding IsLeast
dead-IsLeast v seen none s e h = All-append _ seen (s ∷ []) h (e, tt)
dead-IsLeast v seen (some (best, load)) s e (same_load, is_alive, above) = (
  same_load,
  ground (arith, contains-append best seen (s ∷ [])),
  All-append _ seen (s ∷ []) above ((λ e'. absurd (ground arith)), tt),
)

look-IsLeast :
    (v : Sight) (seen : List ℕ) (best : Option (ℕ × ℕ)) (s : ℕ)
    → IsLeast v seen best
    → IsLeast v (seen ++ (s ∷ [])) (look v best s)
unfolding look
look-IsLeast v seen best s h =
    by_cases (IsLeast v (seen ++ (s ∷ []))) (v s).alive _ _ (λ e. better-IsLeast v seen best s e h)
      (λ e. dead-IsLeast v seen best s e h)

pick_from-IsLeast :
    (v : Sight) (seen : List ℕ) (best : Option (ℕ × ℕ)) (ss : List ℕ)
    → IsLeast v seen best
    → IsLeast v (seen ++ ss) (pick_from v best ss)
unfolding pick_from look
pick_from-IsLeast v seen best [] h = subst (λ xs. IsLeast v xs best) (sym (append-nil seen)) h
pick_from-IsLeast v seen best (s ∷ ss) h =
    subst (λ xs. IsLeast v xs (pick_from v (look v best s) ss)) (append_assoc seen (s ∷ []) ss)
      (pick_from-IsLeast v (seen ++ (s ∷ [])) (look v best s) ss (look-IsLeast v seen best s h))

-- Of what is picked: a stream of the pool that is alive and has as little to do as any other one that
-- is, or none, if none is alive.
pub IsPick : Sight → List ℕ → Option ℕ → Type 0
IsPick v ss none = All (λ s. (v s).alive ≡ false) ss
IsPick v ss (some s) =
    (((v s).alive && contains s ss) ≡ true)
    × All (λ t. (v t).alive ≡ true → (v s).inflight ≤ (v t).inflight) ss

stream_of-IsPick :
    (v : Sight) (ss : List ℕ) (best : Option (ℕ × ℕ))
    → IsLeast v ss best
    → IsPick v ss (stream_of best)
unfolding IsLeast IsPick stream_of
stream_of-IsPick v ss none h = h
stream_of-IsPick v ss (some (s, load)) (same_load, is_alive, above) =
    (is_alive, loads_lower v load (v s).inflight ss (omega (arith, same_load)) above)

-- `pickLocked` picks a stream of the pool that is alive and has no more calls in flight than any other
-- one that is alive; it picks none only if no stream is alive.
pub pick_locked-IsPick : (v : Sight) (ss : List ℕ) → IsPick v ss (pick_locked v ss)
unfolding pick_locked IsLeast
pick_locked-IsPick v ss = stream_of-IsPick v ss _ (pick_from-IsLeast v [] none ss tt)
