-- ===== src/Net/Endpoint/Outages.antt =====
-- micro/net/endpoint.go: when a node counts as down.
use soil.Base.{
  ℕ, ◌+◌, ◌^◌, ◌<◌, ◌≡◌, refl, subst, true, List, [], ◌∷◌, arith, length, leb, if◌then◌else◌,
}
use soil.Net.Endpoint.{Health, healthy, mark_success, mark_failure, threshold_of, cooldown_of}

-- Failures at the given times, the earliest first.
pub mark_failures : ℕ → ℕ → List ℕ → Health → Health
mark_failures threshold cooldown [] h = h
mark_failures threshold cooldown (t ∷ ts) h =
    mark_failures threshold cooldown ts (mark_failure threshold cooldown t h)

abbrev pub last_of : ℕ → List ℕ → ℕ
last_of t [] = t
last_of t (u ∷ us) = last_of u us

-- What is known of a node after `n` failures in a row, the last of them at `t`.
record Tallies (threshold cooldown n t : ℕ) (h : Health) : Type 0 where
  fails : h.fails ≡ n
  until : h.down_until ≡ (if leb (threshold_of threshold) n then t + cooldown_of cooldown else 0)

mark_failure-Tallies :
    (threshold cooldown n s t : ℕ) (h : Health)
    → n + 1 < 2 ^ 31
    → Tallies threshold cooldown n s h
    → Tallies threshold cooldown (n + 1) t (mark_failure threshold cooldown t h)
unfolding mark_failure
mark_failure-Tallies threshold cooldown n s t h b v = record {
  fails = ground arith;
  until = ground arith;
}

mark_failures-Tallies :
    (threshold cooldown n t : ℕ) (ts : List ℕ) (h : Health)
    → n + length ts < 2 ^ 31
    → Tallies threshold cooldown n t h
    → Tallies threshold cooldown
        (n + length ts)
        (last_of t ts)
        (mark_failures threshold cooldown ts h)
unfolding mark_failures
mark_failures-Tallies threshold cooldown n t [] h b v =
    subst (λ k. Tallies threshold cooldown k t h) (omega arith) v
mark_failures-Tallies threshold cooldown n t (u ∷ us) h b v =
    subst
      (λ k.
        Tallies threshold cooldown k (last_of u us)
          (mark_failures threshold cooldown us (mark_failure threshold cooldown u h)))
      (omega arith)
      (mark_failures-Tallies threshold cooldown (n + 1) u us _ (omega arith)
        (mark_failure-Tallies threshold cooldown n t u h (omega arith) v))

healthy_of_Tallies :
    (threshold cooldown n k t now : ℕ) (h : Health)
    → n ≡ k
    → Tallies threshold cooldown n t h
    → healthy now h
      ≡ (if leb (threshold_of threshold) k then leb (t + cooldown_of cooldown) now else true)
unfolding healthy
healthy_of_Tallies threshold cooldown n k t now h e v = ground arith

-- A node that has just served a request is healthy. After that, failures in a row take it down when
-- their number reaches the threshold (2 if none is set), until the cooldown (5 seconds if none is
-- set) has passed since the last of them; fewer leave it healthy.
pub healthy-mark_failures :
    (threshold cooldown t : ℕ) (ts : List ℕ) (h : Health) (now : ℕ)
    → length (t ∷ ts) < 2 ^ 31
    → healthy now (mark_failures threshold cooldown (t ∷ ts) (mark_success h)) ≡ (
        if leb (threshold_of threshold) (length (t ∷ ts))
        then leb (last_of t ts + cooldown_of cooldown) now
        else true)
unfolding mark_success
healthy-mark_failures threshold cooldown t ts h now b =
    let fresh : Tallies threshold cooldown 0 t (mark_success h) = record {
      fails = refl;
      until = ground arith;
    } in
    let v =
      mark_failures-Tallies threshold cooldown 0 t (t ∷ ts) (mark_success h) (omega arith) fresh in
    healthy_of_Tallies threshold cooldown _ _ _ now _ (omega arith) v
