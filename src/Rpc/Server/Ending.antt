-- ===== src/Rpc/Server/Ending.antt =====
-- micro/rpc/server.go with common.go: `handleConn` ends with what the connection brings.
use soil.Base.{
  ℕ, zero, suc, min, ◌+◌, ◌-◌, ◌<◌, ◌≤◌, ◌≡◌, ◌≢◌, refl, arith, Bool, true, false, Option, none,
  some, List, [], ◌∷◌, Bytes, length, ◌⊎◌, subst, length-drop, by_cases, inl, inr, leb, ltb, ◌==◌,
}
use soil.Rpc.Stream.{
  Conn, read, Received, received, failed, panicked, declared, receive_rest, receive_behind,
  receive_lengths, receive, filled,
}
use soil.Rpc.Server.{
  Server, Handled, answered, started, ignored, down, Closed, out_of_fuel, handle, after_request,
  handle_conn,
}

-- The bytes still to come, and one more for each piece.
abbrev pub size : Conn → ℕ
size [] = 0
size (s ∷ c) = length s + 1 + size c

-- What Read leaves is no more, and less where something was asked for.
abbrev Leaves : ℕ → ℕ → Option (Bytes × Conn) → Type 0
Leaves n k none = Unit
Leaves n k (some (s, c)) = size c + min n 1 ≤ k

read-Leaves : (n : ℕ) (c : Conn) → Leaves n (size c) (read n c)
unfolding read
read-Leaves zero [] = omega arith
read-Leaves (suc n) [] = by_cases (Leaves (suc n) 0) (suc n == 0) _ _ (λ e. ground arith) (λ _. tt)
read-Leaves n (s ∷ c) =
    by_cases (Leaves n (size (s ∷ c))) (leb (length s) n) _ _ (λ e. ground arith)
      (λ e. let d = length-drop n s in ground arith)

abbrev Shrinks : ℕ → Received → Type 0
Shrinks k (received b c) = size c < k
Shrinks k failed = Unit
Shrinks k panicked = Unit

receive_rest-Shrinks :
    (lengths : Bytes) (n j k : ℕ) (o : Option (Bytes × Conn))
    → Leaves n j o
    → j < k
    → Shrinks k (receive_rest lengths o)
unfolding receive_rest
receive_rest-Shrinks lengths n j k none h l = tt
receive_rest-Shrinks lengths n j k (some (s, c)) h l = omega arith

receive_lengths-Shrinks :
    (k : ℕ) (o : Option (Bytes × Conn)) → Leaves 8 k o → Shrinks k (receive_lengths o)
unfolding receive_lengths receive_behind
receive_lengths-Shrinks k none h = tt
receive_lengths-Shrinks k (some (s, c)) h =
    let n = declared (filled 8 s) - 8 in
    by_cases (Shrinks k) (ltb (declared (filled 8 s)) 8) _ _ (λ _. tt)
      (λ _.
        receive_rest-Shrinks (filled 8 s) n (size c) k (read n c) (read-Leaves n c) (omega arith))

receive-Shrinks : (c : Conn) → Shrinks (size c) (receive c)
unfolding receive
receive-Shrinks c = receive_lengths-Shrinks (size c) (read 8 c) (read-Leaves 8 c)

after_request-ends :
    (again : Unit {0} → List Handled × Closed) (write : Bool) (h : Handled)
    → (again tt).1 ≢ out_of_fuel
    → (after_request again write h).1 ≢ out_of_fuel
unfolding after_request
after_request-ends again true (answered b) e = e
after_request-ends again false (answered b) e = λ q. cc
after_request-ends again write (started i) e = e
after_request-ends again write ignored e = e
after_request-ends again write down e = λ q. cc

received-cases :
    (o : Received)
    → (o ≡ failed) ⊎ ((o ≡ panicked) ⊎ ((b : Bytes) × (c : Conn) × (o ≡ received b c)))
received-cases failed = inl refl
received-cases panicked = inr (inl refl)
received-cases (received b c) = inr (inr (b, c, refl))

module _ {D T V : Type 0} (parse : Bytes → Option D) (s : Server D T V) (write : ℕ → Bool) where
  -- The loop ends, whatever is read: it goes on at most as often as the connection has bytes and
  -- pieces.
  pub handle_conn-ends :
      (fuel n : ℕ) (c : Conn) → size c < fuel → (handle_conn parse s write fuel n c).1 ≢ out_of_fuel
  unfolding handle_conn
  handle_conn-ends zero n c h = absurd (omega arith)
  handle_conn-ends (suc fuel) n c h = elim (received-cases (receive c)) [
    | inl e ↦ rw (handle_conn, e) (λ q. cc)
    | inr (inl e) ↦ rw (handle_conn, e) (λ q. cc)
    | inr (inr (b, c', e)) ↦
        let less : size c' < size c = subst (Shrinks (size c)) e (receive-Shrinks c) in
        rw (handle_conn, e)
          (after_request-ends (λ _. handle_conn parse s write fuel (n + 1) c') (write n)
            (handle parse s b) (handle_conn-ends fuel (n + 1) c' (omega arith)))
  ]
