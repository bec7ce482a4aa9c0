-- ===== src/Rpc/Stream/Whole.antt =====
-- micro/rpc/common.go: what becomes of a message that arrives in one piece, or is cut.
use soil.Base.{
  ℕ, zero, suc, ◌+◌, ◌-◌, ◌^◌, ◌%◌, ◌<◌, ◌≤◌, ◌≡◌, refl, sym, ap, ◌∙◌, arith, false, some, [], ◌∷◌,
  ◌++◌, append-nil, append_assoc, Bytes, length, take, drop, ltb, get_uint, replicate, length-take,
  length-drop, take-append-drop,
}
use soil.Message.{uint32_at}
use soil.Rpc.Stream.{
  Conn, read, filled, received, declared, receive_rest, receive_behind, receive_lengths, receive,
}

take_within : (k m n : ℕ) (s : Bytes) → k + m ≤ n → take m (drop k (take n s)) ≡ take m (drop k s)
take_within zero zero n s h = refl
take_within zero (suc m) zero s h = absurd (omega arith)
take_within zero (suc m) (suc n) [] h = refl
take_within zero (suc m) (suc n) (b ∷ s) h = ap (λ t. b ∷ t) (take_within zero m n s (omega arith))
take_within (suc k) m zero s h = absurd (omega arith)
take_within (suc k) m (suc n) [] h = refl
take_within (suc k) m (suc n) (b ∷ s) h = take_within k m n s (omega arith)

declared-take : (s : Bytes) → declared (take 8 s) ≡ declared s
declared-take s =
    ap (λ t. (get_uint t + uint32_at 4 (take 8 s)) % 2 ^ 32) (take_within 0 4 8 s (omega arith))
    ∙ ap (λ t. (uint32_at 0 s + get_uint t) % 2 ^ 32) (take_within 4 4 8 s (omega arith))

filled_full : (n : ℕ) (s : Bytes) → n ≤ length s → filled n s ≡ s
filled_full n s h = let e : n - length s ≡ 0 = omega arith in rw e (append-nil s)

read-part :
    (n : ℕ) (s : Bytes) (c : Conn) → n < length s → read n (s ∷ c) ≡ some (take n s, drop n s ∷ c)
unfolding read
read-part n s c h = ground arith

read-rest : (n : ℕ) (s : Bytes) (c : Conn) → length s ≤ n → read n (s ∷ c) ≡ some (s, c)
unfolding read
read-rest n s c h = ground arith

-- Of a message of which only the beginning has arrived, the lengths and a byte more at least, what is
-- missing is taken to be zero bytes, and is left to be read as a message of its own.
pub receive-cut :
    (s : Bytes) (c : Conn)
    → 8 < length s
    → length s ≤ declared s
    → receive (s ∷ c) ≡ received (s ++ replicate (declared s - length s) 0) c
unfolding receive receive_lengths receive_behind receive_rest
receive-cut s c h l =
    let n : length (take 8 s) ≡ 8 = length-take 8 s ∙ omega arith in
    let whole = filled_full 8 (take 8 s) (omega arith) in
    let big : ltb (declared s) 8 ≡ false = ground arith in
    let k = length-drop 8 s in
    let e : declared s - 8 - length (drop 8 s) ≡ declared s - length s = omega arith in
    rw
      (
        read-part 8 s c h,
        whole,
        declared-take s,
        big,
        read-rest (declared s - 8) (drop 8 s) c (omega arith),
        declared-take s,
        e,
        sym (append_assoc (take 8 s) (drop 8 s) (replicate (declared s - length s) 0)),
        take-append-drop 8 s,
      )
      refl

-- A message with its lengths.
abbrev pub IsWhole : Bytes → Type 0
IsWhole s = (8 < length s) × (declared s ≡ length s)

pub receive-whole : (s : Bytes) (c : Conn) → IsWhole s → receive (s ∷ c) ≡ received s c
receive-whole s c (h, e) =
    let z : declared s - length s ≡ 0 = omega arith in
    receive-cut s c h (omega arith)
    ∙ ap (λ k. received (s ++ replicate k 0) c) z
    ∙ ap (λ t. received t c) (append-nil s)
