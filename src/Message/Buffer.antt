-- ===== src/Message/Buffer.antt =====
-- micro/rpc/message: filling a buffer of the right size, and cutting what was put into it.
use soil.Base.{
  ℕ, zero, suc, ◌+◌, ◌≤◌, ◌≡◌, refl, sym, ap, ◌∙◌, arith, some, subst, List, [], ◌∷◌, ◌++◌,
  append-nil, append_assoc, Bytes, length, take, drop, replicate, put_uint, length-append,
  length-drop, length-replicate, take-length_append, drop-length_append,
}
use soil.Message.{◌>>=◌, data_behind, put, puts, start, finish, slice, concat}

take_all : (n : ℕ) (s : Bytes) → length s ≤ n → take n s ≡ s
take_all zero [] h = refl
take_all (suc n) [] h = refl
take_all zero (b ∷ s) h = absurd (omega arith)
take_all (suc n) (b ∷ s) h = ap (λ t. b ∷ t) (take_all n s (omega arith))

drop_all : (n : ℕ) (s : Bytes) → length s ≤ n → drop n s ≡ []
drop_all zero [] h = refl
drop_all (suc n) [] h = refl
drop_all zero (b ∷ s) h = absurd (omega arith)
drop_all (suc n) (b ∷ s) h = drop_all n s (omega arith)

put-fits :
    (s w l : Bytes)
    → length s ≤ length l
    → put s (record { written = w; left = l })
      ≡ some (record { written = w ++ s; left = drop (length s) l })
unfolding put
put-fits s w l h = ground arith

puts-fits :
    (ss : List Bytes) (w l : Bytes)
    → length (concat ss) ≤ length l
    → (k : Bytes) × (puts ss (record { written = w; left = l })
        ≡ some (record { written = w ++ concat ss; left = k }))
      × (length k + length (concat ss) ≡ length l)
unfolding puts
puts-fits [] w l h =
    (l, ap (λ x. some (record { written = x; left = l })) (sym (append-nil w)), omega arith)
puts-fits (s ∷ ss) w l h =
    let n = length-append s (concat ss) in
    let d = length-drop (length s) l in
    let (k, e, m) = puts-fits ss (w ++ s) (drop (length s) l) (omega (arith, n, d)) in
    (
      k,
      rw (put-fits s w l (omega (arith, n)))
          (e ∙ ap (λ x. some (record { written = x; left = k })) (append_assoc w s (concat ss))),
      omega (arith, m, d, n),
    )

-- Pieces and a tail put into a buffer that just holds them.
pub puts-finish :
    (ss : List Bytes) (tail : Bytes) (n : ℕ)
    → n ≡ length (concat ss) + length tail
    → (puts ss (start n) >>= λ c. some (finish tail c)) ≡ some (concat ss ++ tail)
unfolding finish
puts-finish ss tail n h =
    let z : length {A = ℕ} (replicate n 0) ≡ n = length-replicate n 0 in
    let (k, e, m) = puts-fits ss [] (replicate n 0) (omega (arith, z)) in
    rw
      (
        e,
        take_all (length k) tail (omega (arith, m, z)),
        drop_all (length tail) k (omega (arith, m, z)),
      )
      (ap (λ t. some (concat ss ++ t)) (append-nil tail))

pub slice-append :
    (a b c : Bytes) (m n : ℕ)
    → m ≡ length a
    → n ≡ length a + length b
    → slice m n (a ++ (b ++ c)) ≡ some b
unfolding slice
slice-append a b c m n hm hn =
    let cut : take n (a ++ (b ++ c)) ≡ a ++ b =
      ap (λ k. take k (a ++ (b ++ c))) (hn ∙ sym (length-append a b))
      ∙ ap (take (length (a ++ b))) (sym (append_assoc a b c))
      ∙ take-length_append (a ++ b) c in
    let rest : drop m (a ++ b) ≡ b = ap (λ k. drop k (a ++ b)) hm ∙ drop-length_append a b in
    let l = length-append a (b ++ c) in let l' = length-append b c in rw (cut, rest) (ground arith)

pub data_behind-append :
    (a b : Bytes) (m : ℕ) → m ≡ length a → data_behind m (length b) (a ++ b) ≡ some b
data_behind-append a [] m h = refl
data_behind-append a (x ∷ b) m h =
    let whole : slice m (length (a ++ (x ∷ b))) (a ++ ((x ∷ b) ++ [])) ≡ some (x ∷ b) =
      slice-append a (x ∷ b) [] m (length (a ++ (x ∷ b))) h (length-append a (x ∷ b)) in
    ground (
      arith,
      subst (λ t. slice m (length (a ++ (x ∷ b))) (a ++ t) ≡ some (x ∷ b)) (append-nil (x ∷ b))
          whole,
    )

-- The fixed part of a header.
unfoldable pub fixed : ℕ → ℕ → ℕ → ℕ → ℕ → ℕ → Bytes
fixed head body id v c s =
    put_uint 4 head ++ (put_uint 4 body ++ (put_uint 4 id ++ (v ∷ c ∷ s ∷ [])))
