-- ===== src/Orm/Marks/Steps.antt =====
-- orm/builder.go: the steps of a builder keep placeholders and arguments in step.
use soil.Base.{
  ℕ, ◌+◌, ◌≡◌, ◌≢◌, refl, arith, Option, none, some, List, [], ◌∷◌, Bytes, length, length-append,
  All,
}
use soil.Orm.Builder.{
  Error, Builder, M, Result, ok, err, and_then, ◌>>◌, skip, fail, write, add_args, case_of, doubled,
  quote, separated, empty,
}
use soil.Orm.Marks.{marks, marks-append, IsPlain, IsBalanced}

IsPlain-doubled : (q : ℕ) (s : Bytes) → q ≢ b'?' → IsPlain s → IsPlain (doubled q s)
unfolding doubled marks
IsPlain-doubled q [] n h = refl
IsPlain-doubled q (c ∷ s) n h = ground (arith, IsPlain-doubled q s n)

IsPlain-byte : (q : ℕ) → q ≢ b'?' → IsPlain (q ∷ [])
unfolding marks
IsPlain-byte q n = ground arith

pub All-always : {A : Type 0} {P : A → Type 0} → ((x : A) → P x) → (xs : List A) → All P xs
All-always f [] = tt
All-always f (x ∷ xs) = (f x, All-always f xs)

module _ {V : Type 0} where
  pub skip-IsBalanced : IsBalanced {V = V} skip
  unfolding skip
  skip-IsBalanced = record { balance = λ b b' e. ground arith }

  pub fail-IsBalanced : (e : Error) → IsBalanced {V = V} (fail e)
  unfolding fail
  fail-IsBalanced x = record { balance = λ b b' e. absurd (ground arith) }

  pub write-IsBalanced : (s : Bytes) → IsPlain s → IsBalanced {V = V} (write s)
  unfolding write
  write-IsBalanced s h = record { balance = λ b b' e. ground (arith, marks-append b.sql s) }

  and_then_inv :
      (r : Result (Builder V)) (k : M V) (b' : Builder V)
      → and_then r k ≡ ok b'
      → (b : Builder V) × (r ≡ ok b) × (k b ≡ ok b')
  unfolding and_then
  and_then_inv (ok b) k b' e = (b, refl, e)
  and_then_inv (err x) k b' e = absurd (ground arith)

  -- What a successful sequence has done.
  pub seq_inv :
      (m k : M V) (b b' : Builder V)
      → (m >> k) b ≡ ok b'
      → (c : Builder V) × (m b ≡ ok c) × (k c ≡ ok b')
  unfolding ◌>>◌
  seq_inv m k b b' e = and_then_inv (m b) k b' e

  pub seq-IsBalanced : {m k : M V} → IsBalanced m → IsBalanced k → IsBalanced (m >> k)
  seq-IsBalanced {m} {k} v w = record {
    balance = λ b b' e.
        let (c, em, ek) = seq_inv m k b b' e in omega (arith, v.balance b c em, w.balance c b' ek);
  }

  -- Placeholders, and then an argument for each.
  pub mark-IsBalanced :
      (s : Bytes) (vs : List V) → marks s ≡ length vs → IsBalanced (write s >> add_args vs)
  unfolding write add_args ◌>>◌
  mark-IsBalanced s vs h = record {
    balance = λ b b' e. ground (arith, marks-append b.sql s, length-append b.args vs);
  }

  pub case_of-IsBalanced :
      {A : Type 0} {o : Option A} {m : M V} {k : A → M V}
      → (o ≡ none → IsBalanced m)
      → ((a : A) → o ≡ some a → IsBalanced (k a))
      → IsBalanced (case_of o m k)
  unfolding case_of
  case_of-IsBalanced {o = none} v w = v refl
  case_of-IsBalanced {o = some a} v w = w a refl

  marks-write :
      (s : Bytes) (b c : Builder V)
      → write s b ≡ ok c
      → (marks c.sql ≡ marks b.sql + marks s) × (length c.args ≡ length b.args)
  unfolding write
  marks-write s b c e = ground (arith, marks-append b.sql s)

  marks-add_args :
      (vs : List V) (b c : Builder V)
      → add_args vs b ≡ ok c
      → (marks c.sql ≡ marks b.sql) × (length c.args ≡ length b.args + length vs)
  unfolding add_args
  marks-add_args vs b c e = ground (arith, length-append b.args vs)

  -- The same with the rest of the steps behind.
  pub mark-then-IsBalanced :
      (s : Bytes) (vs : List V) (k : M V)
      → marks s ≡ length vs
      → IsBalanced k
      → IsBalanced (write s >> (add_args vs >> k))
  mark-then-IsBalanced s vs k h v = record {
    balance = λ b b' e.
        let (c, ew, er) = seq_inv (write s) (add_args vs >> k) b b' e in
        let (d, ea, ek) = seq_inv (add_args vs) k c b' er in
        omega (arith, v.balance d b' ek, marks-write s b c ew, marks-add_args vs c d ea, h);
  }

  seq_fail : (m : M V) (x : Error) → IsBalanced (m >> fail x)
  seq_fail m x = record {
    balance = λ b b' e. let (c, em, ef) = seq_inv m (fail x) b b' e in absurd (fail_never c b' ef);
  }
    where
      fail_never : (c b' : Builder V) → fail x c ≡ ok b' → ⊥
      fail_never c b' h = unfold fail in ground arith

  -- A placeholder for a value that may be missing, which stops the builder.
  pub mark-found-IsBalanced :
      (s : Bytes) (o : Option V) (x : Error)
      → marks s ≡ 1
      → IsBalanced (write s >> case_of o (fail x) (λ v. add_args (v ∷ [])))
  unfolding case_of
  mark-found-IsBalanced s none x h = seq_fail (write s) x
  mark-found-IsBalanced s (some v) x h = mark-IsBalanced s (v ∷ []) h

  pub separated-IsBalanced :
      {A : Type 0} (sep : Bytes) (each : A → M V) (xs : List A)
      → IsPlain sep
      → All (λ x. IsBalanced (each x)) xs
      → IsBalanced (separated sep each xs)
  unfolding separated
  separated-IsBalanced sep each [] h a = skip-IsBalanced
  separated-IsBalanced sep each (x ∷ []) h a = a.0
  separated-IsBalanced sep each (x ∷ y ∷ xs) h a =
      seq-IsBalanced a.0
        (seq-IsBalanced (write-IsBalanced sep h) (separated-IsBalanced sep each (y ∷ xs) h a.1))

  pub quote-IsBalanced : (q : ℕ) (s : Bytes) → q ≢ b'?' → IsPlain s → IsBalanced {V = V} (quote q s)
  unfolding quote
  quote-IsBalanced q s n h = seq-IsBalanced (write-IsBalanced (q ∷ []) (IsPlain-byte q n)) (
      seq-IsBalanced (write-IsBalanced (doubled q s) (IsPlain-doubled q s n h))
        (write-IsBalanced (q ∷ []) (IsPlain-byte q n)))

-- What a balanced builder has made of an empty text.
pub balanced-empty :
    {V : Type 0} {m : M V}
    → IsBalanced m
    → (b : Builder V) → m (empty V) ≡ ok b
    → marks b.sql ≡ length b.args
unfolding marks
balanced-empty w b e = omega (arith, w.balance (empty _) b e)
