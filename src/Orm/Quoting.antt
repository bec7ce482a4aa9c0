-- ===== src/Orm/Quoting.antt =====
-- orm/builder.go: a name between quotes ends where it should, whatever is in it.
use soil.Base.{
  ℕ, ◌≡◌, ◌≢◌, arith, Option, none, some, [], ◌∷◌, ◌++◌, Bytes, ◌==◌, if◌then◌else◌, append_assoc,
  subst, by_cases,
}
use soil.Orm.Builder.{Builder, ok, ok_injective, and_then, ◌>>◌, write, doubled, quote, empty}

add_byte : ℕ → Option (Bytes × Bytes) → Option (Bytes × Bytes)
add_byte c none = none
add_byte c (some (name, rest)) = some (c ∷ name, rest)

-- How a database reads a quoted name, behind the quote that opens it: two quotes are one of the name,
-- a single one ends it. The result is the name and what stands behind it.
read_name : ℕ → Bytes → Option (Bytes × Bytes)
unfolding add_byte
read_name q [] = none
read_name q (c ∷ []) = if c == q then some ([], []) else none
read_name q (c ∷ d ∷ s) =
    let inside = add_byte c (read_name q (d ∷ s)) in
    let doubled_quote = add_byte q (read_name q s) in
    if c == q then (if d == q then doubled_quote else some ([], d ∷ s)) else inside

pub read_quoted : ℕ → Bytes → Option (Bytes × Bytes)
unfolding read_name
read_quoted q [] = none
read_quoted q (c ∷ s) = let name = read_name q s in if c == q then name else none

-- What may follow a name: anything but another quote.
unfoldable pub IsSeparate : ℕ → Bytes → Type 0
IsSeparate q [] = Unit
IsSeparate q (c ∷ s) = c ≢ q

read_name-end :
    (q : ℕ) (rest : Bytes) → IsSeparate q rest → read_name q (q ∷ rest) ≡ some ([], rest)
unfolding read_name IsSeparate
read_name-end q [] h = ground arith
read_name-end q (c ∷ rest) h = ground arith

read_name-inside :
    (q c : ℕ) (s : Bytes) (name rest : Bytes)
    → c ≢ q
    → read_name q s ≡ some (name, rest)
    → read_name q (c ∷ s) ≡ some (c ∷ name, rest)
unfolding read_name add_byte
read_name-inside q c [] name rest n h = absurd (ground arith)
read_name-inside q c (d ∷ s) name rest n h = ground arith

read_name-twice :
    (q c : ℕ) (s : Bytes) (name rest : Bytes)
    → c ≡ q
    → read_name q s ≡ some (name, rest)
    → read_name q (q ∷ q ∷ s) ≡ some (c ∷ name, rest)
unfolding read_name add_byte
read_name-twice q c s name rest e h = ground arith

read_name-doubled :
    (q : ℕ) (name rest : Bytes)
    → IsSeparate q rest
    → read_name q (doubled q name ++ (q ∷ rest)) ≡ some (name, rest)
unfolding doubled
read_name-doubled q [] rest h = read_name-end q rest h
read_name-doubled q (c ∷ name) rest h =
    let rec = read_name-doubled q name rest h in
    by_cases (λ t. read_name q (t ++ (q ∷ rest)) ≡ some (c ∷ name, rest)) (c == q) _ _
      (λ e. read_name-twice q c (doubled q name ++ (q ∷ rest)) name rest (ground arith) rec)
      (λ e. read_name-inside q c (doubled q name ++ (q ∷ rest)) name rest (ground arith) rec)

read_quoted-text :
    (q : ℕ) (name rest : Bytes)
    → IsSeparate q rest
    → read_quoted q (q ∷ ((doubled q name ++ (q ∷ [])) ++ rest)) ≡ some (name, rest)
unfolding read_quoted
read_quoted-text q name rest h =
    ground (arith, read_name-doubled q name rest h, append_assoc (doubled q name) (q ∷ []) rest)

-- `quote` writes a name, whatever bytes it has, so that reading it back gives the name and what is
-- written behind it, if that does not begin with the quoting byte: a name cannot break out of its
-- quotes.
pub read_quoted-quote :
    {V : Type 0} (q : ℕ) (name rest : Bytes) (b : Builder V)
    → IsSeparate q rest
    → quote q name (empty V) ≡ ok b
    → read_quoted q (b.sql ++ rest) ≡ some (name, rest)
unfolding quote write ◌>>◌ and_then
read_quoted-quote q name rest b h e =
    subst (λ c. read_quoted q (Builder.sql c ++ rest) ≡ some (name, rest)) (ok_injective e)
      (read_quoted-text q name rest h)
