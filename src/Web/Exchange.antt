-- ===== src/Web/Exchange.antt =====
-- What web/context.go and web/server.go use of package net/http: headers, requests and a
-- `ResponseWriter`, which sends the first status that it is given with the headers that it has then.
-- Header names are in their canonical form, and no code below 200 is written.
use soil.Base.{
  zero, suc, ◌+◌, ◌/◌, ◌%◌, ◌==◌, ℕ, ◌≡◌, refl, ℤ, Option, none, some, List, [], ◌∷◌, ◌++◌, Bytes,
  same, same_iff, arith, if◌then◌else◌,
}

abbrev pub Header : Type 0
Header = List (Bytes × List Bytes)

-- `h[key]`
unfoldable pub values_of : Bytes → Header → List Bytes
values_of key [] = []
values_of key ((k, vs) ∷ h) = if same k key then vs else values_of key h

abbrev pub first_or_empty : List Bytes → Bytes
first_or_empty [] = []
first_or_empty (v ∷ vs) = v

-- `Header.Get`
unfoldable pub get : Bytes → Header → Bytes
unfolding values_of
get key h = first_or_empty (values_of key h)

-- A change of the values of a key.
unfoldable pub put_values : (List Bytes → List Bytes) → Bytes → Header → Header
put_values f key [] = (key, f []) ∷ []
put_values f key ((k, vs) ∷ h) =
    let rest = put_values f key h in if same k key then (k, f vs) ∷ h else (k, vs) ∷ rest

-- `Header.Set`
unfoldable pub set : Bytes → Bytes → Header → Header
unfolding put_values
set key v h = put_values (λ _. v ∷ []) key h

-- `Header.Add`
unfoldable pub add : Bytes → Bytes → Header → Header
unfolding put_values
add key v h = put_values (λ vs. vs ++ (v ∷ [])) key h

pub values_of-put_values :
    (f : List Bytes → List Bytes) (key j : Bytes) (h : Header)
    → values_of j (put_values f key h) ≡ (if same key j then f (values_of j h) else values_of j h)
unfolding values_of put_values
values_of-put_values f key j [] = refl
values_of-put_values f key j ((k, vs) ∷ h) =
    ground (arith, same_iff k key, same_iff k j, same_iff key j, values_of-put_values f key j h)

pub get-set :
    (key v j : Bytes) (h : Header) → get j (set key v h) ≡ (if same key j then v else get j h)
unfolding get set
get-set key v j h = ground (arith, values_of-put_values (λ _. v ∷ []) key j h)

-- `http.Request`: its method, path, headers, `URL.Query()`, length, and the limit that a reader put
-- round its body has.
pub record Request : Type 0 where
  pub meth : Bytes
  pub path : Bytes
  pub header : Header
  pub query : List (Bytes × List Bytes)
  pub content_length : ℤ
  pub remote_addr : Bytes
  pub body_limit : Option ℤ

-- `http.ResponseWriter`: its headers, the status and the headers that it has sent, and its body.
pub record Response : Type 0 where
  pub header : Header
  pub sent : Option (ℕ × Header)
  pub body : Bytes

-- `ResponseWriter.WriteHeader`; any call but the first has no effect.
unfoldable pub write_header : ℕ → Response → Response
write_header code r = record r {
  sent = elim r.sent [ none ↦ some (code, r.header) | some s ↦ some s ];
}

-- `ResponseWriter.Write`
unfoldable pub write_body : Bytes → Response → Response
unfolding write_header
write_body bs r = let r' = write_header 200 r in record r' { body = r'.body ++ bs }

-- What the client gets once the handler has returned.
unfoldable pub completed : Response → Response
unfolding write_header
completed r = write_header 200 r

-- `strconv.Itoa` for a number below ten to the power of the fuel.
unfoldable pub itoa : ℕ → ℕ → Bytes
itoa zero n = []
itoa (suc f) n =
    let rest = itoa f (n / 10) in (if n / 10 == 0 then [] else rest) ++ (b'0' + n % 10) ∷ []
