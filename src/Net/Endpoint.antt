-- ===== src/Net/Endpoint.antt =====
-- micro/net/endpoint.go: endpoint lists, their merging, and the health of a node. Addresses are
-- ASCII. `strconv.Atoi`, `net.SplitHostPort` and the resolver are parameters; times are nanoseconds.

pub mod Dedupe
pub mod Outages
mod Tests
use soil.Base.{
  ℕ, ◌+◌, ◌%◌, ◌^◌, Bool, true, false, not, ◌&&◌, ◌||◌, Option, none, some, List, [], ◌∷◌, ◌++◌,
  Bytes, same, ltb, leb, ◌==◌, if◌then◌else◌, trim_where, ℤ, pos, negsuc, ltb_ℤ,
}

pub record Endpoint : Type 0 where
  pub addr : Bytes
  pub weight : ℤ

pub data Error : Type 0 where
  empty_address empty_entry invalid_weight invalid_address : Error
  resolve_failed no_resolved : Error

pub data Result (A : Type 0) : Type 0 where
  ok : A → Result A
  err : Error → Result A

infixl 5 ◌>>=◌
abbrev pub ◌>>=◌ : {A B : Type 0} → Result A → (A → Result B) → Result B
ok a >>= f = f a
err e >>= f = err e

-- Whether a number is at most 0.
abbrev pub not_positive : ℤ → Bool
not_positive w = not (ltb_ℤ (pos 0) w)

-- `if ep.Weight <= 0 { ep.Weight = 1 }`, also `endpointNode.Weight`.
abbrev pub effective : ℤ → ℤ
effective w = if not_positive w then pos 1 else w

-- `if ep.Weight > out[idx].Weight { out[idx].Weight = ep.Weight }`
unfoldable pub raise : Endpoint → Endpoint → Endpoint
raise ep o =
    if ltb_ℤ o.weight (effective ep.weight) then record o { weight = effective ep.weight } else o

-- One round of `dedupeEndpoints`. `seen` holds the index of each address of `out`, so a lookup
-- there is a search in `out`.
unfoldable pub absorb : Endpoint → List Endpoint → List Endpoint
absorb ep [] = record ep { weight = effective ep.weight } ∷ []
absorb ep (o ∷ os) =
    let rest = o ∷ absorb ep os in if same o.addr ep.addr then raise ep o ∷ os else rest

unfoldable pub dedupe_loop : List Endpoint → List Endpoint → List Endpoint
unfolding absorb
dedupe_loop out [] = out
dedupe_loop out (ep ∷ eps) = dedupe_loop (absorb ep out) eps

unfoldable pub dedupe_endpoints : List Endpoint → List Endpoint
unfolding dedupe_loop
dedupe_endpoints eps = dedupe_loop [] eps

unfoldable pub merge_endpoints : List Endpoint → List Endpoint → List Endpoint
unfolding dedupe_endpoints
merge_endpoints base extra = dedupe_endpoints (base ++ extra)

abbrev pub is_separator : ℕ → Bool
is_separator c = c == b',' || (c == b';' || (c == 0x20 || (c == 0x09 || c == 0x0A)))

-- `unicode.IsSpace` on ASCII.
abbrev pub is_space : ℕ → Bool
is_space c = c == 0x20 || (leb 0x09 c && leb c 0x0D)

push_byte : ℕ → List Bytes → List Bytes
push_byte c [] = (c ∷ []) ∷ []
push_byte c (s ∷ ss) = (c ∷ s) ∷ ss

split_where : (ℕ → Bool) → Bytes → List Bytes
unfolding push_byte
split_where p [] = [] ∷ []
split_where p (c ∷ s) = let rest = split_where p s in if p c then [] ∷ rest else push_byte c rest

drop_empty : List Bytes → List Bytes
drop_empty [] = []
drop_empty ([] ∷ ss) = drop_empty ss
drop_empty ((c ∷ s) ∷ ss) = (c ∷ s) ∷ drop_empty ss

-- `strings.FieldsFunc`
unfoldable pub fields_where : (ℕ → Bool) → Bytes → List Bytes
unfolding split_where drop_empty
fields_where p s = drop_empty (split_where p s)

-- What stands before and behind the last `@`, as `strings.LastIndex` finds it.
unfoldable pub split_last : ℕ → Bytes → Option (Bytes × Bytes)
split_last sep [] = none
split_last sep (c ∷ s) = elim (split_last sep s) [
  | some (a, b) ↦ some (c ∷ a, b)
  | none ↦ if c == sep then some ([], s) else none
]

module _ (atoi : Bytes → Option ℤ) (is_host_port : Bytes → Bool) where
  check_address : Bytes → ℤ → Result Endpoint
  check_address addr weight =
      if is_host_port addr
      then ok (record { addr = addr; weight = weight })
      else err invalid_address

  check_weight : Bytes → Option ℤ → Result Endpoint
  unfolding check_address
  check_weight addr none = err invalid_weight
  check_weight addr (some w) = if not_positive w then err invalid_weight else check_address addr w

  parse_trimmed : Bytes → Result Endpoint
  unfolding check_weight
  parse_trimmed [] = err empty_entry
  parse_trimmed (c ∷ s) = elim (split_last b'@' (c ∷ s)) [
    | none ↦ check_address (c ∷ s) (pos 1)
    | some (addr, text) ↦ check_weight addr (atoi text)
  ]

  unfoldable pub parse_one_endpoint : Bytes → Result Endpoint
  unfolding parse_trimmed
  parse_one_endpoint s = parse_trimmed (trim_where is_space s)

  parse_all : List Bytes → Result (List Endpoint)
  parse_all [] = ok []
  parse_all (f ∷ fs) = do ep ← parse_one_endpoint f; eps ← parse_all fs; ok (ep ∷ eps)

  parse_fields : List Bytes → Result (List Endpoint)
  unfolding parse_all
  parse_fields [] = err empty_address
  parse_fields (f ∷ fs) = do eps ← parse_all (f ∷ fs); ok (dedupe_endpoints eps)

  parse_nonempty : Bytes → Result (List Endpoint)
  unfolding parse_fields
  parse_nonempty [] = err empty_address
  parse_nonempty (c ∷ s) = parse_fields (fields_where is_separator (c ∷ s))

  unfoldable pub parse_endpoint_list : Bytes → Result (List Endpoint)
  unfolding parse_nonempty
  parse_endpoint_list raw = parse_nonempty (trim_where is_space raw)

-- `Resolver.Resolve` for each endpoint; each address that it gives inherits the weight.
expand : ℤ → List Bytes → List Endpoint
expand weight [] = []
expand weight (a ∷ addrs) = record { addr = a; weight = weight } ∷ expand weight addrs

resolve_all : (Bytes → Option (List Bytes)) → List Endpoint → Result (List Endpoint)
unfolding expand
resolve_all resolve [] = ok []
resolve_all resolve (ep ∷ eps) = elim (resolve ep.addr) [
  | none ↦ err resolve_failed
  | some addrs ↦ resolve_all resolve eps >>= λ out. ok (expand ep.weight addrs ++ out)
]

some_resolved : List Endpoint → Result (List Endpoint)
some_resolved [] = err no_resolved
some_resolved (ep ∷ eps) = ok (dedupe_endpoints (ep ∷ eps))

unfoldable pub resolve_endpoints :
    (Bytes → Option (List Bytes)) → List Endpoint → Result (List Endpoint)
unfolding resolve_all some_resolved
resolve_endpoints resolve eps = resolve_all resolve eps >>= some_resolved

-- The health of an `endpointNode`. `fails` is the bit pattern of an int32, `down_until` is 0 for a
-- node that was never down.
pub record Health : Type 0 where
  pub fails : ℕ
  pub down_until : ℕ

unfoldable pub healthy : ℕ → Health → Bool
healthy now h = if h.down_until == 0 then true else leb h.down_until now

unfoldable pub mark_success : Health → Health
mark_success h = record { fails = 0; down_until = 0 }

-- `int(f) >= threshold` for the int32 of a bit pattern.
abbrev pub reaches : ℕ → ℕ → Bool
reaches threshold f = ltb f (2 ^ 31) && leb threshold f

abbrev pub threshold_of : ℕ → ℕ
threshold_of threshold = if threshold == 0 then 2 else threshold

-- Five seconds.
abbrev pub cooldown_of : ℕ → ℕ
cooldown_of cooldown = if cooldown == 0 then 5000000000 else cooldown

-- A threshold or a cooldown that is not positive is given as 0.
unfoldable pub mark_failure : ℕ → ℕ → ℕ → Health → Health
mark_failure threshold cooldown now h =
    let f = (h.fails + 1) % 2 ^ 32 in
    if reaches (threshold_of threshold) f
    then record { fails = f; down_until = now + cooldown_of cooldown }
    else record h { fails = f }
