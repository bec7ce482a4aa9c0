-- ===== src/Message/Request.antt =====
-- micro/rpc/message/request.go: `Request`, its lengths, `EncodeRequest` and `DecodeRequest`.
pub mod RoundTrip
use soil.Base.{
  ℕ, zero, suc, ◌+◌, ◌^◌, ◌%◌, Option, none, some, List, [], ◌∷◌, ◌++◌, Bytes, same, length, leb,
  ltb, ◌==◌, if◌then◌else◌, put_uint, split_first,
}
use soil.Message.{◌>>=◌, data_behind, Cursor, puts, start, finish, slice, byte_at, uint32_at}

pub record Request : Type 0 where
  pub head_length : ℕ
  pub body_length : ℕ
  pub message_id : ℕ
  pub version : ℕ
  pub compressor : ℕ
  pub serializer : ℕ
  pub service_name : Bytes
  pub method_name : Bytes
  pub meta : List (Bytes × Bytes)
  pub data_bytes : Bytes

-- The loop of `CalculateHeadLength`, a sum of uint32s.
unfoldable pub add_meta : List (Bytes × Bytes) → ℕ → ℕ
add_meta [] n = n
add_meta ((k, v) ∷ ps) n = add_meta ps ((n + (length k + 1 + length v + 1) % 2 ^ 32) % 2 ^ 32)

unfoldable pub calculate_head_length : Request → Request
unfolding add_meta
calculate_head_length r = record r {
  head_length =
      add_meta r.meta ((15 + length r.service_name + 1 + length r.method_name + 1) % 2 ^ 32);
}

unfoldable pub calculate_body_length : Request → Request
calculate_body_length r = record r { body_length = length r.data_bytes % 2 ^ 32 }

abbrev pub new_line : Bytes
new_line = b'\n' ∷ []

abbrev pub return_mark : Bytes
return_mark = b'\r' ∷ []

-- What the loop over `request.Meta` writes.
unfoldable pub meta_pieces : List (Bytes × Bytes) → List Bytes
meta_pieces [] = []
meta_pieces ((k, v) ∷ ps) = k ∷ return_mark ∷ v ∷ new_line ∷ meta_pieces ps

-- What is written in front of the data, piece by piece.
unfoldable pub pieces : Request → List Bytes
unfolding meta_pieces
pieces r =
    put_uint 4 r.head_length
    ∷ put_uint 4 r.body_length
    ∷ put_uint 4 r.message_id
    ∷ (r.version ∷ [])
    ∷ (r.compressor ∷ [])
    ∷ (r.serializer ∷ [])
    ∷ r.service_name
    ∷ new_line
    ∷ r.method_name
    ∷ new_line
    ∷ meta_pieces r.meta

-- `if request.BodyLength > 0`
abbrev pub body_of : Request → Bytes
body_of r = if r.body_length == 0 then [] else r.data_bytes

unfoldable pub encode_request : Request → Option Bytes
unfolding pieces puts finish
encode_request r = do
  c ← puts (pieces r) (start ((r.head_length + r.body_length) % 2 ^ 32))
  some (finish (body_of r) c)

-- `meta[key] = value`
unfoldable pub set_meta : Bytes → Bytes → List (Bytes × Bytes) → List (Bytes × Bytes)
set_meta k v [] = (k, v) ∷ []
set_meta k v ((j, w) ∷ ps) =
    let rest = (j, w) ∷ set_meta k v ps in if same k j then (k, v) ∷ ps else rest

-- The loop over the pairs; each round takes a byte at least, so the length of the header is enough
-- fuel.
unfoldable pub meta_loop : ℕ → List (Bytes × Bytes) → Bytes → Option (List (Bytes × Bytes))
unfolding set_meta
meta_loop zero m header = some m
meta_loop (suc n) m header = elim (split_first b'\n' header) [
  | none ↦ some m
  | some (pair, rest) ↦ elim (split_first b'\r' pair) [
    | none ↦ none
    | some (key, value) ↦ meta_loop n (set_meta key value m) rest
  ]
]

abbrev pub head_of : Bytes → ℕ
head_of s = uint32_at 0 s

abbrev pub size_of : Bytes → ℕ
size_of s = uint32_at 4 s

-- The end of `DecodeRequest`, from the variable part of the header on.
unfoldable pub decode_variable : Bytes → Bytes → Option Request
unfolding meta_loop
decode_variable s header = do
  (service_name, methods) ← split_first b'\n' header
  (method_name, pairs) ← split_first b'\n' methods
  meta ← meta_loop (length pairs) [] pairs
  rest ← data_behind (head_of s) (size_of s) s
  some (record {
    head_length = head_of s;
    body_length = size_of s;
    message_id = uint32_at 8 s;
    version = byte_at 12 s;
    compressor = byte_at 13 s;
    serializer = byte_at 14 s;
    service_name = service_name;
    method_name = method_name;
    meta = meta;
    data_bytes = rest;
  })

unfoldable pub decode_request : Bytes → Option Request
unfolding decode_variable slice
decode_request s = do
  header ← if ltb (length s) 15 then none else slice 15 (head_of s) s
  decode_variable s header
