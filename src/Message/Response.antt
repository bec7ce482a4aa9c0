-- ===== src/Message/Response.antt =====
-- micro/rpc/message/response.go: `Response`, its lengths, `EncodeResponse` and `DecodeResponse`.
pub mod RoundTrip
use soil.Base.{
  ℕ, ◌+◌, ◌^◌, ◌%◌, ◌<◌, ◌≡◌, refl, sym, ap, ◌∙◌, arith, Option, none, some, List, [], ◌∷◌, ◌++◌,
  append-nil, append_assoc, Bytes, length, ltb, ◌==◌, if◌then◌else◌, put_uint, get_uint-put_uint,
  length-append, length-put_uint, take-length_append, drop-length_append,
}
use soil.Message.{
  ◌>>=◌, data_behind, Cursor, puts, start, finish, slice, byte_at, uint32_at, concat,
}

pub record Response : Type 0 where
  pub head_length : ℕ
  pub body_length : ℕ
  pub message_id : ℕ
  pub version : ℕ
  pub compressor : ℕ
  pub serializer : ℕ
  pub error_info : Bytes
  pub data_bytes : Bytes

unfoldable pub calculate_head_length : Response → Response
calculate_head_length r = record r { head_length = (15 + length r.error_info) % 2 ^ 32 }

unfoldable pub calculate_body_length : Response → Response
calculate_body_length r = record r { body_length = length r.data_bytes % 2 ^ 32 }

-- What is written in front of the data, piece by piece.
unfoldable pub pieces : Response → List Bytes
pieces r =
    put_uint 4 r.head_length
    ∷ put_uint 4 r.body_length
    ∷ put_uint 4 r.message_id
    ∷ (r.version ∷ [])
    ∷ (r.compressor ∷ [])
    ∷ (r.serializer ∷ [])
    ∷ r.error_info
    ∷ []

unfoldable pub encode_response : Response → Option Bytes
unfolding pieces puts finish
encode_response r = do
  c ← puts (pieces r) (start ((r.head_length + r.body_length) % 2 ^ 32))
  some (finish r.data_bytes c)

unfoldable pub decode_response : Bytes → Option Response
unfolding slice
decode_response s = do
  header ← if ltb (length s) 15 then none else slice 15 (uint32_at 0 s) s
  rest ← data_behind (uint32_at 0 s) (uint32_at 4 s) s
  some (record {
    head_length = uint32_at 0 s;
    body_length = uint32_at 4 s;
    message_id = uint32_at 8 s;
    version = byte_at 12 s;
    compressor = byte_at 13 s;
    serializer = byte_at 14 s;
    error_info = header;
    data_bytes = rest;
  })
