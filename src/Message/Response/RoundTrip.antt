-- ===== src/Message/Response/RoundTrip.antt =====
-- micro/rpc/message/response.go: what is decoded from an encoded response.
use soil.Base.{
  ℕ, ◌+◌, ◌^◌, ◌%◌, ◌<◌, ◌≤◌, ◌≡◌, refl, ap, ◌∙◌, arith, false, some, [], ◌++◌, append-nil, Bytes,
  length, ltb, put_uint, get_uint-put_uint, length-append,
}
use soil.Message.{◌>>=◌, slice, byte_at, uint32_at}
use soil.Message.Buffer.{puts-finish, slice-append, data_behind-append, fixed}
use soil.Message.Response.{
  Response, calculate_head_length, calculate_body_length, pieces, encode_response, decode_response,
  data_behind,
}

abbrev pub calculated : Response → Response
calculated r = calculate_body_length (calculate_head_length r)

-- A response that its 32-bit lengths can describe.
pub record IsWire (r : Response) : Type 0 where
  pub message_id : r.message_id < 2 ^ 32
  pub size : 15 + length r.error_info + length r.data_bytes < 2 ^ 32

-- The response with the lengths that it has.
abbrev sized : Response → Response
sized r = record r { head_length = 15 + length r.error_info; body_length = length r.data_bytes }

calculated-sized : (r : Response) → IsWire r → calculated r ≡ sized r
unfolding calculate_head_length calculate_body_length
calculated-sized r w =
    let size = w.size in
    let h : (15 + length r.error_info) % 2 ^ 32 ≡ 15 + length r.error_info = omega arith in
    let b : length r.data_bytes % 2 ^ 32 ≡ length r.data_bytes = omega arith in
    ap (λ k. record r { head_length = k; body_length = length r.data_bytes % 2 ^ 32 }) h
    ∙ ap (λ k. record r { head_length = 15 + length r.error_info; body_length = k }) b

abbrev prefix : Response → Bytes
prefix r =
    fixed (15 + length r.error_info) (length r.data_bytes) r.message_id r.version r.compressor
      r.serializer

encode_sized :
    (r : Response)
    → IsWire r
    → encode_response (sized r) ≡ some (prefix r ++ (r.error_info ++ r.data_bytes))
unfolding encode_response pieces fixed put_uint
encode_sized r w =
    let size = w.size in
    let n = length-append r.error_info [] in
    puts-finish (pieces (sized r)) r.data_bytes
      (((sized r).head_length + (sized r).body_length) % 2 ^ 32) (omega (arith, n, size))
    ∙ ap (λ t. some (prefix r ++ (t ++ r.data_bytes))) (append-nil r.error_info)

decode_response_parts :
    (s header rest : Bytes) (h b m : ℕ)
    → 15 ≤ length s
    → uint32_at 0 s ≡ h
    → uint32_at 4 s ≡ b
    → uint32_at 8 s ≡ m
    → slice 15 h s ≡ some header
    → data_behind h b s ≡ some rest
    → decode_response s
      ≡ some (record {
        head_length = h;
        body_length = b;
        message_id = m;
        version = byte_at 12 s;
        compressor = byte_at 13 s;
        serializer = byte_at 14 s;
        error_info = header;
        data_bytes = rest;
      })
unfolding decode_response
decode_response_parts s header rest h b m l eh eb em e d =
    let short : ltb (length s) 15 ≡ false = ground arith in rw (short, eh, eb, em, e, d) refl

decode_sized :
    (r : Response)
    → IsWire r
    → decode_response (prefix r ++ (r.error_info ++ r.data_bytes)) ≡ some (sized r)
unfolding fixed put_uint
decode_sized r w =
    let size = w.size in
    decode_response_parts (prefix r ++ (r.error_info ++ r.data_bytes)) r.error_info r.data_bytes
      (15 + length r.error_info) (length r.data_bytes) r.message_id (omega arith)
      (get_uint-put_uint 4 _ (omega (arith, size))) (get_uint-put_uint 4 _ (omega (arith, size)))
      (get_uint-put_uint 4 _ (omega (arith, w.message_id)))
      (slice-append (prefix r) r.error_info r.data_bytes 15 (15 + length r.error_info) refl refl)
      (data_behind-append (prefix r ++ r.error_info) r.data_bytes (15 + length r.error_info)
        (omega arith))

-- A response whose lengths have been calculated and fit 32 bits is encoded, and decoded to itself.
pub decode-encode_response :
    (r : Response)
    → IsWire r
    → (encode_response (calculated r) >>= decode_response) ≡ some (calculated r)
decode-encode_response r w = rw (calculated-sized r w, encode_sized r w) (decode_sized r w)

-- The bytes that it is encoded as, whose lengths say how many they are.
pub response-wire :
    (r : Response)
    → IsWire r
    → (s : Bytes) × (encode_response (calculated r) ≡ some s)
      × (decode_response s ≡ some (calculated r))
      × ((8 < length s) × ((uint32_at 0 s + uint32_at 4 s) % 2 ^ 32 ≡ length s))
unfolding fixed put_uint
response-wire r w =
    let size = w.size in
    let s = prefix r ++ (r.error_info ++ r.data_bytes) in
    let h : uint32_at 0 s ≡ 15 + length r.error_info =
      get_uint-put_uint 4 _ (omega (arith, size)) in
    let b : uint32_at 4 s ≡ length r.data_bytes = get_uint-put_uint 4 _ (omega (arith, size)) in
    let l = length-append r.error_info r.data_bytes in
    (
      s,
      rw (calculated-sized r w) (encode_sized r w),
      rw (calculated-sized r w) (decode_sized r w),
      (omega (arith, l), omega (arith, l, h, b, size)),
    )
