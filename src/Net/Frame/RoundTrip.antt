-- ===== src/Net/Frame/RoundTrip.antt =====
-- micro/net/frame.go: what is decoded from an encoded frame.
use soil.Base.{
  ℕ, ◌^◌, ◌<◌, ◌≤◌, ◌≡◌, refl, ap, [], ◌∷◌, ◌++◌, arith, append_assoc, Bytes, length, put_uint,
  get_uint-put_uint, length-append, take-length_append, drop-length_append,
}
use soil.Net.Frame.{
  Frame, FrameLimits, ok, frame_magic, frame_version, frame_header_len, len32, validate,
  header_fields, encode_with_limits,
}
use soil.Net.Frame.Decode.{
  read_full, read_part, check_header, header_len, body_len, frame_of, decode_parts, field, byte_at,
  decode_frame_with_limits,
}

-- The values that the fields of a Go `Frame` can hold, for parts shorter than 2^32 bytes.
pub record IsWire (f : Frame) : Type 0 where
  pub magic : f.magic < 2 ^ 16
  pub request_id : f.request_id < 2 ^ 64
  pub header : length f.header < 2 ^ 32
  pub body : length f.body < 2 ^ 32

pub read_full-append : (s rest : Bytes) → read_full (length s) (s ++ rest) ≡ ok (s, rest)
unfolding read_full
read_full-append s rest =
    rw (take-length_append s rest, drop-length_append s rest) (ground (arith, length-append s rest))

pub read_part-append : (s rest : Bytes) → read_part (length s) (s ++ rest) ≡ ok (s, rest)
unfolding read_part
read_part-append [] rest = refl
read_part-append (b ∷ s) rest = ground (arith, read_full-append (b ∷ s) rest)

-- The fixed header gives back what was put into it.
pub record Reads (f : Frame) (h b : ℕ) (hdr : Bytes) : Type 0 where
  pub magic : field 0 2 hdr ≡ f.magic
  pub version : byte_at 2 hdr ≡ f.version
  pub msg_type : byte_at 3 hdr ≡ f.msg_type
  pub flags : byte_at 4 hdr ≡ f.flags
  pub request_id : field 14 8 hdr ≡ f.request_id
  pub header : header_len hdr ≡ h
  pub body : body_len hdr ≡ b
  pub size : length hdr ≡ frame_header_len

pub header_fields-Reads :
    (f : Frame) (h b : ℕ) → IsWire f → h < 2 ^ 32 → b < 2 ^ 32 → Reads f h b (header_fields f h b)
unfolding header_fields put_uint
header_fields-Reads f h b w hh hb = record {
  magic = get_uint-put_uint 2 f.magic (omega (arith, w.magic));
  version = refl;
  msg_type = refl;
  flags = refl;
  request_id = get_uint-put_uint 8 f.request_id (omega (arith, w.request_id));
  header = get_uint-put_uint 4 h (omega arith);
  body = get_uint-put_uint 4 b (omega arith);
  size = refl;
}

pub encode_inv :
    (f : Frame) (lim : FrameLimits) (bs : Bytes)
    → encode_with_limits f lim ≡ ok bs
    → (bs ≡ header_fields f (len32 f.header) (len32 f.body) ++ (f.header ++ f.body))
      × (len32 f.header ≤ lim.max_header)
      × (len32 f.body ≤ lim.max_body)
unfolding encode_with_limits validate
encode_inv f lim bs e = ground arith

check_header_ok :
    (f : Frame) (h b : ℕ) (hdr : Bytes) (lim : FrameLimits)
    → Reads f h b hdr
    → f.magic ≡ frame_magic
    → f.version ≡ frame_version
    → h ≤ lim.max_header
    → b ≤ lim.max_body
    → check_header hdr lim ≡ ok tt
unfolding check_header
check_header_ok f h b hdr lim r m v hh hb = rw (r.magic, r.version, r.header, r.body) (ground arith)

frame_of-Reads :
    (f : Frame) (h b : ℕ) (hdr : Bytes) → Reads f h b hdr → frame_of hdr f.header f.body ≡ f
frame_of-Reads f h b hdr r = ground arith

pub read_full_header :
    (hdr rest : Bytes)
    → length hdr ≡ frame_header_len
    → read_full frame_header_len (hdr ++ rest) ≡ ok (hdr, rest)
read_full_header hdr rest h = rw (← h) (read_full-append hdr rest)

decode_parts-append :
    (f : Frame) (hdr rest : Bytes)
    → Reads f (length f.header) (length f.body) hdr
    → decode_parts hdr (f.header ++ (f.body ++ rest)) ≡ ok (f, rest)
unfolding decode_parts
decode_parts-append f hdr rest r =
    rw (r.header, r.body, read_part-append f.header (f.body ++ rest), read_part-append f.body rest)
      (ap (λ g. ok (g, rest)) (frame_of-Reads f _ _ hdr r))

-- What `Encode` writes of a frame with the protocol's magic and version, `DecodeFrame` reads back
-- under the same limits, whatever follows it in the stream, and leaves what follows.
pub decode-encode :
    (f : Frame) (lim : FrameLimits) (bs rest : Bytes)
    → IsWire f
    → f.magic ≡ frame_magic
    → f.version ≡ frame_version
    → encode_with_limits f lim ≡ ok bs
    → decode_frame_with_limits (bs ++ rest) lim ≡ ok (f, rest)
unfolding decode_frame_with_limits
decode-encode f lim bs rest w m v e =
    let (shape, hh, hb) = encode_inv f lim bs e in
    let same_h : len32 f.header ≡ length f.header = omega (arith, w.header) in
    let same_b : len32 f.body ≡ length f.body = omega (arith, w.body) in
    let hdr = header_fields f (length f.header) (length f.body) in
    let r = header_fields-Reads f (length f.header) (length f.body) w w.header w.body in
    let layout : bs ++ rest ≡ hdr ++ (f.header ++ (f.body ++ rest)) =
      rw (shape, same_h, same_b, append_assoc, append_assoc) refl in
    rw
      (
        layout,
        read_full_header hdr (f.header ++ (f.body ++ rest)) r.size,
        check_header_ok f _ _ hdr lim r m v (rw same_h at hh) (rw same_b at hb),
      )
      (decode_parts-append f hdr rest r)
