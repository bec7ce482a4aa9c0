-- ===== src/Net/Frame/Decode.antt =====
-- micro/net/frame.go: `DecodeFrameWithLimits`, and `readFrame` of micro/net/common.go, from a
-- stream that holds the bytes still to come. What is left of the stream is part of the result.
use soil.Base.{
  ℕ, not, [], Bytes, length, take, drop, get_elem?, none, some, ltb, leb, ◌==◌, if◌then◌else◌,
  get_uint,
}
use soil.Net.Frame.{
  Frame, FrameLimits, Result, ok, err, ◌>>=◌, ◌>>◌, refuse, frame_magic, frame_version,
  frame_header_len, default_limits, invalid_magic, unknown_version, large_header, large_body, eof,
  unexpected_eof,
}

-- `io.ReadFull` into a buffer of `n` bytes.
unfoldable pub read_full : ℕ → Bytes → Result (Bytes × Bytes)
read_full n s =
    if leb n (length s)
    then ok (take n s, drop n s)
    else err (if length s == 0 then eof else unexpected_eof)

-- `if n > 0 { f.Header = make([]byte, n); readFullFn(f.Header) }`
unfoldable pub read_part : ℕ → Bytes → Result (Bytes × Bytes)
read_part n s = if n == 0 then ok ([], s) else read_full n s

abbrev pub byte_at : ℕ → Bytes → ℕ
byte_at i s = elim (get_elem? s i) [ none ↦ 0 | some b ↦ b ]

abbrev pub field : ℕ → ℕ → Bytes → ℕ
field start count s = get_uint (take count (drop start s))

abbrev pub header_len : Bytes → ℕ
header_len hdr = field 6 4 hdr

abbrev pub body_len : Bytes → ℕ
body_len hdr = field 10 4 hdr

-- The checks between the fixed header and what follows it.
unfoldable pub check_header : Bytes → FrameLimits → Result (Unit {0})
check_header hdr lim = do
  refuse (not (field 0 2 hdr == frame_magic)) invalid_magic
  refuse (not (byte_at 2 hdr == frame_version)) unknown_version
  refuse (ltb lim.max_header (header_len hdr)) large_header
  refuse (ltb lim.max_body (body_len hdr)) large_body

abbrev pub frame_of : Bytes → Bytes → Bytes → Frame
frame_of hdr header body = record {
  magic = field 0 2 hdr;
  version = byte_at 2 hdr;
  msg_type = byte_at 3 hdr;
  flags = byte_at 4 hdr;
  request_id = field 14 8 hdr;
  header = header;
  body = body;
}

unfoldable pub decode_parts : Bytes → Bytes → Result (Frame × Bytes)
decode_parts hdr s = do
  (header, s') ← read_part (header_len hdr) s
  (body, rest) ← read_part (body_len hdr) s'
  ok (frame_of hdr header body, rest)

unfoldable pub decode_frame_with_limits : Bytes → FrameLimits → Result (Frame × Bytes)
decode_frame_with_limits stream lim = do
  (hdr, s) ← read_full frame_header_len stream
  check_header hdr lim
  decode_parts hdr s

unfoldable pub decode_frame : Bytes → Result (Frame × Bytes)
decode_frame stream = decode_frame_with_limits stream default_limits
