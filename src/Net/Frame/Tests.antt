-- ===== src/Net/Frame/Tests.antt =====
-- Frames that are encoded, written and decoded, and the theorems at them.
use soil.Base.{
  ◌≤◌, ◌≡◌, refl, false, [], ◌∷◌, ◌++◌, arith, Bytes, codes, length, take, put_uint, get_uint,
  length-take,
}
use soil.Net.Frame.{
  Frame, ok, frame_magic, frame_version, frame_header_len, default_limits, new_frame, validate,
  header_fields, encode_with_limits,
}
use soil.Net.Frame.Decode.{
  read_full, read_part, check_header, decode_parts, decode_frame_with_limits,
}
use soil.Net.Frame.RoundTrip.{IsWire, decode-encode}
use soil.Net.Frame.Refusals.{decode_accepts}
use soil.Net.Frame.Write.{Writer, IsWriter, write_frame, WritesFrame, write_frame-WritesFrame}

frames : Unit {0}
unfolding encode_with_limits validate header_fields put_uint get_uint decode_frame_with_limits
    read_full read_part check_header decode_parts new_frame
frames = tt

abbrev call : Frame
call = record {
  magic = frame_magic;
  version = frame_version;
  msg_type = 1;
  flags = 0;
  request_id = 258;
  header = codes "ab";
  body = codes "xyz";
}

abbrev unmarked : Frame
unmarked = record call { magic = 0 }

abbrev call_bytes : Bytes
call_bytes =
    0x4D
    ∷ 0x4E
    ∷ 1
    ∷ 1
    ∷ 0
    ∷ 0
    ∷ 0
    ∷ 0
    ∷ 0
    ∷ 2
    ∷ 0
    ∷ 0
    ∷ 0
    ∷ 3
    ∷ 0
    ∷ 0
    ∷ 0
    ∷ 0
    ∷ 0
    ∷ 0
    ∷ 1
    ∷ 2
    ∷ codes "abxyz"

call_encoded : encode_with_limits call default_limits ≡ ok call_bytes
unfolding frames
call_encoded = refl

call-IsWire : IsWire call
call-IsWire = omega arith

decode-encode_example :
    decode_frame_with_limits (call_bytes ++ codes "more") default_limits ≡ ok (call, codes "more")
decode-encode_example =
    decode-encode call default_limits call_bytes (codes "more") call-IsWire refl refl call_encoded

decode_accepts_example :
    (call.magic ≡ frame_magic)
    × (call.version ≡ frame_version)
    × (length call.header ≤ 65536)
    × (length call.body ≤ 16777216)
    × (hdr : Bytes) × (call_bytes ++ codes "more"
        ≡ hdr ++ (call.header ++ (call.body ++ codes "more")))
    × (length hdr ≡ frame_header_len)
decode_accepts_example =
    decode_accepts (call_bytes ++ codes "more") default_limits call (codes "more")
      decode-encode_example

abbrev unmarked_bytes : Bytes
unmarked_bytes =
    0
    ∷ 0
    ∷ 1
    ∷ 1
    ∷ 0
    ∷ 0
    ∷ 0
    ∷ 0
    ∷ 0
    ∷ 2
    ∷ 0
    ∷ 0
    ∷ 0
    ∷ 3
    ∷ 0
    ∷ 0
    ∷ 0
    ∷ 0
    ∷ 0
    ∷ 0
    ∷ 1
    ∷ 2
    ∷ codes "abxyz"

-- A writer that takes two bytes at a time.
abbrev slow_writer : Writer Bytes
slow_writer = record {
  write = λ w s. record { next = w ++ take 2 s; count = length (take 2 s); failed = false };
  sent = λ w. w;
}

take-take : (s : Bytes) → take (length (take 2 s)) s ≡ take 2 s
take-take [] = refl
take-take (a ∷ []) = refl
take-take (a ∷ b ∷ s) = refl

slow_writer-IsWriter : IsWriter slow_writer
slow_writer-IsWriter = record {
  within = λ w s. omega (arith, length-take 2 s);
  takes = λ w s. rw (take-take s);
}

write_frame-WritesFrame_example :
    WritesFrame slow_writer []
      (encode_with_limits call default_limits)
      (write_frame slow_writer [] call default_limits)
write_frame-WritesFrame_example =
    write_frame-WritesFrame slow_writer [] call default_limits slow_writer-IsWriter
