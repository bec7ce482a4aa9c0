-- ===== src/Net/Frame/Refusals.antt =====
-- micro/net/frame.go: what `DecodeFrameWithLimits` accepts, and encoded frames that it refuses.
use soil.Base.{
  ℕ, ◌≤◌, ◌≡◌, refl, sym, ap, subst, ◌∙◌, inl, inr, [], ◌++◌, arith, append_assoc, Bytes, length,
  take, drop, leb, ◌==◌, Bool-cases, length-take, take-append-drop,
}
use soil.Net.Frame.{
  Frame, FrameLimits, Result, ok, err, ◌>>=◌, frame_magic, frame_version, frame_header_len, len32,
  header_fields, encode_with_limits, invalid_magic,
}
use soil.Net.Frame.Decode.{
  read_full, read_part, check_header, header_len, body_len, decode_parts, field, byte_at,
  decode_frame_with_limits,
}
use soil.Net.Frame.RoundTrip.{IsWire, header_fields-Reads, encode_inv, read_full_header}

bind-eq-ok :
    {A B : Type 0} (m : Result A) (k : A → Result B) (b : B)
    → (m >>= k) ≡ ok b
    → (a : A) × (m ≡ ok a) × (k a ≡ ok b)
bind-eq-ok (ok a) k b e = (a, refl, e)
bind-eq-ok (err x) k b e = cc

read_full_inv :
    (n : ℕ) (s a rest : Bytes) → read_full n s ≡ ok (a, rest) → (s ≡ a ++ rest) × (length a ≡ n)
unfolding read_full
read_full_inv n s a rest e = elim (Bool-cases (leb n (length s))) [
  | inl q ↦
      let same_a : take n s ≡ a = ground arith in
      let same_rest : drop n s ≡ rest = ground arith in
      (
        rw (← same_a, ← same_rest) (sym (take-append-drop n s)),
        rw (← same_a) (ground (arith, length-take n s)),
      )
  | inr q ↦ absurd (ground arith)
]

read_part_inv :
    (n : ℕ) (s a rest : Bytes) → read_part n s ≡ ok (a, rest) → (s ≡ a ++ rest) × (length a ≡ n)
unfolding read_part
read_part_inv n s a rest e = elim (Bool-cases (n == 0)) [
  | inl q ↦
      let same_a : [] ≡ a = ground arith in
      let same_rest : s ≡ rest = ground arith in
      (rw (← same_a) same_rest, rw (← same_a) (ground arith))
  | inr q ↦ read_full_inv n s a rest (ground arith)
]

check_header_inv :
    (hdr : Bytes) (lim : FrameLimits)
    → check_header hdr lim ≡ ok tt
    → (field 0 2 hdr ≡ frame_magic)
      × (byte_at 2 hdr ≡ frame_version)
      × (header_len hdr ≤ lim.max_header)
      × (body_len hdr ≤ lim.max_body)
unfolding check_header
check_header_inv hdr lim e = ground arith

ok-injective : {A : Type 0} {a b : A} → ok a ≡ ok b → a ≡ b
ok-injective e = cc

-- What the parts of a decoded frame are.
abbrev IsDecoded : Bytes → Bytes → Frame × Bytes → Type 0
IsDecoded hdr s (f, rest) =
    (f.magic ≡ field 0 2 hdr)
    × (f.version ≡ byte_at 2 hdr)
    × (length f.header ≡ header_len hdr)
    × (length f.body ≡ body_len hdr)
    × (s ≡ f.header ++ (f.body ++ rest))

decode_parts-IsDecoded :
    (hdr s : Bytes) (r : Frame × Bytes) → decode_parts hdr s ≡ ok r → IsDecoded hdr s r
unfolding decode_parts
decode_parts-IsDecoded hdr s r e =
    let ((header, s'), first, e1) = bind-eq-ok (read_part (header_len hdr) s) _ _ e in
    let ((body, rest), second, e2) = bind-eq-ok (read_part (body_len hdr) s') _ _ e1 in
    let (split_s, size) = read_part_inv (header_len hdr) s header s' first in
    let (split_s', size') = read_part_inv (body_len hdr) s' body rest second in
    subst (IsDecoded hdr s) (ok-injective e2)
      (refl, refl, size, size', split_s ∙ ap (λ t. header ++ t) split_s')

check_header_zero :
    (hdr : Bytes) (lim : FrameLimits) → field 0 2 hdr ≡ 0 → check_header hdr lim ≡ err invalid_magic
unfolding check_header
check_header_zero hdr lim e = rw e

-- Whatever `DecodeFrame` accepts has the protocol's magic and version, a header and a body within
-- the limits, and is made of exactly the first bytes of the stream: 22 of fixed header, then the
-- header, then the body.
pub decode_accepts :
    (stream : Bytes) (lim : FrameLimits) (f : Frame) (rest : Bytes)
    → decode_frame_with_limits stream lim ≡ ok (f, rest)
    → (f.magic ≡ frame_magic)
      × (f.version ≡ frame_version)
      × (length f.header ≤ lim.max_header)
      × (length f.body ≤ lim.max_body)
      × (hdr : Bytes) × (stream ≡ hdr ++ (f.header ++ (f.body ++ rest)))
      × (length hdr ≡ frame_header_len)
unfolding decode_frame_with_limits
decode_accepts stream lim f rest e =
    let ((hdr, s), read, e1) = bind-eq-ok (read_full frame_header_len stream) _ _ e in
    let (_, checked, e2) = bind-eq-ok (check_header hdr lim) _ _ e1 in
    let (split_stream, size) = read_full_inv frame_header_len stream hdr s read in
    let (magic, version, h, b) = check_header_inv hdr lim checked in
    let (m, v, lh, lb, split_s) = decode_parts-IsDecoded hdr s (f, rest) e2 in
    (m ∙ magic, v ∙ version, rw lh h, rw lb b, hdr, split_stream ∙ ap (λ t. hdr ++ t) split_s, size)

-- `Encode` lets a frame pass whose magic is 0, and writes that 0: no such frame is decoded again.
pub decode-encode_zero_magic :
    (f : Frame) (lim : FrameLimits) (bs rest : Bytes)
    → IsWire f
    → f.magic ≡ 0
    → encode_with_limits f lim ≡ ok bs
    → decode_frame_with_limits (bs ++ rest) lim ≡ err invalid_magic
unfolding decode_frame_with_limits
decode-encode_zero_magic f lim bs rest w m e =
    let (shape, hh, hb) = encode_inv f lim bs e in
    let r = header_fields-Reads f (len32 f.header) (len32 f.body) w (omega arith) (omega arith) in
    let hdr = header_fields f (len32 f.header) (len32 f.body) in
    rw (
      shape,
      append_assoc hdr (f.header ++ f.body) rest,
      read_full_header hdr ((f.header ++ f.body) ++ rest) r.size,
      check_header_zero hdr lim (r.magic ∙ m),
    )
