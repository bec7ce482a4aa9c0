-- ===== src/Net/Frame.antt =====
-- micro/net/frame.go and `writeFull` of micro/net/common.go. A byte slice is a list of numbers; nil
-- and empty slices are one. The scratch buffers of the `sync.Pool` hold nothing between calls.
pub mod Decode
pub mod RoundTrip
pub mod Refusals
pub mod Write
pub mod Remote
mod Tests
use soil.Base.{
  ℕ, ◌+◌, ◌%◌, ◌^◌, ◌<◌, ◌≡◌, refl, ◌⊎◌, inl, inr, Bool, not, ◌&&◌, [], ◌∷◌, ◌++◌, Bytes, length,
  ltb, ◌==◌, if◌then◌else◌, put_uint,
}

abbrev pub frame_magic : ℕ
frame_magic = 0x4D4E

abbrev pub frame_version : ℕ
frame_version = 1

abbrev pub frame_header_len : ℕ
frame_header_len = 22

pub record FrameLimits : Type 0 where
  pub max_header : ℕ
  pub max_body : ℕ

abbrev pub default_limits : FrameLimits
default_limits = record { max_header = 65536; max_body = 16777216 }

pub record Frame : Type 0 where
  pub magic : ℕ
  pub version : ℕ
  pub msg_type : ℕ
  pub flags : ℕ
  pub request_id : ℕ
  pub header : Bytes
  pub body : Bytes

pub data Error : Type 0 where
  invalid_magic unknown_version large_header large_body : Error
  eof unexpected_eof : Error

pub data Result (A : Type 0) : Type 0 where
  ok : A → Result A
  err : Error → Result A

infixl 5 ◌>>=◌ ◌>>◌
abbrev pub ◌>>=◌ : {A B : Type 0} → Result A → (A → Result B) → Result B
ok a >>= f = f a
err e >>= f = err e

abbrev pub ◌>>◌ : {B : Type 0} → Result (Unit {0}) → Result B → Result B
m >> k = m >>= λ _. k

-- `if bad { return err }`
abbrev pub refuse : Bool → Error → Result (Unit {0})
refuse bad e = if bad then err e else ok tt

unfoldable pub new_frame : ℕ → ℕ → Bytes → Bytes → Frame
new_frame msg_type request_id header body = record {
  magic = frame_magic;
  version = frame_version;
  msg_type = msg_type;
  flags = 0;
  request_id = request_id;
  header = header;
  body = body;
}

-- `uint32(len(b))`
abbrev pub len32 : Bytes → ℕ
len32 s = length s % 2 ^ 32

unfoldable pub validate : Frame → FrameLimits → Result (Unit {0})
validate f lim = do
  refuse (not (f.magic == 0) && not (f.magic == frame_magic)) invalid_magic
  refuse (not (f.version == 0) && not (f.version == frame_version)) unknown_version
  refuse (ltb lim.max_header (len32 f.header)) large_header
  refuse (ltb lim.max_body (len32 f.body)) large_body

-- `writeHeaderFields`: the fields lie one behind another from offset 0 to 22.
unfoldable pub header_fields : Frame → ℕ → ℕ → Bytes
header_fields f header_len body_len =
    put_uint 2 f.magic
    ++ (f.version
        ∷ f.msg_type
        ∷ f.flags
        ∷ 0
        ∷ (put_uint 4 header_len ++ (put_uint 4 body_len ++ put_uint 8 f.request_id)))

unfoldable pub encode_with_limits : Frame → FrameLimits → Result Bytes
encode_with_limits f lim = do
  validate f lim
  ok (header_fields f (len32 f.header) (len32 f.body) ++ (f.header ++ f.body))

unfoldable pub encode : Frame → Result Bytes
encode f = encode_with_limits f default_limits

pub Result-cases :
    {A : Type 0} (m : Result A) → ((a : A) × (m ≡ ok a)) ⊎ ((e : Error) × (m ≡ err e))
Result-cases (ok a) = inl (a, refl)
Result-cases (err e) = inr (e, refl)
