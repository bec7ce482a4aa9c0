-- ===== src/Net/Frame/Remote.antt =====
-- micro/net/frame.go: error frames, the flags, and what the client makes of an error frame.
use soil.Base.{
  ℕ, ◌+◌, ◌/◌, ◌%◌, ◌≡◌, refl, ap, ◌≢◌, Bool, true, false, ◌||◌, not, Option, none, some, [], ◌∷◌,
  Bytes, codes, same, arith, eq_of_same, ◌==◌, if◌then◌else◌,
}
use soil.Net.Frame.{Frame, new_frame}

-- `MessageTypeRequest` to `MessageTypePong`.
abbrev pub message_response : ℕ
message_response = 2

abbrev pub message_heartbeat : ℕ
message_heartbeat = 3

abbrev pub message_ping : ℕ
message_ping = 4

abbrev pub message_pong : ℕ
message_pong = 5

abbrev pub flag_one_way : ℕ
flag_one_way = 1

abbrev pub flag_error : ℕ
flag_error = 2

-- `flags & flag != 0`, for a flag of one bit.
abbrev pub has_flag : ℕ → ℕ → Bool
has_flag flags flag = not (flags / flag % 2 == 0)

-- `flags |= flag`, for a flag of one bit.
abbrev pub set_flag : ℕ → ℕ → ℕ
set_flag flags flag = if has_flag flags flag then flags else flags + flag

unfoldable pub is_one_way : Frame → Bool
is_one_way f = has_flag f.flags flag_one_way

unfoldable pub is_error : Frame → Bool
is_error f = has_flag f.flags flag_error

unfoldable pub is_heartbeat : Frame → Bool
is_heartbeat f =
    f.msg_type == message_heartbeat || (f.msg_type == message_ping || f.msg_type == message_pong)

-- An error is its text; `nil` is none.
unfoldable pub new_error_frame : ℕ → Option Bytes → Frame
unfolding new_frame
new_error_frame request_id e =
    let msg : Bytes = elim e [ none ↦ codes "unknown error" | some text ↦ text ] in
    let f = new_frame message_response request_id [] msg in
    record f { flags = set_flag f.flags flag_error }

abbrev pub rate_limited_text : Bytes
rate_limited_text = codes "rate limited"

abbrev pub handler_panic_text : Bytes
handler_panic_text = codes "handler panic"

-- The two sentinels, both wrapped with `ErrRemote`, and `*RemoteError`.
pub data Remote : Type 0 where
  rate_limited handler_panic : Remote
  remote : ℕ → Bytes → Remote

unfoldable pub remote_error_from_frame : Frame → Remote
remote_error_from_frame f =
    if same f.body rate_limited_text
    then rate_limited
    else if same f.body handler_panic_text
    then handler_panic
    else remote f.request_id f.body

-- `(*RemoteError).Error`, and the texts of the wrapped sentinels.
unfoldable pub error_text : Remote → Bytes
error_text rate_limited = codes "remote error: rate limited"
error_text handler_panic = codes "remote error: handler panic"
error_text (remote request_id []) = codes "remote error"
error_text (remote request_id (b ∷ s)) = b ∷ s

read_remote :
    (request_id : ℕ) (text : Bytes)
    → text ≢ rate_limited_text
    → text ≢ handler_panic_text
    → remote_error_from_frame (new_error_frame request_id (some text)) ≡ remote request_id text
unfolding new_error_frame remote_error_from_frame
read_remote request_id text h k =
    ground (arith, eq_of_same text rate_limited_text, eq_of_same text handler_panic_text)

-- The frame made of an error with a text is marked as an error, is no one-way message and no
-- heartbeat, and the client turns it into an error of the same text, unless the text is that of one
-- of the two sentinels.
pub error_frame_read_back :
    (request_id b : ℕ) (s : Bytes)
    → b ∷ s ≢ rate_limited_text
    → b ∷ s ≢ handler_panic_text
    → let f = new_error_frame request_id (some (b ∷ s)) in
      (is_error f ≡ true)
      × (is_one_way f ≡ false)
      × (is_heartbeat f ≡ false)
      × (remote_error_from_frame f ≡ remote request_id (b ∷ s))
      × (error_text (remote_error_from_frame f) ≡ b ∷ s)
unfolding new_error_frame is_error is_one_way is_heartbeat remote_error_from_frame error_text
error_frame_read_back request_id b s h k =
    let same_remote : remote_error_from_frame (new_error_frame request_id (some (b ∷ s)))
        ≡ remote request_id (b ∷ s) =
      read_remote request_id (b ∷ s) h k in
    (refl, refl, refl, same_remote, ap error_text same_remote)
