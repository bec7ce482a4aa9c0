-- ===== src/Net/Calls.antt =====
-- micro/net/stream.go: calls that share one connection. A function is what is done under the mutex of
-- the stream, with the sends behind it. Channels are numbers; `X` is the type of errors.
pub mod Routing
pub mod Matching
mod Tests
use soil.Base.{
  ℕ, ◌+◌, Bool, true, false, not, ◌&&◌, ◌||◌, Option, none, some, List, [], ◌∷◌, ◌++◌, ◌==◌,
  if◌then◌else◌,
}
use soil.Net.Frame.{Frame}

-- `rpcResult`
pub data RpcResult (X : Type 0) : Type 0 where
  arrived : Frame → RpcResult X
  failed : X → RpcResult X

-- `stream`: `pending` has request ids with their channels, `mail` the channels, of capacity 1, that
-- hold a result.
pub record Stream (X : Type 0) : Type 0 where
  pub pending : List (ℕ × ℕ)
  pub closed : Bool
  pub close_err : Option X
  pub mail : List (ℕ × RpcResult X)
  pub next_channel : ℕ

-- What `register` gives: a channel, `closeErr` or `errConnClosed`, or the error for an id in use.
pub data Registration (X : Type 0) : Type 0 where
  channel : ℕ → Registration X
  stream_closed : Option X → Registration X
  duplicate : Registration X

abbrev pub message_response : ℕ
message_response = 2

abbrev pub message_heartbeat : ℕ
message_heartbeat = 3

abbrev pub message_pong : ℕ
message_pong = 5

unfoldable pub channel_of : ℕ → List (ℕ × ℕ) → Option ℕ
channel_of id [] = none
channel_of id ((i, ch) ∷ ps) = let rest = channel_of id ps in if i == id then some ch else rest

-- `delete(s.pending, id)`
unfoldable pub drop_id : ℕ → List (ℕ × ℕ) → List (ℕ × ℕ)
drop_id id [] = []
drop_id id ((i, ch) ∷ ps) = let rest = drop_id id ps in if i == id then rest else (i, ch) ∷ rest

module _ {X : Type 0} where
  unfoldable pub new_stream : Stream X
  new_stream = record {
    pending = [];
    closed = false;
    close_err = none;
    mail = [];
    next_channel = 0;
  }

  unfoldable pub has_mail : ℕ → List (ℕ × RpcResult X) → Bool
  has_mail ch [] = false
  has_mail ch ((c, m) ∷ ms) = (c == ch) || has_mail ch ms

  -- `select { case ch <- res: default: }`
  unfoldable pub send : ℕ → RpcResult X → Stream X → Stream X
  unfolding has_mail
  send ch m s = if has_mail ch s.mail then s else record s { mail = (ch, m) ∷ s.mail }

  unfoldable pub send_found : ℕ → RpcResult X → Option ℕ → Stream X → Stream X
  unfolding send drop_id
  send_found id m none s = s
  send_found id m (some ch) s = send ch m (record s { pending = drop_id id s.pending })

  unfoldable pub dispatch : ℕ → RpcResult X → Stream X → Stream X
  unfolding send_found channel_of
  dispatch id m s = send_found id m (channel_of id s.pending) s

  unfoldable pub send_all : RpcResult X → List (ℕ × ℕ) → Stream X → Stream X
  unfolding send
  send_all m [] s = s
  send_all m ((id, ch) ∷ ps) s = send_all m ps (send ch m s)

  -- `failAll` with an error that is not nil.
  unfoldable pub fail_all : X → Stream X → Stream X
  unfolding send_all
  fail_all e s =
      let awake =
        send_all (failed e) s.pending
          (record s { closed = true; close_err = some e; pending = [] }) in
      if s.closed then s else awake

  unfoldable pub register_new : ℕ → Option ℕ → Stream X → Stream X × Registration X
  register_new id (some ch) s = (s, duplicate)
  register_new id none s = (
    record s { pending = (id, s.next_channel) ∷ s.pending; next_channel = s.next_channel + 1 },
    channel s.next_channel,
  )

  unfoldable pub register : ℕ → Stream X → Stream X × Registration X
  unfolding register_new channel_of
  register id s =
      if s.closed
      then (s, stream_closed s.close_err)
      else register_new id (channel_of id s.pending) s

  unfoldable pub unregister : ℕ → Stream X → Stream X
  unfolding drop_id
  unregister id s = record s { pending = drop_id id s.pending }

  -- The switch of `readLoop`. A ping is answered with a write, which leaves this state.
  unfoldable pub receive : Frame → Stream X → Stream X
  unfolding dispatch
  receive f s =
      let told = dispatch f.request_id (arrived f) s in
      if f.msg_type == message_pong
      then told
      else if (f.msg_type == message_heartbeat) && not (f.request_id == 0)
      then told
      else if f.msg_type == message_response
      then told
      else s

  unfoldable pub without_mail : ℕ → List (ℕ × RpcResult X) → List (ℕ × RpcResult X)
  without_mail ch [] = []
  without_mail ch ((c, m) ∷ ms) =
      let rest = without_mail ch ms in if c == ch then rest else (c, m) ∷ rest

  -- `res := <-ch` of a call or a ping, whose result is the mail of its channel.
  unfoldable pub take_mail : ℕ → Stream X → Stream X
  unfolding without_mail
  take_mail ch s = record s { mail = without_mail ch s.mail }
