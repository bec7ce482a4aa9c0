-- ===== src/Net/Server.antt =====
-- micro/net/server.go with `EchoHandler` and `Chain` of micro/net/handler.go: what the goroutines of a
-- server do to its semaphore, its wait group and its connections. Deadlines, TLS, logs and metrics are
-- left out; the frames, the rate limiter's verdicts, the handler's results and whether a write
-- succeeds are arguments.
pub mod Steps
pub mod Counts
pub mod Sound
mod Tests
use soil.Base.{
  ℕ, zero, suc, ◌+◌, ◌-◌, Bool, true, false, not, ◌&&◌, ◌||◌, Option, none, some, List, [], ◌∷◌,
  ◌++◌, Bytes, codes, ltb, ◌==◌, set, if◌then◌else◌,
}
use soil.Net.Frame.{Frame, new_frame}
use soil.Net.Frame.Remote.{
  message_response, message_heartbeat, message_ping, message_pong, is_one_way, is_heartbeat,
  new_error_frame, rate_limited_text, handler_panic_text,
}

-- `MessageTypeRequest`
abbrev pub message_request : ℕ
message_request = 1

-- How far the goroutine of a connection is: before `conns.Store`, before the first look at `closed`,
-- at the top of the loop, before the frame that it reads, and in the deferred function.
pub data Phase : Type 0 where
  starting stored looping reading leaving : Phase

-- `connSlot` with its connection: the frames that have been read, those that were handed to
-- `sendFrame` and those that it has written, the last ones first, and the requests of the goroutines that `reqWg` counts.
pub record Conn : Type 0 where
  pub phase : Phase
  pub draining : Bool
  pub read : List Frame
  pub serving : List Frame
  pub handed : List Frame
  pub written : List Frame

-- `Server`; the semaphore and the wait group are counters. `late` counts the requests that have left
-- the `reqWg` of their connection and not yet the wait group, `ending` has the connections that have
-- left the wait group and not yet the semaphore, and `gone` those behind.
pub record Server : Type 0 where
  pub max_conns : ℕ
  pub closed : Bool
  pub sem : ℕ
  pub wg : ℕ
  pub late : ℕ
  pub conns : List Conn
  pub ending : List Conn
  pub gone : List Conn

unfoldable pub new_server : ℕ → Server
new_server max_conns = record {
  max_conns = max_conns;
  closed = false;
  sem = 0;
  wg = 0;
  late = 0;
  conns = [];
  ending = [];
  gone = [];
}

abbrev pub new_conn : Conn
new_conn = record {
  phase = starting;
  draining = false;
  read = [];
  serving = [];
  handed = [];
  written = [];
}

-- The `select` of `Start` for a connection: whether it is taken, or closed at once.
unfoldable pub accept : Server → Server × Bool
accept s =
    if ltb s.sem s.max_conns
    then (record s { sem = s.sem + 1; wg = s.wg + 1; conns = new_conn ∷ s.conns }, true)
    else (s, false)

-- What a goroutine does to its own connection.
unfoldable pub put_conn : ℕ → Conn → Server → Server
put_conn i c s = record s { conns = set s.conns i c }

unfoldable pub begin_drain : Conn → Conn
begin_drain c = record c { draining = true }

unfoldable pub store_conn : Conn → Conn
store_conn c = record c { phase = stored }

unfoldable pub end_loop : Conn → Conn
end_loop c = record c { phase = leaving }

-- The look at `closed` before the loop.
unfoldable pub check_closed : Bool → Conn → Conn
unfolding begin_drain end_loop
check_closed closed c = if closed then end_loop (begin_drain c) else record c { phase = looping }

-- The top of the loop.
unfoldable pub loop_top : Bool → Conn → Conn
unfolding begin_drain end_loop
loop_top closed c =
    if closed || c.draining then end_loop (begin_drain c) else record c { phase = reading }

-- `sendFrame`, which writes the frame unless Encode refuses it or the connection fails.
unfoldable pub send_frame : Bool → Frame → Conn → Conn
send_frame is_sent f c = record c {
  handed = f ∷ c.handed;
  written = if is_sent then f ∷ c.written else c.written;
}

-- `sendFrame` whose error ends the loop.
unfoldable pub send_or_leave : Bool → Frame → Conn → Conn
unfolding send_frame end_loop
send_or_leave is_sent f c =
    let c' = send_frame is_sent f c in
    if is_sent then record c' { phase = looping } else end_loop c'

unfoldable pub is_ping : Frame → Bool
is_ping f = (f.msg_type == message_ping) || (f.msg_type == message_heartbeat)

unfoldable pub answer_ping : Bool → Frame → Conn → Conn
unfolding is_ping send_or_leave
answer_ping is_sent f c =
    if is_ping f
    then send_or_leave is_sent (new_frame message_pong f.request_id [] []) c
    else record c { phase = looping }

-- The end of a round of the loop, with a request.
unfoldable pub take_request : (closed allowed is_sent : Bool) → Frame → Conn → Conn
unfolding send_frame end_loop
take_request closed allowed is_sent f c =
    if c.draining || closed
    then end_loop
        (send_frame is_sent (new_error_frame f.request_id (some (codes "server draining"))) c)
    else if not allowed
    then record (send_frame is_sent (new_error_frame f.request_id (some rate_limited_text)) c) {
      phase = looping;
    }
    else record c { phase = looping; serving = f ∷ c.serving }

-- A round of the loop once a frame has been read.
unfoldable pub take_frame : (closed allowed is_sent : Bool) → Frame → Conn → Conn
unfolding answer_ping take_request
take_frame closed allowed is_sent f c =
    let c' = record c { read = f ∷ c.read } in
    if is_heartbeat f
    then answer_ping is_sent f c'
    else if not (f.msg_type == message_request)
    then record c' { phase = looping }
    else take_request closed allowed is_sent f c'

-- `wg.Add(1)` comes with each goroutine for a request.
abbrev pub is_taken : (closed allowed : Bool) → Frame → Conn → Bool
is_taken closed allowed f c =
    not (is_heartbeat f) && (f.msg_type == message_request) && not (c.draining || closed) && allowed

abbrev pub one_if : Bool → ℕ
one_if true = 1
one_if false = 0

unfoldable pub take_frame_at : ℕ → (allowed is_sent : Bool) → Frame → Conn → Server → Server
unfolding put_conn take_frame
take_frame_at i allowed is_sent f c s =
    let s' = put_conn i (take_frame s.closed allowed is_sent f c) s in
    record s' { wg = s'.wg + one_if (is_taken s.closed allowed f c) }

-- What the handler makes of a request; `safeHandle` turns its panic into an error.
pub data Handled : Type 0 where
  failed : Bytes → Handled
  panicked no_response : Handled
  response : (header body : Bytes) → Option Bytes → Handled

-- The frame of `handleRequest` for the request.
unfoldable pub reply_frame : ℕ → Handled → Frame
reply_frame id (failed e) = new_error_frame id (some e)
reply_frame id panicked = new_error_frame id (some handler_panic_text)
reply_frame id no_response = new_frame message_response id [] []
reply_frame id (response header body (some e)) = new_error_frame id (some e)
reply_frame id (response header body none) = new_frame message_response id header body

unfoldable pub without : {A : Type 0} → ℕ → List A → List A
without i [] = []
without zero (x ∷ xs) = xs
without (suc i) (x ∷ xs) = x ∷ without i xs

-- `handleRequest` for a request that is under way.
unfoldable pub handle_request : ℕ → Frame → Handled → Bool → Conn → Conn
unfolding reply_frame without send_frame
handle_request j f handled is_sent c =
    let c' = record c { serving = without j c.serving } in
    if is_one_way f then c' else send_frame is_sent (reply_frame f.request_id handled) c'

unfoldable pub handle_request_at : (i j : ℕ) → Frame → Handled → Bool → Conn → Server → Server
unfolding put_conn handle_request
handle_request_at i j f handled is_sent c s =
    let s' = put_conn i (handle_request j f handled is_sent c) s in record s' { late = s'.late + 1 }

-- The deferred `wg.Done()` of a request, which runs last.
unfoldable pub request_done : Server → Server
request_done s = record s { wg = s.wg - 1; late = s.late - 1 }

-- The deferred function of `handleConn` behind `reqWg.Wait()`: the wait group, then the semaphore and
-- the rest.
unfoldable pub leave_at : ℕ → Conn → Server → Server
unfolding without
leave_at i c s = record s { wg = s.wg - 1; conns = without i s.conns; ending = c ∷ s.ending }

unfoldable pub release_at : ℕ → Conn → Server → Server
unfolding without
release_at i c s = record s { sem = s.sem - 1; ending = without i s.ending; gone = c ∷ s.gone }

-- `Shutdown` up to the range over the connections; whether it is the first one.
unfoldable pub close_server : Server → Server × Bool
close_server s = if s.closed then (s, false) else (record s { closed = true }, true)

-- `Chain`, and `buildHandler` with it.
unfoldable pub chain : {H : Type 0} → H → List (H → H) → H
chain h [] = h
chain h (m ∷ ms) = m (chain h ms)

-- `EchoHandler`
unfoldable pub echo_handler : Frame → Handled
echo_handler f = response f.header f.body none
