-- ===== src/Net/Server/Tests.antt =====
-- A run of a server with one request, and the theorems at it.
use soil.Base.{arith, ℕ, ◌≡◌, ◌≤◌, refl, true, false, [], ◌∷◌, codes, All}
use soil.Net.Frame.{Frame, new_frame}
use soil.Net.Frame.Remote.{message_response}
use soil.Net.Server.{
  Server, Conn, new_server, new_conn, accept, put_conn, store_conn, check_closed, loop_top,
  take_frame, take_frame_at, handle_request, handle_request_at, end_loop, leave_at, request_done,
  echo_handler, message_request,
}
use soil.Net.Server.Steps.{
  accepting, storing, checking, turning, failing, taking, handling, going, finishing, Reachable,
  new, after,
}
use soil.Net.Server.Counts.{sum_by, is_wanted, is_for}
use soil.Net.Server.Sound.{IsSound, Reachable-IsSound, Reachable-waited}

abbrev request : Frame
request = new_frame message_request 7 [] (codes "hi")

abbrev accepted : Server
accepted = (accept (new_server 1)).0

abbrev begun : Server
begun = put_conn 0 (store_conn new_conn) accepted

abbrev checked : Conn
checked = check_closed false (store_conn new_conn)

abbrev turned : Conn
turned = loop_top false checked

abbrev before_frame : Server
before_frame = put_conn 0 turned (put_conn 0 checked begun)

abbrev taken : Conn
taken = take_frame false true true request turned

abbrev behind_frame : Server
behind_frame = take_frame_at 0 true true request turned before_frame

abbrev handled : Conn
handled = handle_request 0 request (echo_handler request) true taken

abbrev answered : Server
answered = handle_request_at 0 0 request (echo_handler request) true taken behind_frame

abbrev ended : Server
ended =
    put_conn 0 (end_loop (loop_top false handled)) (put_conn 0 (loop_top false handled) answered)

abbrev over : Server
over = request_done (leave_at 0 (end_loop (loop_top false handled)) ended)

replied : handled.handed ≡ new_frame message_response 7 [] (codes "hi") ∷ []
unfolding take_frame handle_request check_closed loop_top store_conn new_frame echo_handler
    soil.Net.Frame.Remote.is_heartbeat soil.Net.Frame.Remote.is_one_way
replied = refl

answered_run : Reachable answered
unfolding new_server accept put_conn store_conn check_closed loop_top take_frame_at take_frame
    new_frame handle_request_at handle_request soil.Net.Frame.Remote.is_heartbeat
answered_run =
    after behind_frame answered
      (after before_frame behind_frame
        (after (put_conn 0 checked begun) before_frame
          (after begun (put_conn 0 checked begun)
            (after accepted begun (after (new_server 1) accepted (new 1) (accepting (new_server 1)))
              (storing accepted 0 new_conn refl refl))
            (checking begun 0 (store_conn new_conn) refl refl))
          (turning (put_conn 0 checked begun) 0 checked refl refl))
        (taking before_frame 0 turned true true request refl refl))
      (handling behind_frame 0 0 taken request (echo_handler request) true refl refl)

Reachable-IsSound_example : IsSound answered
Reachable-IsSound_example = Reachable-IsSound answered_run

over_run : Reachable over
unfolding new_server accept put_conn store_conn check_closed loop_top take_frame_at take_frame
    new_frame handle_request_at handle_request soil.Net.Frame.Remote.is_heartbeat end_loop leave_at
    soil.Net.Frame.Remote.is_one_way
over_run =
    after (leave_at 0 (end_loop (loop_top false handled)) ended) over
      (after ended (leave_at 0 (end_loop (loop_top false handled)) ended)
        (after (put_conn 0 (loop_top false handled) answered) ended
          (after answered (put_conn 0 (loop_top false handled) answered) answered_run
            (turning answered 0 handled refl refl))
          (failing (put_conn 0 (loop_top false handled) answered) 0 (loop_top false handled) refl
            refl))
        (going ended 0 (end_loop (loop_top false handled)) refl refl refl))
      (finishing (leave_at 0 (end_loop (loop_top false handled)) ended) (omega arith))

Reachable-waited_example :
    (over.conns ≡ [])
    × (over.late ≡ 0)
    × All (λ c. (k : ℕ) → sum_by (is_wanted k) c.read ≤ sum_by (is_for k) c.handed) over.ending
    × All (λ c. (k : ℕ) → sum_by (is_wanted k) c.read ≤ sum_by (is_for k) c.handed) over.gone
unfolding new_server accept take_frame_at handle_request_at leave_at new_frame
    soil.Net.Frame.Remote.is_heartbeat loop_top check_closed store_conn request_done
Reachable-waited_example = Reachable-waited over_run refl
