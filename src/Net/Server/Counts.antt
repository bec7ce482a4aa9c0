-- ===== src/Net/Server/Counts.antt =====
-- micro/net/server.go: the counts of requests and replies on a connection.
use soil.Base.{
  ℕ, zero, suc, ◌+◌, ◌≤◌, ◌≡◌, refl, ap, Bool, not, ◌&&◌, ◌||◌, some, List, [], ◌∷◌, length, set,
  get_elem?, by_cases, none, arith, ◌==◌, if◌then◌else◌,
}
use soil.Net.Frame.{Frame, new_frame}
use soil.Net.Frame.Remote.{is_one_way, is_heartbeat, new_error_frame}
use soil.Net.Server.{
  Conn, new_conn, message_request, check_closed, loop_top, is_ping, take_frame, is_taken, one_if,
  handle_request, reply_frame, Handled, failed, panicked, no_response, response, without,
}

module _ {A : Type 0} (weight : A → ℕ) where
  unfoldable pub sum_by : List A → ℕ
  sum_by [] = 0
  sum_by (x ∷ xs) = weight x + sum_by xs

  pub sum_by-set :
      (xs : List A) (i : ℕ) (old v : A)
      → get_elem? xs i ≡ some old
      → sum_by (set xs i v) + weight old ≡ sum_by xs + weight v
  unfolding sum_by
  sum_by-set [] i old v h = cc
  sum_by-set (x ∷ xs) zero old v h = ground arith
  sum_by-set (x ∷ xs) (suc i) old v h = omega (arith, sum_by-set xs i old v h)

  pub sum_by-without :
      (xs : List A) (i : ℕ) (old : A)
      → get_elem? xs i ≡ some old
      → sum_by (without i xs) + weight old ≡ sum_by xs
  unfolding sum_by without
  sum_by-without [] i old h = cc
  sum_by-without (x ∷ xs) zero old h = ground arith
  sum_by-without (x ∷ xs) (suc i) old h = omega (arith, sum_by-without xs i old h)

pub length-set : {A : Type 0} (xs : List A) (i : ℕ) (v : A) → length (set xs i v) ≡ length xs
length-set [] i v = refl
length-set (x ∷ xs) zero v = refl
length-set (x ∷ xs) (suc i) v = ap suc (length-set xs i v)

pub length-without :
    {A : Type 0} (xs : List A) (i : ℕ) (old : A)
    → get_elem? xs i ≡ some old
    → length (without i xs) + 1 ≡ length xs
unfolding without
length-without [] i old h = cc
length-without (x ∷ xs) zero old h = omega arith
length-without (x ∷ xs) (suc i) old h = omega (arith, length-without xs i old h)

-- The frames that want a reply: pings, and requests that are not one-way.
unfoldable pub wants : Frame → Bool
wants f =
    if is_heartbeat f then is_ping f else (f.msg_type == message_request) && not (is_one_way f)

module _ (k : ℕ) where
  unfoldable pub is_for : Frame → ℕ
  is_for f = one_if (f.request_id == k)

  unfoldable pub is_wanted : Frame → ℕ
  is_wanted f = if wants f then is_for f else 0

  unfoldable pub is_open : Frame → ℕ
  is_open f = if is_one_way f then 0 else is_for f

  -- With the id `k`: for each frame that wants a reply one has been handed to sendFrame, or the frame is
  -- being handled, and for no frame more than one has; what is written is among these.
  pub record IsAnswered (c : Conn) : Type 0 where
    pub lower : sum_by is_wanted c.read ≤ sum_by is_for c.handed + sum_by is_open c.serving
    pub upper : sum_by is_for c.handed + sum_by is_open c.serving ≤ sum_by is_for c.read
    pub wrote : sum_by is_for c.written ≤ sum_by is_for c.handed

  pub take_frame-IsAnswered :
      (closed allowed is_sent : Bool) (f : Frame) (c : Conn)
      → IsAnswered c
      → IsAnswered (take_frame closed allowed is_sent f c)
  unfolding take_frame new_error_frame sum_by is_wanted is_open wants is_for
  take_frame-IsAnswered closed allowed is_sent f c h = record {
    lower = ground (arith, h.lower);
    upper = ground (arith, h.upper);
    wrote = ground (arith, h.wrote);
  }

  reply_frame-id : (id : ℕ) (handled : Handled) → (reply_frame id handled).request_id ≡ id
  unfolding reply_frame new_error_frame new_frame
  reply_frame-id id (failed e) = refl
  reply_frame-id id panicked = refl
  reply_frame-id id no_response = refl
  reply_frame-id id (response header body (some e)) = refl
  reply_frame-id id (response header body none) = refl

  pub handle_request-IsAnswered :
      (j : ℕ) (f : Frame) (handled : Handled) (is_sent : Bool) (c : Conn)
      → get_elem? c.serving j ≡ some f
      → IsAnswered c
      → IsAnswered (handle_request j f handled is_sent c)
  unfolding handle_request sum_by is_open is_for
  handle_request-IsAnswered j f handled is_sent c found h =
      let removed = sum_by-without is_open c.serving j f found in
      record {
        lower = ground (arith, h.lower, removed, reply_frame-id f.request_id handled);
        upper = ground (arith, h.upper, removed, reply_frame-id f.request_id handled);
        wrote = ground (arith, h.wrote);
      }

  pub loop_top-IsAnswered :
      (closed : Bool) (c : Conn) → IsAnswered c → IsAnswered (loop_top closed c)
  unfolding loop_top
  loop_top-IsAnswered closed c h =
      by_cases IsAnswered (closed || c.draining) _ _
        (λ e. record { lower = h.lower; upper = h.upper; wrote = h.wrote })
        (λ e. record { lower = h.lower; upper = h.upper; wrote = h.wrote })

  pub check_closed-IsAnswered :
      (closed : Bool) (c : Conn) → IsAnswered c → IsAnswered (check_closed closed c)
  unfolding check_closed
  check_closed-IsAnswered closed c h =
      by_cases IsAnswered closed _ _
        (λ e. record { lower = h.lower; upper = h.upper; wrote = h.wrote })
        (λ e. record { lower = h.lower; upper = h.upper; wrote = h.wrote })

  pub new-IsAnswered : IsAnswered new_conn
  unfolding sum_by
  new-IsAnswered = record { lower = omega arith; upper = omega arith; wrote = omega arith }

-- A round of the loop adds a request under way exactly if it adds to the wait group.
pub serving-take_frame :
    (closed allowed is_sent : Bool) (f : Frame) (c : Conn)
    → length (take_frame closed allowed is_sent f c).serving
      ≡ length c.serving + one_if (is_taken closed allowed f c)
unfolding take_frame
serving-take_frame closed allowed is_sent f c = ground arith

pub serving-handle_request :
    (j : ℕ) (f : Frame) (handled : Handled) (is_sent : Bool) (c : Conn)
    → get_elem? c.serving j ≡ some f
    → length (handle_request j f handled is_sent c).serving + 1 ≡ length c.serving
unfolding handle_request
serving-handle_request j f handled is_sent c found =
    ground (arith, length-without c.serving j f found)
