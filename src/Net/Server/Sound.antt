-- ===== src/Net/Server/Sound.antt =====
-- micro/net/server.go: what holds of a server however its goroutines interleave.
use soil.Base.{
  ℕ, ◌<◌, zero, suc, ◌+◌, ◌≤◌, ◌≡◌, refl, ap, Bool, some, List, [], ◌∷◌, length, set, get_elem?,
  All, All-map, arith, by_cases, ltb, ltb→lt, subst,
}
use soil.Net.Frame.{Frame}
use soil.Net.Server.{
  Server, Conn, new_server, accept, put_conn, store_conn, check_closed, loop_top, end_loop,
  take_frame_at, Handled, handle_request_at, leave_at, release_at, request_done, close_server,
  begin_drain, without,
}
use soil.Net.Server.Steps.{
  Step, accepting, storing, checking, turning, failing, taking, handling, going, finishing,
  releasing, closing, draining, Reachable, new, after,
}
use soil.Net.Server.Counts.{
  sum_by, sum_by-set, sum_by-without, length-set, length-without, IsAnswered, is_wanted, is_for,
  is_open, take_frame-IsAnswered, handle_request-IsAnswered, loop_top-IsAnswered,
  check_closed-IsAnswered, new-IsAnswered, serving-take_frame, serving-handle_request,
}

-- The frames of a connection are answered, by each id.
pub Answers : Conn → Type 0
Answers c = (k : ℕ) → IsAnswered k c

abbrev pub IsFinished : Conn → Type 0
IsFinished c = (c.serving ≡ []) × Answers c

abbrev pub under_way : Conn → ℕ
under_way c = length c.serving

-- The semaphore counts the connections, which are not too many, and the wait group the goroutines of
-- connections and requests. For each frame that wants one a reply is handed to sendFrame or to come, and
-- a connection ends only when all of its are.
pub record IsSound (s : Server) : Type 0 where
  pub slots : s.sem ≡ length s.conns + length s.ending
  pub limit : s.sem ≤ s.max_conns
  pub waits : s.wg ≡ length s.conns + sum_by under_way s.conns + s.late
  pub answered : All Answers s.conns
  pub ended : All IsFinished s.ending
  pub finished : All IsFinished s.gone

module _ {A : Type 0} (P : A → Type 0) where
  All-set : (xs : List A) (i : ℕ) (v : A) → All P xs → P v → All P (set xs i v)
  All-set [] i v a p = tt
  All-set (x ∷ xs) zero v a p = (p, a.1)
  All-set (x ∷ xs) (suc i) v a p = (a.0, All-set xs i v a.1 p)

  All-get : (xs : List A) (i : ℕ) (v : A) → All P xs → get_elem? xs i ≡ some v → P v
  All-get [] i v a h = cc
  All-get (x ∷ xs) zero v a h = subst P (cc) a.0
  All-get (x ∷ xs) (suc i) v a h = All-get xs i v a.1 h

  All-without : (xs : List A) (i : ℕ) → All P xs → All P (without i xs)
  unfolding without
  All-without [] i a = tt
  All-without (x ∷ xs) zero a = a.1
  All-without (x ∷ xs) (suc i) a = (a.0, All-without xs i a.1)

module _ (s : Server) (i : ℕ) (c : Conn) (h : IsSound s)
    (found : get_elem? s.conns i ≡ some c) where
  before : Answers c
  before = All-get Answers s.conns i c h.answered found

  changed-IsSound :
      (c' : Conn) (wg' late' : ℕ)
      → Answers c'
      → wg' + length c.serving + s.late ≡ s.wg + length c'.serving + late'
      → IsSound (record s { wg = wg'; late = late'; conns = set s.conns i c' })
  changed-IsSound c' wg' late' a e = record {
    slots = omega (arith, h.slots, length-set s.conns i c');
    limit = h.limit;
    waits =
        omega (arith, h.waits, length-set s.conns i c', sum_by-set under_way s.conns i c c' found);
    answered = All-set Answers s.conns i c' h.answered a;
    ended = h.ended;
    finished = h.finished;
  }

  put_conn-IsSound : (c' : Conn) → Answers c' → c'.serving ≡ c.serving → IsSound (put_conn i c' s)
  unfolding put_conn
  put_conn-IsSound c' a e = changed-IsSound c' s.wg s.late a (rw e)

  take_frame_at-IsSound :
      (allowed is_sent : Bool) (f : Frame) → IsSound (take_frame_at i allowed is_sent f c s)
  unfolding take_frame_at Answers
  take_frame_at-IsSound allowed is_sent f =
      changed-IsSound _ _ _ (λ k. take_frame-IsAnswered k s.closed allowed is_sent f c (before k))
        (omega (arith, serving-take_frame s.closed allowed is_sent f c))

  handle_request_at-IsSound :
      (j : ℕ) (f : Frame) (handled : Handled) (is_sent : Bool)
      → get_elem? c.serving j ≡ some f
      → IsSound (handle_request_at i j f handled is_sent c s)
  unfolding handle_request_at Answers
  handle_request_at-IsSound j f handled is_sent open_now =
      changed-IsSound _ _ _
        (λ k. handle_request-IsAnswered k j f handled is_sent c open_now (before k))
        (omega (
          arith,
          serving-handle_request j f handled is_sent c open_now,
          h.waits,
          length-without s.conns i c found,
        ))

  leave_at-IsSound : c.serving ≡ [] → IsSound (leave_at i c s)
  unfolding leave_at
  leave_at-IsSound done =
      let fewer = length-without s.conns i c found in
      record {
        slots = omega (arith, h.slots, fewer);
        limit = h.limit;
        waits =
            omega
              (arith, h.waits, fewer, sum_by-without under_way s.conns i c found, ap length done);
        answered = All-without Answers s.conns i h.answered;
        ended = ((done, before), h.ended);
        finished = h.finished;
      }

release_at-IsSound :
    (s : Server) (i : ℕ) (c : Conn)
    → IsSound s
    → get_elem? s.ending i ≡ some c
    → IsSound (release_at i c s)
unfolding release_at
release_at-IsSound s i c h found = record {
  slots = omega (arith, h.slots, length-without s.ending i c found);
  limit = omega (arith, h.limit);
  waits = h.waits;
  answered = h.answered;
  ended = All-without IsFinished s.ending i h.ended;
  finished = (All-get IsFinished s.ending i c h.ended found, h.finished);
}

request_done-IsSound : (s : Server) → IsSound s → 0 < s.late → IsSound (request_done s)
unfolding request_done
request_done-IsSound s h some_late = record {
  slots = h.slots;
  limit = h.limit;
  waits = omega (arith, h.waits);
  answered = h.answered;
  ended = h.ended;
  finished = h.finished;
}

accept-IsSound : (s : Server) → IsSound s → IsSound (accept s).0
unfolding accept
accept-IsSound s h =
    by_cases (λ (out : Server × Bool). IsSound out.0) (ltb s.sem s.max_conns) _ _
      (λ e. record {
        slots = omega (arith, h.slots);
        limit = omega (arith, ltb→lt s.sem s.max_conns e);
        waits = unfold sum_by in omega (arith, h.waits);
        answered = (unfold Answers in (λ k. new-IsAnswered k), h.answered);
        ended = h.ended;
        finished = h.finished;
      })
      (λ e. h)

close_server-IsSound : (s : Server) → IsSound s → IsSound (close_server s).0
unfolding close_server
close_server-IsSound s h =
    by_cases (λ (out : Server × Bool). IsSound out.0) s.closed _ _ (λ e. h)
      (λ e. record {
        slots = h.slots;
        limit = h.limit;
        waits = h.waits;
        answered = h.answered;
        ended = h.ended;
        finished = h.finished;
      })

loop_top_serving : (closed : Bool) (c : Conn) → (loop_top closed c).serving ≡ c.serving
unfolding loop_top
loop_top_serving closed c =
    by_cases (λ (d : Conn). d.serving ≡ c.serving) _ _ _ (λ e. refl) (λ e. refl)

check_closed_serving : (closed : Bool) (c : Conn) → (check_closed closed c).serving ≡ c.serving
unfolding check_closed
check_closed_serving closed c =
    by_cases (λ (d : Conn). d.serving ≡ c.serving) closed _ _ (λ e. refl) (λ e. refl)

-- A change of the phase or of the mark alone.
same_frames :
    (c c' : Conn)
    → c'.read ≡ c.read
    → c'.serving ≡ c.serving
    → c'.handed ≡ c.handed
    → c'.written ≡ c.written
    → Answers c
    → Answers c'
unfolding Answers
same_frames c c' e f g i a k = record {
  lower = rw (e, f, g) (a k).lower;
  upper = rw (e, f, g) (a k).upper;
  wrote = rw (g, i) (a k).wrote;
}

Step-IsSound : {a b : Server} → Step a b → IsSound a → IsSound b
unfolding store_conn end_loop begin_drain
Step-IsSound (accepting s) h = accept-IsSound s h
Step-IsSound (storing s i c found p) h =
    put_conn-IsSound s i c h found _ (same_frames c _ refl refl refl refl (before s i c h found))
      refl
Step-IsSound (checking s i c found p) h =
    put_conn-IsSound s i c h found _
      (unfold Answers in λ k. check_closed-IsAnswered k s.closed c (before s i c h found k))
      (check_closed_serving s.closed c)
Step-IsSound (turning s i c found p) h =
    put_conn-IsSound s i c h found _
      (unfold Answers in λ k. loop_top-IsAnswered k s.closed c (before s i c h found k))
      (loop_top_serving s.closed c)
Step-IsSound (failing s i c found p) h =
    put_conn-IsSound s i c h found _ (same_frames c _ refl refl refl refl (before s i c h found))
      refl
Step-IsSound (taking s i c allowed is_sent f found p) h =
    take_frame_at-IsSound s i c h found allowed is_sent f
Step-IsSound (handling s i j c f handled is_sent found p) h =
    handle_request_at-IsSound s i c h found j f handled is_sent p
Step-IsSound (going s i c found p done) h = leave_at-IsSound s i c h found done
Step-IsSound (finishing s p) h = request_done-IsSound s h p
Step-IsSound (releasing s i c found) h = release_at-IsSound s i c h found
Step-IsSound (closing s) h = close_server-IsSound s h
Step-IsSound (draining s i c found p q) h =
    put_conn-IsSound s i c h found _ (same_frames c _ refl refl refl refl (before s i c h found))
      refl

new_server-IsSound : (max_conns : ℕ) → IsSound (new_server max_conns)
unfolding new_server sum_by
new_server-IsSound max_conns = record {
  slots = refl;
  limit = omega arith;
  waits = omega arith;
  answered = tt;
  ended = tt;
  finished = tt;
}

-- However the goroutines of a server interleave, and whatever frames come, the limiter decides and the
-- handler does: the semaphore counts the connections, which are never more than allowed; the wait group
-- counts the goroutines; on each connection, for every ping and every request that is not one-way a reply
-- has been handed to sendFrame, whether or not it could be written, or the request is being handled; for
-- no frame there is more than one, written or not; and a connection that is gone has no request under way.
pub Reachable-IsSound : {s : Server} → Reachable s → IsSound s
Reachable-IsSound (new max_conns) = new_server-IsSound max_conns
Reachable-IsSound (after a b r st) = Step-IsSound st (Reachable-IsSound r)

nil_of_length : {A : Type 0} (xs : List A) → length xs ≡ 0 → xs ≡ []
nil_of_length [] h = refl
nil_of_length (x ∷ xs) h = absurd (omega arith)

finished_lower :
    (c : Conn) → IsFinished c → (k : ℕ) → sum_by (is_wanted k) c.read ≤ sum_by (is_for k) c.handed
unfolding Answers sum_by
finished_lower c (done, a) k = omega (arith, (a k).lower, ap (sum_by (is_open k)) done)

-- The wait that `Shutdown` ends without an error is over only when no goroutine of a connection or of a
-- request is left before its end, and for each ping and each request that is not one-way that was read
-- from any connection a reply has been handed to sendFrame, whether or not it could be written.
pub Reachable-waited :
    {s : Server}
    → Reachable s
    → s.wg ≡ 0
    → (s.conns ≡ [])
      × (s.late ≡ 0)
      × All (λ c. (k : ℕ) → sum_by (is_wanted k) c.read ≤ sum_by (is_for k) c.handed) s.ending
      × All (λ c. (k : ℕ) → sum_by (is_wanted k) c.read ≤ sum_by (is_for k) c.handed) s.gone
Reachable-waited r done =
    let h = Reachable-IsSound r in
    (
      nil_of_length _ (omega (arith, h.waits, done)),
      omega (arith, h.waits, done),
      All-map finished_lower _ h.ended,
      All-map finished_lower _ h.finished,
    )
