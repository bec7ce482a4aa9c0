-- ===== src/Net/Server/Steps.antt =====
-- micro/net/server.go: the server and its goroutines as a step relation. A step is what a goroutine
-- does between two looks at the shared state; shutting down marks the connections one by one.
use soil.Base.{ℕ, ◌<◌, ◌≡◌, ◌≢◌, Bool, true, some, [], get_elem?}
use soil.Net.Frame.{Frame}
use soil.Net.Server.{
  Server, Conn, starting, stored, looping, reading, leaving, new_server, request_done, release_at,
  accept, put_conn, store_conn, check_closed, loop_top, end_loop, take_frame_at, Handled,
  handle_request_at, leave_at, close_server, begin_drain,
}

pub data Step : Server → Server → Type 0 where
  accepting : (s : Server) → Step s (accept s).0
  storing :
      (s : Server) (i : ℕ) (c : Conn)
      → get_elem? s.conns i ≡ some c
      → c.phase ≡ starting
      → Step s (put_conn i (store_conn c) s)
  checking :
      (s : Server) (i : ℕ) (c : Conn)
      → get_elem? s.conns i ≡ some c
      → c.phase ≡ stored
      → Step s (put_conn i (check_closed s.closed c) s)
  turning :
      (s : Server) (i : ℕ) (c : Conn)
      → get_elem? s.conns i ≡ some c
      → c.phase ≡ looping
      → Step s (put_conn i (loop_top s.closed c) s)
  failing :
      (s : Server) (i : ℕ) (c : Conn)
      → get_elem? s.conns i ≡ some c
      → c.phase ≡ reading
      → Step s (put_conn i (end_loop c) s)
  taking :
      (s : Server) (i : ℕ) (c : Conn) (allowed is_sent : Bool) (f : Frame)
      → get_elem? s.conns i ≡ some c
      → c.phase ≡ reading
      → Step s (take_frame_at i allowed is_sent f c s)
  handling :
      (s : Server) (i j : ℕ) (c : Conn) (f : Frame) (handled : Handled) (is_sent : Bool)
      → get_elem? s.conns i ≡ some c
      → get_elem? c.serving j ≡ some f
      → Step s (handle_request_at i j f handled is_sent c s)
  going :
      (s : Server) (i : ℕ) (c : Conn)
      → get_elem? s.conns i ≡ some c
      → c.phase ≡ leaving
      → c.serving ≡ []
      → Step s (leave_at i c s)
  finishing : (s : Server) → 0 < s.late → Step s (request_done s)
  releasing :
      (s : Server) (i : ℕ) (c : Conn) → get_elem? s.ending i ≡ some c → Step s (release_at i c s)
  closing : (s : Server) → Step s (close_server s).0
  draining :
      (s : Server) (i : ℕ) (c : Conn)
      → get_elem? s.conns i ≡ some c
      → s.closed ≡ true
      → c.phase ≢ starting
      → Step s (put_conn i (begin_drain c) s)

pub data Reachable : Server → Type 0 where
  new : (max_conns : ℕ) → Reachable (new_server max_conns)
  after : (a b : Server) → Reachable a → Step a b → Reachable b
