-- ===== src/Pool/Steps.antt =====
-- micro/pool/pool.go: the calls that run side by side, as steps. Each step is what one call does
-- while it holds the mutex, or the swap of `returned` with what the mutex guards behind it.
-- A client uses only a connection that it has: once it has given one back, the object may already be
-- another connection, which is idle or in use. Package sync hands out no object that is active.
use soil.Base.{ℕ, suc, ◌≡◌, Bool, true, false, List, ◌∷◌, ◌++◌}
use soil.Pool.{
  PoolConn, Config, Pool, Task, dialing, pinging, returning, closing, waiting, releasing, Progress,
  goes_on, got, refused, done, close_conn_locked, get, pinged, dialed, wake, put_conn, put_pinged,
  put_foreign, mark_unhealthy, mem, sweep, release_begin, release_end,
}

-- The pool, the tasks in hand, and how many foreign connections `Put` has been called with.
pub record World : Type 0 where
  pub pool : Pool
  pub tasks : List Task
  pub guests : ℕ

abbrev pub push : Progress → List Task → List Task
push (goes_on t) ts = t ∷ ts
push (got pc) ts = ts
push (refused e) ts = ts
push done ts = ts

abbrev pub after : Pool × Progress → List Task → ℕ → World
after r ts g = record { pool = r.0; tasks = push r.1 ts; guests = g }

abbrev pub quiet : Pool → List Task → ℕ → World
quiet p ts g = record { pool = p; tasks = ts; guests = g }

-- One task is taken out of a list.
pub data Drawn : List Task → Task → List Task → Type 0 where
  here : {t : Task} {ts : List Task} → Drawn (t ∷ ts) t ts
  there : {t u : Task} {ts us : List Task} → Drawn ts t us → Drawn (u ∷ ts) t (u ∷ us)

pub data Step (c : Config) : World → World → Type 0 where
  gets :
      {p : Pool} {ts : List Task} {g : ℕ} (now : ℕ)
      → Step c (quiet p ts g) (after (get c now p) ts g)
  get_pinged :
      {p : Pool} {ts us : List Task} {g : ℕ} (start : ℕ) (pc : PoolConn) (well : Bool)
      → Drawn ts (pinging start pc) us
      → Step c (quiet p ts g) (after (pinged c start pc well p) us g)
  dials :
      {p : Pool} {ts us : List Task} {g : ℕ} (now i : ℕ) (well : Bool)
      → mem i p.active_conns ≡ false
      → Drawn ts dialing us
      → Step c (quiet p ts g) (after (dialed now i well p) us g)
  wakes :
      {p : Pool} {ts us : List Task} {g : ℕ} (now : ℕ) (is_cancelled : Bool)
      → Drawn ts waiting us
      → Step c (quiet p ts g) (after (wake c now is_cancelled p) us g)
  puts :
      {p : Pool} {ts : List Task} {g : ℕ} (now : ℕ) (pc : PoolConn)
      → mem pc.id p.lent ≡ true
      → Step c (quiet p ts g) (after (put_conn c now pc p) ts g)
  puts_pinged :
      {p : Pool} {ts us : List Task} {g : ℕ} (now : ℕ) (pc : PoolConn) (well : Bool)
      → Drawn ts (returning pc) us
      → Step c (quiet p ts g) (quiet (put_pinged c now pc well p) us g)
  puts_foreign :
      {p : Pool} {ts : List Task} {g : ℕ} (now i : ℕ)
      → Step c (quiet p ts g) (after (put_foreign c now i p) ts (suc g))
  marks :
      {p : Pool} {ts : List Task} {g : ℕ} (pc : PoolConn)
      → mem pc.id p.lent ≡ true
      → Step c (quiet p ts g) (quiet (mark_unhealthy pc p) ts g)
  sweeps :
      {p : Pool} {ts : List Task} {g : ℕ} (now : ℕ)
      → Step c (quiet p ts g) (quiet (sweep c now p).0 ((sweep c now p).1 ++ ts) g)
  closes :
      {p : Pool} {ts us : List Task} {g : ℕ} (pc : PoolConn)
      → Drawn ts (closing pc) us
      → Step c (quiet p ts g) (quiet (close_conn_locked pc.id p) us g)
  releases :
      {p : Pool} {ts : List Task} {g : ℕ}
      → p.closed ≡ false
      → Step c (quiet p ts g) (quiet (release_begin p) (releasing ∷ ts) g)
  -- `releasing` stands where `closed` has been set, and nothing clears it.
  released :
      {p : Pool} {ts us : List Task} {g : ℕ}
      → p.closed ≡ true
      → Drawn ts releasing us
      → Step c (quiet p ts g) (quiet (release_end p) us g)

pub data Steps (c : Config) : World → World → Type 0 where
  stop : {w : World} → Steps c w w
  and_then : {u v w : World} → Step c u v → Steps c v w → Steps c u w
