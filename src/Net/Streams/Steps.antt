-- ===== src/Net/Streams/Steps.antt =====
-- micro/net/pool.go: the pool and the calls that are dialing, as a step relation. Any number of calls
-- run at a time, and what they see of the streams is free.
use soil.Base.{ℕ, suc, ◌+◌, Bool, Option}
use soil.Net.Streams.{
  Sight, Sights, StreamPool, Turn, picked, refused, dials, waits, again, get_turn, dial_stream,
  finish_dial, maintain, ping_one, close_pool, stats, new_stream_pool,
}

-- How many calls dial behind a turn.
unfoldable pub new_dialers : Turn → ℕ
new_dialers (picked s) = 0
new_dialers (refused r) = 0
new_dialers dials = 1
new_dialers waits = 0
new_dialers again = 0

-- The pool, and how many calls are between the two halves of a dial.
pub record System : Type 0 where
  pub pool : StreamPool
  pub dialers : ℕ

pub data Step : System → System → Type 0 where
  get :
      (v : Sights) (is_cancelled : Bool) (p : StreamPool) (n : ℕ)
      → Step
          (record { pool = p; dialers = n })
          (record {
            pool = (get_turn v is_cancelled p).0;
            dialers = new_dialers (get_turn v is_cancelled p).1 + n;
          })
  dial :
      (dialed : Option ℕ) (p : StreamPool) (n : ℕ)
      → Step
          (record { pool = p; dialers = n })
          (record { pool = dial_stream dialed p; dialers = n })
  finish :
      (v : Sights) (dialed : Option ℕ) (p : StreamPool) (n : ℕ)
      → Step
          (record { pool = p; dialers = suc n })
          (record { pool = (finish_dial v dialed p).0; dialers = n })
  maintaining :
      (now : ℕ) (compacting v : Sight) (p : StreamPool) (n : ℕ)
      → Step
          (record { pool = p; dialers = n })
          (record { pool = (maintain now compacting v p).0; dialers = n })
  ping :
      (s : ℕ) (answers : Bool) (p : StreamPool) (n : ℕ)
      → Step
          (record { pool = p; dialers = n })
          (record { pool = ping_one s answers p; dialers = n })
  closing :
      (p : StreamPool) (n : ℕ)
      → Step (record { pool = p; dialers = n }) (record { pool = (close_pool p).0; dialers = n })
  counting :
      (compacting v : Sight) (p : StreamPool) (n : ℕ)
      → Step
          (record { pool = p; dialers = n })
          (record { pool = (stats compacting v p).0; dialers = n })

-- What a new pool comes to.
pub data Reachable : System → Type 0 where
  new :
      (max_open idle lifetime heartbeat : ℕ)
      → Reachable (record { pool = new_stream_pool max_open idle lifetime heartbeat; dialers = 0 })
  after : (a b : System) → Reachable a → Step a b → Reachable b
