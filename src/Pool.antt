-- ===== src/Pool.antt =====
-- micro/pool/pool.go: the connection pool. A function is what one call does between taking and
-- giving up the mutex; the task that it leaves is what the call does next. Times are nanoseconds, a
-- list of idle connections has the last one first, and `max_conn_lifetime` is 0 where there is none.
pub mod Steps
pub mod Counts
pub mod Sections
pub mod Invariant
pub mod Leak
mod Tests
use soil.Base.{
  ℕ, zero, suc, ◌+◌, ◌-◌, ◌<◌, ◌≤◌, Bool, true, false, not, ◌&&◌, ◌||◌, Option, none, some, List,
  [], ◌∷◌, ◌++◌, map, length, ltb, leb, ◌==◌, if◌then◌else◌, ℤ, pos, negsuc, ◌+ℤ◌, ◌-ℤ◌, ltb_ℤ,
}

-- A `PoolConn`, `id` its pointer. Package sync hands out objects of closed connections again, so that a
-- pointer may stand for one connection after another.
pub record PoolConn : Type 0 where
  pub id : ℕ
  pub create_time : ℕ
  pub last_active : ℕ

-- What `NewPool` fixes; `pings` says that there is a ping function.
pub record Config : Type 0 where
  pub max_idle_cnt : ℕ
  pub max_conn_cap : ℕ
  pub max_idle_time : ℕ
  pub max_conn_lifetime : ℕ
  pub pings : Bool

-- `lent` has the connections that clients have and whose `returned` is false; no client has those that
-- are idle or in hand. `shut` has those whose `conn` is closed and nil.
pub record Pool : Type 0 where
  pub conn_cnt : ℤ
  pub idle_conns : List PoolConn
  pub active_conns : List ℕ
  pub closed : Bool
  pub lent : List ℕ
  pub shut : List ℕ
  pub wait_count : ℕ
  pub max_idle_closed : ℕ
  pub max_lifetime_closed : ℕ

-- What a call has in hand while it does not hold the mutex: nothing but a slot for the connection it
-- dials, a connection under the ping of `Get` (with the time its search began) or of `Put`, one to be
-- closed, or nothing at all. `releasing` is a `Release` that waits for the cleanup to end.
pub data Task : Type 0 where
  dialing : Task
  pinging : ℕ → PoolConn → Task
  returning : PoolConn → Task
  closing : PoolConn → Task
  waiting releasing : Task

pub data Refusal : Type 0 where
  pool_closed dial_failed cancelled : Refusal

pub data Progress : Type 0 where
  goes_on : Task → Progress
  got : PoolConn → Progress
  refused : Refusal → Progress
  done : Progress

unfoldable pub mem : ℕ → List ℕ → Bool
mem i [] = false
mem i (j ∷ js) = i == j || mem i js

unfoldable pub remove : ℕ → List ℕ → List ℕ
remove i [] = []
remove i (j ∷ js) = let rest = j ∷ remove i js in if i == j then js else rest

-- `pc.conn.Close()`, which happens once.
abbrev pub shut_once : ℕ → List ℕ → List ℕ
shut_once i is = if mem i is then is else i ∷ is

unfoldable pub close_conn_locked : ℕ → Pool → Pool
close_conn_locked i p = record p { shut = shut_once i p.shut; conn_cnt = p.conn_cnt -ℤ pos 1 }

abbrev pub is_idle_out : Config → ℕ → PoolConn → Bool
is_idle_out c now pc = ltb (pc.last_active + c.max_idle_time) now

abbrev pub is_worn_out : Config → ℕ → PoolConn → Bool
is_worn_out c now pc = ltb 0 c.max_conn_lifetime && ltb (pc.create_time + c.max_conn_lifetime) now

abbrev pub count_idle_closed : ℕ → Pool → Pool
count_idle_closed n p = record p { max_idle_closed = p.max_idle_closed + n }

abbrev pub count_lifetime_closed : ℕ → Pool → Pool
count_lifetime_closed n p = record p { max_lifetime_closed = p.max_lifetime_closed + n }

-- The loop of `getIdleConnLocked` up to a connection that is neither idle for too long nor too old.
unfoldable pub take_idle : Config → ℕ → List PoolConn → Pool → Pool × Option PoolConn
take_idle c now [] p = (record p { idle_conns = [] }, none)
take_idle c now (pc ∷ pcs) p =
    let idled = take_idle c now pcs (count_idle_closed 1 (close_conn_locked pc.id p)) in
    let outlived = take_idle c now pcs (count_lifetime_closed 1 (close_conn_locked pc.id p)) in
    if is_idle_out c now pc
    then idled
    else if is_worn_out c now pc
    then outlived
    else (record p { idle_conns = pcs }, some pc)

-- `pc.returned.Store(false)` and `p.activeConns[pc] = struct{}{}`; `pc` is not active yet.
abbrev pub lend : PoolConn → Pool → Pool
lend pc p = record p { active_conns = pc.id ∷ p.active_conns; lent = pc.id ∷ p.lent }

unfoldable pub after_take : Config → ℕ → Pool → Option PoolConn → Pool × Progress
after_take c now p (some pc) =
    if c.pings then (p, goes_on (pinging now pc)) else (lend pc p, got pc)
after_take c now p none =
    if ltb_ℤ p.conn_cnt (pos c.max_conn_cap)
    then (record p { conn_cnt = p.conn_cnt +ℤ pos 1 }, goes_on dialing)
    else (record p { wait_count = p.wait_count + 1 }, goes_on waiting)

-- A round of the loop of `Get`.
unfoldable pub get_round : Config → ℕ → Pool → Pool × Progress
unfolding take_idle after_take
get_round c now p = let taken = take_idle c now p.idle_conns p in after_take c now taken.0 taken.1

unfoldable pub get : Config → ℕ → Pool → Pool × Progress
unfolding get_round
get c now p = if p.closed then (p, refused pool_closed) else get_round c now p

-- `getIdleConnLocked` behind the ping, which went well or not.
unfoldable pub pinged : Config → ℕ → PoolConn → Bool → Pool → Pool × Progress
unfolding get_round close_conn_locked
pinged c now pc well p =
    if p.closed
    then (close_conn_locked pc.id p, refused pool_closed)
    else if well
    then (lend pc p, got pc)
    else get_round c now (close_conn_locked pc.id p)

-- `wrapConn` with the object `i` that `connPool` gives, a new one or one of a closed connection: its
-- fields, and `conn`, which is not nil any more.
abbrev pub wrap_conn : ℕ → ℕ → PoolConn
wrap_conn i now = record { id = i; create_time = now; last_active = now }

abbrev pub set_conn : ℕ → Pool → Pool
set_conn i p = record p { shut = remove i p.shut }

-- `Get` behind the call of the factory.
unfoldable pub dialed : (now i : ℕ) → Bool → Pool → Pool × Progress
unfolding remove
dialed now i well p =
    if not well
    then (record p { conn_cnt = p.conn_cnt -ℤ pos 1 }, refused dial_failed)
    else if p.closed
    then (set_conn i p, goes_on (closing (wrap_conn i now)))
    else (lend (wrap_conn i now) (set_conn i p), got (wrap_conn i now))

-- `waitWithContext` when it has the mutex again, and the next round.
unfoldable pub wake : Config → ℕ → Bool → Pool → Pool × Progress
unfolding get_round
wake c now is_cancelled p =
    if p.closed
    then (p, refused pool_closed)
    else if is_cancelled
    then (p, refused cancelled)
    else get_round c now p

-- The end of `putConn`.
unfoldable pub keep : Config → ℕ → PoolConn → Pool → Pool
unfolding close_conn_locked
keep c now pc p =
    if ltb (length p.idle_conns) c.max_idle_cnt
    then record p { idle_conns = record pc { last_active = now } ∷ p.idle_conns }
    else close_conn_locked pc.id p

-- `putConn`; no other call reads `returned` between its swap and the mutex.
unfoldable pub put_conn : Config → ℕ → PoolConn → Pool → Pool × Progress
unfolding keep close_conn_locked remove mem
put_conn c now pc p =
    let q = record p { lent = remove pc.id p.lent } in
    let r = record q { active_conns = remove pc.id p.active_conns } in
    if not (mem pc.id p.lent)
    then (p, done)
    else if p.closed
    then (close_conn_locked pc.id q, refused pool_closed)
    else if is_worn_out c now pc
    then (count_lifetime_closed 1 (close_conn_locked pc.id r), done)
    else if c.pings
    then (r, goes_on (returning pc))
    else (keep c now pc r, done)

-- `putConn` behind the ping.
unfoldable pub put_pinged : Config → ℕ → PoolConn → Bool → Pool → Pool
unfolding keep close_conn_locked
put_pinged c now pc well p = if well then keep c now pc p else close_conn_locked pc.id p

-- `Put` of a connection that is no `PoolConn`; a closed pool closes it and forgets it.
unfoldable pub put_foreign : Config → (now i : ℕ) → Pool → Pool × Progress
unfolding close_conn_locked remove
put_foreign c now i p =
    let pc = wrap_conn i now in
    let q = record (set_conn i p) { conn_cnt = p.conn_cnt +ℤ pos 1 } in
    if p.closed
    then (p, refused pool_closed)
    else if ltb (length p.idle_conns) c.max_idle_cnt
    then (record q { idle_conns = pc ∷ p.idle_conns }, done)
    else (close_conn_locked pc.id q, done)

unfoldable pub mark_unhealthy : PoolConn → Pool → Pool
unfolding close_conn_locked remove mem
mark_unhealthy pc p =
    if not (mem pc.id p.lent)
    then p
    else close_conn_locked pc.id
        (record p { lent = remove pc.id p.lent; active_conns = remove pc.id p.active_conns })

abbrev pub is_stale : Config → ℕ → PoolConn → Bool
is_stale c now pc = is_idle_out c now pc || is_worn_out c now pc

-- What the loop of `backgroundCleanup` keeps and what it collects for closing.
unfoldable pub fresh_of : Config → ℕ → List PoolConn → List PoolConn
fresh_of c now [] = []
fresh_of c now (pc ∷ pcs) =
    let rest = fresh_of c now pcs in if is_stale c now pc then rest else pc ∷ rest

unfoldable pub stale_of : Config → ℕ → List PoolConn → List PoolConn
stale_of c now [] = []
stale_of c now (pc ∷ pcs) =
    let rest = stale_of c now pcs in if is_stale c now pc then pc ∷ rest else rest

-- `idleClosed`; what else is collected is too old.
unfoldable pub idle_closed : Config → ℕ → List PoolConn → ℕ
idle_closed c now [] = 0
idle_closed c now (pc ∷ pcs) =
    let rest = idle_closed c now pcs in if is_idle_out c now pc then suc rest else rest

-- A tick of `backgroundCleanup` up to its unlocking, and what it closes then, one by one. The
-- counters that it adds at its end are added at once.
unfoldable pub sweep : Config → ℕ → Pool → Pool × List Task
unfolding fresh_of stale_of idle_closed
sweep c now p = if p.closed then (p, []) else (
  count_idle_closed (idle_closed c now p.idle_conns) (
      count_lifetime_closed (length (stale_of c now p.idle_conns) - idle_closed c now p.idle_conns)
        (record p { idle_conns = fresh_of c now p.idle_conns })),
  map closing (stale_of c now p.idle_conns),
)

-- `Release` up to its first unlocking, then its last section.
unfoldable pub release_begin : Pool → Pool
release_begin p = record p { closed = true }

unfoldable pub close_all : List ℕ → Pool → Pool
unfolding close_conn_locked
close_all [] p = p
close_all (i ∷ is) p = close_all is (close_conn_locked i p)

abbrev pub id_of : PoolConn → ℕ
id_of pc = pc.id

unfoldable pub release_end : Pool → Pool
unfolding close_all
release_end p =
    let q = close_all p.active_conns (close_all (map id_of p.idle_conns) p) in
    record q { idle_conns = []; active_conns = []; conn_cnt = pos 0 }

-- What `NewPool` returns.
pub data Created : Type 0 where
  created : Pool → Created
  bad_capacity no_connection : Created

-- The loop of `NewPool`: `k` more connections, the next one being the `i`-th; `dial i` says whether
-- the factory makes it.
unfoldable pub fill : (ℕ → Bool) → ℕ → ℕ → ℕ → List PoolConn → Option (List PoolConn)
fill dial now zero i pcs = some pcs
fill dial now (suc k) i pcs =
    let rest =
      fill dial now k (suc i) (record { id = i; create_time = now; last_active = now } ∷ pcs) in
    if dial i then rest else none

abbrev pub initial_pool : ℕ → List PoolConn → Pool
initial_pool init pcs = record {
  conn_cnt = pos init;
  idle_conns = pcs;
  active_conns = [];
  closed = false;
  lent = [];
  shut = [];
  wait_count = 0;
  max_idle_closed = 0;
  max_lifetime_closed = 0;
}

unfoldable pub created_of : ℕ → Option (List PoolConn) → Created
created_of init none = no_connection
created_of init (some pcs) = created (initial_pool init pcs)

unfoldable pub new_pool : Config → (ℕ → Bool) → ℕ → ℕ → Created
unfolding fill created_of
new_pool c dial init now =
    if ltb c.max_idle_cnt init || ltb c.max_conn_cap c.max_idle_cnt
    then bad_capacity
    else created_of init (fill dial now init 0 [])

-- `Stats`, without the time spent waiting.
pub record Stats : Type 0 where
  pub max_open_connections : ℕ
  pub open_connections : ℤ
  pub in_use : ℕ
  pub idle : ℕ
  pub waits : ℕ
  pub idle_closings : ℕ
  pub lifetime_closings : ℕ

unfoldable pub stats : Config → Pool → Stats
stats c p = record {
  max_open_connections = c.max_conn_cap;
  open_connections = p.conn_cnt;
  in_use = length p.active_conns;
  idle = length p.idle_conns;
  waits = p.wait_count;
  idle_closings = p.max_idle_closed;
  lifetime_closings = p.max_lifetime_closed;
}
