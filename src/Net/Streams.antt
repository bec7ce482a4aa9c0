-- ===== src/Net/Streams.antt =====
-- micro/net/pool.go: the pool of multiplexed streams. A function is what one call does between taking
-- and giving up the mutex. Streams are numbers, times are nanoseconds; what a stream says of itself
-- may change at any time, so every loop looks at the streams anew.
pub mod Pick
pub mod Steps
pub mod Limit
mod Tests
use soil.Base.{
  ℕ, zero, suc, ◌+◌, ◌-◌, ◌%◌, ◌^◌, Bool, true, false, not, ◌&&◌, ◌||◌, Option, none, some, List,
  [], ◌∷◌, ◌++◌, length, ltb, leb, ◌==◌, if◌then◌else◌,
}

-- `Alive`, `Inflight`, `CreatedAt` and `LastActive` of a stream.
pub record Status : Type 0 where
  pub alive : Bool
  pub inflight : ℕ
  pub created_at : ℕ
  pub last_active : ℕ

abbrev pub Sight : Type 0
Sight = ℕ → Status

-- What the loops of one turn of `Get` see: `compactLocked`, the first `pickLocked`, the load of what
-- it picked, and the second `pickLocked`.
pub record Sights : Type 0 where
  pub compacting : Sight
  pub picking : Sight
  pub loading : Sight
  pub last_pick : Sight

-- `streamPool`; times that are not positive are given as 0.
pub record StreamPool : Type 0 where
  pub max_open : ℕ
  pub idle_timeout : ℕ
  pub max_lifetime : ℕ
  pub heartbeat_interval : ℕ
  pub streams : List ℕ
  pub dialing : ℕ
  pub closed : Bool
  pub dial_count : ℕ
  pub closed_idle : ℕ
  pub closed_life : ℕ
  pub closed_bad : ℕ
  pub heartbeat_ok : ℕ
  pub heartbeat_err : ℕ

-- `newStreamPool`; a limit that is not positive is given as 0.
unfoldable pub new_stream_pool : ℕ → ℕ → ℕ → ℕ → StreamPool
new_stream_pool max_open idle lifetime heartbeat = record {
  max_open = if max_open == 0 then 1 else max_open;
  idle_timeout = idle;
  max_lifetime = lifetime;
  heartbeat_interval = heartbeat;
  streams = [];
  dialing = 0;
  closed = false;
  dial_count = 0;
  closed_idle = 0;
  closed_life = 0;
  closed_bad = 0;
  heartbeat_ok = 0;
  heartbeat_err = 0;
}

pub data Refusal : Type 0 where
  pool_closed cancelled dial_failed : Refusal

-- How a turn of `Get` ends: with a stream or an error, with a dial or a wait to be done without the
-- mutex, or at the head of the loop.
pub data Turn : Type 0 where
  picked : ℕ → Turn
  refused : Refusal → Turn
  dials waits again : Turn

-- `if best == nil || load < bestLoad`
unfoldable pub better : Option (ℕ × ℕ) → ℕ → ℕ → Option (ℕ × ℕ)
better none s load = some (s, load)
better (some (best, best_load)) s load =
    if ltb load best_load then some (s, load) else some (best, best_load)

-- The loop of `pickLocked`, from the best stream so far and its load.
unfoldable pub pick_from : Sight → Option (ℕ × ℕ) → List ℕ → Option (ℕ × ℕ)
unfolding better
pick_from v best [] = best
pick_from v best (s ∷ ss) =
    pick_from v (if (v s).alive then better best s (v s).inflight else best) ss

unfoldable pub stream_of : Option (ℕ × ℕ) → Option ℕ
stream_of none = none
stream_of (some (s, load)) = some s

unfoldable pub pick_locked : Sight → List ℕ → Option ℕ
unfolding pick_from stream_of
pick_locked v ss = stream_of (pick_from v none ss)

-- The streams that `compactLocked` keeps, and how many it drops.
unfoldable pub kept : Sight → List ℕ → List ℕ
kept v [] = []
kept v (s ∷ ss) = let rest = kept v ss in if (v s).alive then s ∷ rest else rest

unfoldable pub dropped : Sight → List ℕ → ℕ
dropped v [] = 0
dropped v (s ∷ ss) = (if (v s).alive then 0 else 1) + dropped v ss

unfoldable pub compact_locked : Sight → StreamPool → StreamPool
unfolding kept dropped
compact_locked v p = record p {
  streams = kept v p.streams;
  closed_bad = p.closed_bad + dropped v p.streams;
}

-- The stream that `Get` uses again before it thinks of a dial.
unfoldable pub reused : Sights → StreamPool → Option ℕ → Option ℕ
reused v p none = none
reused v p (some s) =
    if leb p.max_open (length p.streams + p.dialing) || ltb (v.loading s).inflight 32
    then some s
    else none

unfoldable pub picked_or : Turn → Option ℕ → Turn
picked_or t none = t
picked_or t (some s) = picked s

unfoldable pub dial_or_wait : Sights → StreamPool → StreamPool × Turn
unfolding picked_or
dial_or_wait v p =
    if ltb (length p.streams + p.dialing) p.max_open
    then (record p { dialing = p.dialing + 1 }, dials)
    else (p, picked_or waits (pick_locked v.last_pick p.streams))

unfoldable pub take_turn : Sights → StreamPool → Option ℕ → StreamPool × Turn
unfolding dial_or_wait
take_turn v p none = dial_or_wait v p
take_turn v p (some s) = (p, picked s)

-- A turn of the loop of `Get`, up to its dial or its wait.
unfoldable pub get_turn : Sights → Bool → StreamPool → StreamPool × Turn
unfolding compact_locked reused take_turn
get_turn v is_cancelled p =
    let q = compact_locked v.compacting p in
    if p.closed
    then (p, refused pool_closed)
    else if is_cancelled
    then (p, refused cancelled)
    else take_turn v q (reused v q (pick_locked v.picking q.streams))

-- `dialStream`, which does not hold the mutex: none is an error.
unfoldable pub dial_stream : Option ℕ → StreamPool → StreamPool
dial_stream none p = p
dial_stream (some s) p = record p { dial_count = p.dial_count + 1 }

-- The new stream joins the others; where there is no room it is closed, and one of them is used.
unfoldable pub join_streams : Sights → ℕ → StreamPool → StreamPool × Turn
join_streams v s p =
    if leb p.max_open (length p.streams)
    then (p, picked_or again (pick_locked v.last_pick p.streams))
    else (record p { streams = p.streams ++ (s ∷ []) }, picked s)

unfoldable pub settle_dial : Sights → Option ℕ → StreamPool → StreamPool × Turn
unfolding compact_locked join_streams
settle_dial v none p = (p, refused dial_failed)
settle_dial v (some s) p =
    if p.closed then (p, refused pool_closed) else join_streams v s (compact_locked v.compacting p)

-- What `Get` does when its dial has ended.
unfoldable pub finish_dial : Sights → Option ℕ → StreamPool → StreamPool × Turn
unfolding settle_dial
finish_dial v dialed p = settle_dial v dialed (record p { dialing = p.dialing - 1 })

-- What `waitLocked` finds when it wakes up.
unfoldable pub finish_wait : Bool → StreamPool → StreamPool × Turn
finish_wait is_cancelled p =
    if p.closed
    then (p, refused pool_closed)
    else if is_cancelled
    then (p, refused cancelled)
    else (p, again)

-- The tests of `maintain`, in their order; a limit of 0 is none.
pub data Verdict : Type 0 where
  bad too_old idle : Verdict
  keeps : Bool → Verdict

unfoldable pub exceeds : ℕ → ℕ → Bool
exceeds limit time = ltb 0 limit && ltb limit time

unfoldable pub verdict : ℕ → StreamPool → Status → Verdict
unfolding exceeds
verdict now p t =
    if not t.alive
    then bad
    else if exceeds p.max_lifetime (now - t.created_at) && (t.inflight == 0)
    then too_old
    else if exceeds p.idle_timeout (now - t.last_active) && (t.inflight == 0)
    then idle
    else keeps (ltb 0 p.heartbeat_interval && leb p.heartbeat_interval (now - t.last_active))

-- What a round of `maintain` has found so far.
pub record Round : Type 0 where
  pub survivors : List ℕ
  pub to_close : List ℕ
  pub to_ping : List ℕ
  pub of_life : ℕ
  pub of_idle : ℕ
  pub of_bad : ℕ

unfoldable pub judge : ℕ → Verdict → Round → Round
judge s bad r = record r { of_bad = r.of_bad + 1 }
judge s too_old r = record r { to_close = s ∷ r.to_close; of_life = r.of_life + 1 }
judge s idle r = record r { to_close = s ∷ r.to_close; of_idle = r.of_idle + 1 }
judge s (keeps true) r = record r { survivors = s ∷ r.survivors; to_ping = s ∷ r.to_ping }
judge s (keeps false) r = record r { survivors = s ∷ r.survivors }

-- The loop of `maintain`, with its lists in order.
unfoldable pub survey : ℕ → StreamPool → Sight → List ℕ → Round
unfolding verdict judge
survey now p v [] = record {
  survivors = [];
  to_close = [];
  to_ping = [];
  of_life = 0;
  of_idle = 0;
  of_bad = 0;
}
survey now p v (s ∷ ss) = judge s (verdict now p (v s)) (survey now p v ss)

unfoldable pub maintained : Round → StreamPool → StreamPool
maintained r p = record p {
  streams = r.survivors;
  closed_life = p.closed_life + r.of_life;
  closed_idle = p.closed_idle + r.of_idle;
  closed_bad = p.closed_bad + r.of_bad;
}

-- `maintain` under the mutex: what it closes and pings afterwards is in the round.
unfoldable pub maintain : ℕ → Sight → Sight → StreamPool → StreamPool × Round
unfolding survey maintained
maintain now compacting v p =
    let q = compact_locked compacting p in
    let r = survey now q v q.streams in
    if p.closed then (p, survey now q v []) else (maintained r q, r)

unfoldable pub remove_locked : ℕ → List ℕ → List ℕ
remove_locked target [] = []
remove_locked target (s ∷ ss) =
    let rest = remove_locked target ss in if s == target then rest else s ∷ rest

-- `pingOne` of a stream that is alive, once the ping has ended.
unfoldable pub ping_one : ℕ → Bool → StreamPool → StreamPool
unfolding remove_locked
ping_one s true p = record p { heartbeat_ok = p.heartbeat_ok + 1 }
ping_one s false p = record p {
  heartbeat_err = p.heartbeat_err + 1;
  streams = remove_locked s p.streams;
}

-- `Close`: the new state, and the streams that it closes afterwards.
unfoldable pub close_pool : StreamPool → StreamPool × List ℕ
close_pool p = if p.closed then (p, []) else (record p { closed = true; streams = [] }, p.streams)

-- `PoolStats`
pub record PoolStats : Type 0 where
  pub open_cnt : ℕ
  pub dial_count : ℕ
  pub closed_idle : ℕ
  pub closed_life : ℕ
  pub closed_bad : ℕ
  pub heartbeat_ok : ℕ
  pub heartbeat_err : ℕ
  pub total_inflight : ℕ

unfoldable pub total_load : Sight → List ℕ → ℕ
total_load v [] = 0
total_load v (s ∷ ss) = (v s).inflight + total_load v ss

-- `Stats`; the total is an int32, given modulo 2^32.
unfoldable pub stats : Sight → Sight → StreamPool → StreamPool × PoolStats
unfolding total_load
stats compacting v p =
    let q = compact_locked compacting p in
    (
      q,
      record {
        open_cnt = length q.streams;
        dial_count = q.dial_count;
        closed_idle = q.closed_idle;
        closed_life = q.closed_life;
        closed_bad = q.closed_bad;
        heartbeat_ok = q.heartbeat_ok;
        heartbeat_err = q.heartbeat_err;
        total_inflight = total_load v q.streams % 2 ^ 32;
      },
    )
