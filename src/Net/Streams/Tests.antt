-- ===== src/Net/Streams/Tests.antt =====
-- Runs of the stream pool, and the theorems at them.
use soil.Base.{◌≡◌, refl, true, false, some, [], ◌∷◌, ◌++◌, ◌==◌, if◌then◌else◌}
use soil.Net.Streams.{
  Sight, Sights, Status, StreamPool, Turn, picked, dials, waits, new_stream_pool, get_turn,
  finish_dial, maintain, kept, pick_locked, close_pool, stats,
}
use soil.Net.Streams.Steps.{System, get, Reachable, new, after, new_dialers}
use soil.Net.Streams.Pick.{IsPick, pick_locked-IsPick}
use soil.Net.Streams.Limit.{IsWithin, Reachable-IsWithin, finish_dial-joins}

-- Stream 1 is dead, stream 2 is busy, and any other one has a call.
abbrev sight : Sight
sight s = record {
  alive = if s == 1 then false else true;
  inflight = if s == 2 then 40 else 1;
  created_at = 0;
  last_active = 5;
}

abbrev sights : Sights
sights = record { compacting = sight; picking = sight; loading = sight; last_pick = sight }

least : pick_locked sight (1 ∷ 2 ∷ 3 ∷ 4 ∷ []) ≡ some 3
unfolding pick_locked
least = refl

pick_locked-IsPick_example :
    IsPick sight (1 ∷ 2 ∷ 3 ∷ 4 ∷ []) (pick_locked sight (1 ∷ 2 ∷ 3 ∷ 4 ∷ []))
pick_locked-IsPick_example = pick_locked-IsPick sight (1 ∷ 2 ∷ 3 ∷ 4 ∷ [])

abbrev start : StreamPool
start = new_stream_pool 2 10 0 4

-- The first call dials, since there is no stream.
abbrev first : System
first = record { pool = (get_turn sights false start).0; dialers = 1 }

first_dials : (get_turn sights false start).1 ≡ dials
unfolding get_turn new_stream_pool pick_locked
first_dials = refl

first_Reachable : Reachable first
unfolding get_turn new_stream_pool pick_locked new_dialers
first_Reachable =
    after (record { pool = start; dialers = 0 }) first (new 2 10 0 4) (get sights false start 0)

Reachable-IsWithin_example : IsWithin 1 first.pool
Reachable-IsWithin_example = Reachable-IsWithin first first_Reachable

first_open : first.pool.closed ≡ false
unfolding get_turn new_stream_pool pick_locked
first_open = refl

finish_dial-joins_example :
    ((finish_dial sights (some 7) first.pool).1 ≡ picked 7)
    × ((finish_dial sights (some 7) first.pool).0.streams
        ≡ kept sight first.pool.streams ++ (7 ∷ []))
finish_dial-joins_example = finish_dial-joins sights 7 0 first.pool first_Reachable first_open

-- A busy stream is not used again while there is room for another one.
abbrev busy : StreamPool
busy = record start { streams = 2 ∷ [] }

busy_dials : (get_turn sights false busy).1 ≡ dials
unfolding get_turn new_stream_pool pick_locked
busy_dials = refl

-- An idle stream is closed, a stream with calls is not.
abbrev calm : Sight
calm s = record {
  alive = true;
  inflight = if s == 2 then 1 else 0;
  created_at = 0;
  last_active = 5;
}

swept : (maintain 16 calm calm (record start { streams = 2 ∷ 3 ∷ [] })).1.to_close ≡ 3 ∷ []
unfolding maintain new_stream_pool soil.Net.Streams.compact_locked
swept = refl
