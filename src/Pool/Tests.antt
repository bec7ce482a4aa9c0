-- ===== src/Pool/Tests.antt =====
-- Runs of the connection pool, and the theorems at them.
use soil.Base.{ℕ, ◌≡◌, refl, arith, Bool, true, false, [], ◌∷◌, pos}
use soil.Pool.{
  PoolConn, Config, Pool, created, new_pool, initial_pool, get, put_conn, put_pinged, sweep,
  refused, pool_closed, got, goes_on, dialing, waiting, release_begin, release_end, dialed,
  take_idle, get_round, after_take, fill, created_of, keep, close_conn_locked, mem, remove,
}
use soil.Pool.Steps.{stop, and_then, gets, after}
use soil.Pool.Invariant.{IsSound, new_pool-IsSound}
use soil.Pool.Leak.{put_pinged-strands}

pool_runs : Unit {0}
unfolding new_pool fill created_of get get_round take_idle after_take put_conn put_pinged keep
    close_conn_locked mem remove dialed release_begin release_end
pool_runs = tt

abbrev limits : Config
limits = record {
  max_idle_cnt = 1;
  max_conn_cap = 2;
  max_idle_time = 10;
  max_conn_lifetime = 0;
  pings = false;
}

abbrev all_dial : ℕ → Bool
all_dial i = true

abbrev first_conn : PoolConn
first_conn = record { id = 0; create_time = 3; last_active = 3 }

abbrev new_one : Pool
new_one = initial_pool 1 (first_conn ∷ [])

new_one_created : new_pool limits all_dial 1 3 ≡ created new_one
unfolding pool_runs
new_one_created = refl

-- The first call takes the idle connection, the second dials, the third waits.
abbrev one_lent : Pool
one_lent = (get limits 5 new_one).0

abbrev two_lent : Pool
two_lent = (dialed 5 1 true (get limits 5 one_lent).0).0

pool_tests :
    ((get limits 5 new_one).1 ≡ got first_conn)
    × ((get limits 5 one_lent).1 ≡ goes_on dialing)
    × ((get limits 5 two_lent).1 ≡ goes_on waiting)
    × (two_lent.conn_cnt ≡ pos 2)
    × ((put_conn limits 6 first_conn two_lent).0.idle_conns
        ≡ record first_conn { last_active = 6 } ∷ [])
    × ((get limits 5 (release_end (release_begin two_lent))).1 ≡ refused pool_closed)
unfolding pool_runs soil.Base.◌+ℤ◌
pool_tests = (refl, refl, refl, refl, refl, refl)

new_pool-IsSound_example : IsSound limits (after (get limits 5 new_one) [] 0)
new_pool-IsSound_example =
    new_pool-IsSound limits all_dial 1 3 new_one (after (get limits 5 new_one) [] 0) new_one_created
      (and_then (gets 5) stop)

put_pinged-strands_example :
    ((put_pinged limits 7 first_conn true (release_end (release_begin new_one))).idle_conns
      ≡ record first_conn { last_active = 7 } ∷ [])
    × ((put_pinged limits 7 first_conn true (release_end (release_begin new_one))).shut
        ≡ (release_end (release_begin new_one)).shut)
    × (get limits 9 (put_pinged limits 7 first_conn true (release_end (release_begin new_one))) ≡ (
      put_pinged limits 7 first_conn true (release_end (release_begin new_one)),
      refused pool_closed,
    ))
    × (sweep limits 9 (put_pinged limits 7 first_conn true (release_end (release_begin new_one)))
        ≡ (put_pinged limits 7 first_conn true (release_end (release_begin new_one)), []))
put_pinged-strands_example = put_pinged-strands limits 7 9 first_conn new_one (omega arith)
