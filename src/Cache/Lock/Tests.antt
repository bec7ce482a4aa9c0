-- ===== src/Cache/Lock/Tests.antt =====
-- Runs of locks over a data base that is a function, and the theorem at one.
use soil.Base.{
  ◌≡◌, ◌≢◌, refl, ap, true, false, Option, none, some, List, [], ◌∷◌, Bytes, codes, same, same_refl,
  All, if◌then◌else◌,
}
use soil.Cache.Lock.{
  Redis, Lock, answered, lost, timed_out, try_lock, lock_loop, success, refused, failed, gave_up,
  panicked,
}
use soil.Cache.Lock.Holding.{Call, trying, refreshing, unlocking, run_calls, run_calls-held}

abbrev Values : Type 0
Values = Bytes → Option Bytes

abbrev database : Redis Values
database = record {
  read = λ k s. s k;
  write = λ k v t s. λ j. if same k j then some v else s j;
  remove = λ k s. λ j. if same k j then none else s j;
  expire = λ k t s. s;
  read_write = λ k v t s h. rw (same_refl k) refl;
  read_write_other = λ k j v t s e. rw e refl;
  read_remove = λ k j s. refl;
  read_expire = λ k t s h. refl;
  read_expire_other = λ k j t s e. refl;
}

abbrev locked_by_a : Values
locked_by_a = (try_lock database answered (codes "k") (codes "a") 10 (λ j. none)).0

abbrev lock_of_b : Lock
lock_of_b = record { key = codes "k"; uuid = codes "b"; expiration = 10; is_closed = false }

abbrev attempts : List Call
attempts =
    trying answered (codes "k") (codes "b") 10
    ∷ unlocking answered lock_of_b
    ∷ refreshing (lost true) lock_of_b
    ∷ []

attempts_replies :
    (run_calls database (codes "k") attempts locked_by_a).1 ≡ refused ∷ refused ∷ failed ∷ []
unfolding run_calls try_lock same
attempts_replies = refl

-- A fixed strategy with one retry gives up; a call that times out brings the code down.
loop_tests :
    ((lock_loop database
        (codes "k")
        (codes "b")
        10
        (λ n. false)
        (λ n. answered)
        5
        0
        (record { interval = 1; max_cnt = 1; cnt = 0 })
        locked_by_a).1
      ≡ gave_up)
    × ((lock_loop database
          (codes "k")
          (codes "b")
          10
          (λ n. false)
          (λ n. timed_out false)
          5
          0
          (record { interval = 1; max_cnt = 1; cnt = 0 })
          locked_by_a).1
        ≡ panicked)
unfolding lock_loop try_lock same
loop_tests = (refl, refl)

b-ne-a : codes "b" ≢ codes "a"
unfolding same
b-ne-a e = cc (ap (same (codes "b")) e)

run_calls-held_example :
    ((run_calls database (codes "k") attempts locked_by_a).0 (codes "k") ≡ some (codes "a"))
    × All (λ r. r ≢ success) (run_calls database (codes "k") attempts locked_by_a).1
unfolding try_lock same
run_calls-held_example =
    run_calls-held database (codes "k") (codes "a") attempts locked_by_a refl
      (b-ne-a, (b-ne-a, (b-ne-a, tt)))
